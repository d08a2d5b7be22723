-- ===== src/Audit/Recorder/Async/Accepted.antt =====
-- internal/audit/recorder.go: the items that each action puts into the asynchronous recorder's channel,
-- and the events and rollups they carry.
use turnstile_appcheck_gatew.Prelude.{
  List, [], ◌∷◌, ◌++◌, Option, none, some, ◌≡◌, refl, ap, sym, ◌∙◌, if◌then◌else◌, ltb, length,
  append_assoc,
}
use turnstile_appcheck_gatew.Prelude.Int.{pos_part}
use turnstile_appcheck_gatew.Audit.Event.{Event, MetricRollup}
use turnstile_appcheck_gatew.Audit.Recorder.{AsyncConfig}
use turnstile_appcheck_gatew.Audit.Recorder.Async.{
  AsyncItem, AsyncRecorder, Action, submit, send, resume, receive, flush_request, tick, shut_down,
  close, sent, context_done, timed_out, event_of, rollup_of, item_at,
}

-- the channel's events and rollups, in order
abbrev pub events_in : List AsyncItem → List Event
events_in [] = []
events_in (i ∷ is) = event_of i ++ events_in is

abbrev pub rollups_in : List AsyncItem → List MetricRollup
rollups_in [] = []
rollups_in (i ∷ is) = rollup_of i.rollup ++ rollups_in is

pub events_in-append :
    (is js : List AsyncItem) → events_in (is ++ js) ≡ events_in is ++ events_in js
events_in-append [] js = refl
events_in-append (i ∷ is) js =
    ap (λ l. event_of i ++ l) (events_in-append is js) ∙ sym (append_assoc (event_of i) _ _)

pub rollups_in-append :
    (is js : List AsyncItem) → rollups_in (is ++ js) ≡ rollups_in is ++ rollups_in js
rollups_in-append [] js = refl
rollups_in-append (i ∷ is) js =
    ap (λ l. rollup_of i.rollup ++ l) (rollups_in-append is js)
    ∙ sym (append_assoc (rollup_of i.rollup) _ _)

abbrev pub one : Option AsyncItem → List AsyncItem
one none = []
one (some i) = i ∷ []

module _ {S : Type 0} (cfg : AsyncConfig) where
  -- the items that an action puts into the channel: those that find it with room
  abbrev pub accepted : Action → AsyncRecorder S → List AsyncItem
  accepted (submit event draws) r = []
  accepted (send n) r =
      if ltb (length r.items) (pos_part cfg.channel_size) then one (item_at n r.pending) else []
  accepted (resume n sent) r =
      if ltb (length r.items) (pos_part cfg.channel_size) then one (item_at n r.blocked) else []
  accepted (resume n context_done) r = []
  accepted (resume n timed_out) r = []
  accepted receive r = []
  accepted flush_request r = []
  accepted tick r = []
  accepted (shut_down cancelled) r = []
  accepted close r = []

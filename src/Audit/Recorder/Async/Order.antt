-- ===== src/Audit/Recorder/Async/Order.antt =====
-- internal/audit/recorder.go: what becomes of the items that the asynchronous recorder accepts, with
-- an atomic repository.
use turnstile_appcheck_gatew.Prelude.{
  ℕ, ◌+◌, Bool, true, false, not, ◌&&◌, List, [], ◌∷◌, ◌++◌, Option, none, some, ◌≡◌, refl, sym,
  ◌∙◌, if◌then◌else◌, ltb, leb, length, is_empty, append_assoc, append-nil, Bool-cases, inl, inr,
}
use turnstile_appcheck_gatew.Prelude.Int.{pos_part}
use turnstile_appcheck_gatew.Audit.Event.{Event, MetricRollup, prepare_event}
use turnstile_appcheck_gatew.Audit.Policy.{PolicyConfig, decide}
use turnstile_appcheck_gatew.Audit.Recorder.{
  Repository, Flushed, AsyncConfig, normalize_async_config, flush_with_retry,
}
use turnstile_appcheck_gatew.Audit.Recorder.Retry.{IsLogged, flush_with_retry-Outcome}
use turnstile_appcheck_gatew.Audit.Recorder.Async.{
  AsyncItem, AsyncRecorder, Draws, is_critical, Action, submit, send, resume, receive,
  flush_request, tick, shut_down, close, Wait, sent, context_done, timed_out, event_of, rollup_of,
  item_of, skip_stats, item_at, without, enqueue, record_event, resume_with, add, drain_from, flush,
  never, receive_item, shut_down_with, act, run,
}
use turnstile_appcheck_gatew.Audit.Recorder.Async.Accepted.{
  events_in, rollups_in, events_in-append, rollups_in-append, one, accepted,
}

moved {ℓ} : {A : Type ℓ} (s b i q : List A) → s ++ (b ++ i) ++ q ≡ s ++ b ++ (i ++ q) ++ []
moved s b i q = simp (append_assoc, append-nil)

module _ {S : Type 0} (append : List Event → List MetricRollup → S → S × Bool)
    (laws : IsLogged append) (repo : Repository S) (atomic : repo.atomic ≡ some append)
    (policy : Option PolicyConfig) (config : AsyncConfig) where
  abbrev cfg : AsyncConfig
  cfg = normalize_async_config config

  -- all that has been accepted, in order: stored, in the writer's batch, and in the channel
  abbrev pub events_of : AsyncRecorder S → List Event
  events_of r = laws.stored r.store ++ r.events ++ events_in r.items

  abbrev pub rollups_of : AsyncRecorder S → List MetricRollup
  rollups_of r = laws.counted r.store ++ r.rollups ++ rollups_in r.items

  abbrev Gains : List AsyncItem → AsyncRecorder S → AsyncRecorder S → Type 0
  Gains is r r' =
      (events_of r' ≡ events_of r ++ events_in is) × (rollups_of r' ≡ rollups_of r ++ rollups_in is)

  Gains-none : (r : AsyncRecorder S) → Gains [] r r
  Gains-none r = (sym (append-nil _), sym (append-nil _))

  Gains-trans :
      (is js : List AsyncItem) (r r' r'' : AsyncRecorder S)
      → Gains is r r'
      → Gains js r' r''
      → Gains (is ++ js) r r''
  Gains-trans is js r r' r'' (a, b) (c, d) = (
    c ∙ rw a (rw (events_in-append is js) (append_assoc (events_of r) _ _)),
    d ∙ rw b (rw (rollups_in-append is js) (append_assoc (rollups_of r) _ _)),
  )

  sent-Gains :
      (i : AsyncItem) (r : AsyncRecorder S)
      → Gains (i ∷ []) r (record r { items = r.items ++ i ∷ [] })
  sent-Gains i r = (
    rw (events_in-append r.items (i ∷ []))
        (sym (append_assoc (laws.stored r.store ++ r.events) _ _)),
    rw (rollups_in-append r.items (i ∷ []))
        (sym (append_assoc (laws.counted r.store ++ r.rollups) _ _)),
  )

  flush-Gains :
      (cancelled : ℕ → Bool) (r : AsyncRecorder S)
      → Gains [] r (flush repo policy cfg cancelled r).0
  unfolding flush
  flush-Gains cancelled r = elim (Bool-cases (is_empty r.events && is_empty r.rollups)) [
    | inl e ↦ rw e (Gains-none r)
    | inr e ↦ rw e (
        flushed (flush_with_retry repo r.events r.rollups cfg cancelled r.store r.stats) (
          flush_with_retry-Outcome append laws repo atomic r.events r.rollups config cancelled
            r.store r.stats))
  ]
    where
      flushed :
          (f : Flushed S)
          → (laws.stored f.store
              ≡ (if f.ok then laws.stored r.store ++ r.events else laws.stored r.store))
            × (laws.counted f.store
                ≡ (if f.ok then laws.counted r.store ++ r.rollups else laws.counted r.store))
          → Gains [] r
              (if◌then◌else◌ {A = AsyncRecorder S × Bool} f.ok
                (record r { events = []; rollups = []; store = f.store; stats = f.stats }, true)
                (record r { store = f.store; stats = f.stats }, false)).0
      flushed f h = elim (Bool-cases f.ok) [
        | inl e ↦
            rw e (let (a, b) = rw e at h in (rw a (simp (append-nil)), rw b (simp (append-nil))))
        | inr e ↦
            rw e (let (a, b) = rw e at h in (rw a (simp (append-nil)), rw b (simp (append-nil))))
      ]

  drain-Gains :
      (is : List AsyncItem) (r : AsyncRecorder S)
      → Gains [] (record r { items = is }) (drain_from repo policy cfg is r)
  unfolding drain_from add
  drain-Gains [] r = Gains-none (record r { items = [] })
  drain-Gains (i ∷ is) r =
      Gains-trans [] [] (record r { items = i ∷ is })
        (record (add repo policy cfg i r) { items = is }) (drain_from repo policy cfg (i ∷ is) r)
        (
          moved (laws.stored r.store) r.events (event_of i) (events_in is),
          moved (laws.counted r.store) r.rollups (rollup_of i.rollup) (rollups_in is),
        )
        (drain-Gains is (add repo policy cfg i r))

  pub flush_drained-Gains :
      (cancelled : ℕ → Bool) (r : AsyncRecorder S)
      → Gains [] r (flush repo policy cfg cancelled (drain_from repo policy cfg r.items r)).0
  flush_drained-Gains cancelled r =
      let d = drain_from repo policy cfg r.items r in
      Gains-trans [] [] r d (flush repo policy cfg cancelled d).0 (drain-Gains r.items r)
        (flush-Gains cancelled d)

  unless-Gains :
      (b : Bool) (r r' : AsyncRecorder S) → Gains [] r r' → Gains [] r (if b then r' else r)
  unless-Gains true r r' h = h
  unless-Gains false r r' h = Gains-none r

  receive-Gains :
      (i : AsyncItem) (rest : List AsyncItem) (r : AsyncRecorder S)
      → r.items ≡ i ∷ rest
      → Gains [] r (receive_item repo policy cfg i rest r)
  unfolding receive_item add
  receive-Gains i rest r h =
      let taken = add repo policy cfg i (record r { items = rest }) in
      let flushed = (flush repo policy cfg (never repo policy cfg) taken).0 in
      let full = leb (pos_part cfg.batch_size) (length taken.events + length taken.rollups) in
      let took : Gains [] r taken = rw h (
        moved (laws.stored r.store) r.events (event_of i) (events_in rest),
        moved (laws.counted r.store) r.rollups (rollup_of i.rollup) (rollups_in rest),
      ) in
      Gains-trans [] [] r taken (if full then flushed else taken) took
        (unless-Gains full taken flushed (flush-Gains (never repo policy cfg) taken))

  enqueue-Gains :
      (i : AsyncItem) (r : AsyncRecorder S)
      → Gains
          (if ltb (length r.items) (pos_part cfg.channel_size) then i ∷ [] else [])
          r
          (enqueue repo policy cfg i r)
  unfolding enqueue
  enqueue-Gains i r = elim (Bool-cases (ltb (length r.items) (pos_part cfg.channel_size))) [
    | inl e ↦ rw e (sent-Gains i r)
    | inr e ↦ elim (Bool-cases (not (is_critical i.priority) && cfg.drop_on_full)) [
      | inl d ↦ rw e (rw d (Gains-none r))
      | inr d ↦ rw e (rw d (Gains-none r))
    ]
  ]

  if-Gains :
      (b : Bool) (r r' r'' : AsyncRecorder S)
      → Gains [] r r'
      → Gains [] r r''
      → Gains [] r (if b then r' else r'')
  if-Gains true r r' r'' h k = h
  if-Gains false r r' r'' h k = k

  submit-Gains :
      (event : Event) (draws : Draws) (r : AsyncRecorder S)
      → Gains [] r (record_event repo policy cfg event draws r)
  unfolding record_event
  submit-Gains event draws r =
      let e = prepare_event draws.now draws.id event in
      let d = decide policy draws.draw e in
      let counted = record r { stats = skip_stats d r.stats } in
      let pending = record counted { pending = r.pending ++ item_of e d ∷ [] } in
      let skips = not d.persist && not d.count_metric in
      if-Gains r.closed r r (if skips then counted else pending) (Gains-none r)
        (if-Gains skips r counted pending (Gains-none r) (Gains-none r))

  none-Gains : (b : Bool) (r : AsyncRecorder S) → Gains (if b then [] else []) r r
  none-Gains true r = Gains-none r
  none-Gains false r = Gains-none r

  send-Gains :
      (n : ℕ) (r : AsyncRecorder S) (found : Option AsyncItem)
      → Gains
          (if ltb (length r.items) (pos_part cfg.channel_size) then one found else [])
          r
          (elim found [
            | none ↦ r
            | some i ↦ enqueue repo policy cfg i (record r { pending = without n r.pending })
          ])
  send-Gains n r none = none-Gains (ltb (length r.items) (pos_part cfg.channel_size)) r
  send-Gains n r (some i) = enqueue-Gains i (record r { pending = without n r.pending })

  resume-Gains :
      (n : ℕ) (wait : Wait) (r : AsyncRecorder S) (found : Option AsyncItem)
      → item_at n r.blocked ≡ found
      → Gains (accepted cfg (resume n wait) r) r (elim found [
        | none ↦ r
        | some i ↦ resume_with repo policy cfg wait i (without n r.blocked) r
      ])
  unfolding resume_with
  resume-Gains n sent r none h =
      rw h (none-Gains (ltb (length r.items) (pos_part cfg.channel_size)) r)
  resume-Gains n context_done r none h = Gains-none r
  resume-Gains n timed_out r none h = Gains-none r
  resume-Gains n sent r (some i) h =
      elim (Bool-cases (ltb (length r.items) (pos_part cfg.channel_size))) [
        | inl e ↦ rw e (rw h (sent-Gains i r))
        | inr e ↦ rw e (Gains-none r)
      ]
  resume-Gains n context_done r (some i) h = Gains-none r
  resume-Gains n timed_out r (some i) h = Gains-none r

  receive_first-Gains :
      (l : List AsyncItem) (r : AsyncRecorder S)
      → r.items ≡ l
      → Gains [] r (elim l [ [] ↦ r | i ∷ rest ↦ receive_item repo policy cfg i rest r ])
  receive_first-Gains [] r h = Gains-none r
  receive_first-Gains (i ∷ rest) r h = receive-Gains i rest r h

  act-Gains :
      (a : Action) (r : AsyncRecorder S) → Gains (accepted cfg a r) r (act repo policy cfg a r)
  unfolding act shut_down_with
  act-Gains (submit event draws) r = submit-Gains event draws r
  act-Gains (send n) r = send-Gains n r (item_at n r.pending)
  act-Gains (resume n wait) r = resume-Gains n wait r (item_at n r.blocked) refl
  act-Gains receive r =
      unless-Gains r.running r
        (elim r.items [ [] ↦ r | i ∷ rest ↦ receive_item repo policy cfg i rest r ])
        (receive_first-Gains r.items r refl)
  act-Gains flush_request r =
      unless-Gains r.running r
        (flush repo policy cfg (never repo policy cfg) (drain_from repo policy cfg r.items r)).0
        (flush_drained-Gains (never repo policy cfg) r)
  act-Gains tick r =
      unless-Gains r.running r (flush repo policy cfg (never repo policy cfg) r).0
        (flush-Gains (never repo policy cfg) r)
  act-Gains (shut_down cancelled) r =
      unless-Gains (r.running && r.closed) r (shut_down_with repo policy cfg cancelled r)
        (flush_drained-Gains cancelled r)
  act-Gains close r = Gains-none r

  -- the items accepted by a sequence of actions
  abbrev pub all_accepted : List Action → AsyncRecorder S → List AsyncItem
  all_accepted [] r = []
  all_accepted (a ∷ more) r = accepted cfg a r ++ all_accepted more (act repo policy cfg a r)

  -- along a sequence of actions
  pub run-Gains :
      (actions : List Action) (r : AsyncRecorder S)
      → Gains (all_accepted actions r) r (run repo policy cfg actions r)
  unfolding run
  run-Gains [] r = Gains-none r
  run-Gains (a ∷ more) r =
      let r' = act repo policy cfg a r in
      Gains-trans (accepted cfg a r) (all_accepted more r') r r' (run repo policy cfg more r')
        (act-Gains a r) (run-Gains more r')

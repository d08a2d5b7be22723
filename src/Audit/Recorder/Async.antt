-- ===== src/Audit/Recorder/Async.antt =====
-- internal/audit/recorder.go: the asynchronous recorder, as a state and the actions that change it.
-- A producer's test of `closed`, its first `select` and its second are actions of their own, which any
-- of the producers may take, in any order. The writer's receive, a drain and a flush are one action
-- each: the writer alone takes from the channel and flushes, so an item that is sent meanwhile might as
-- well come after.
pub mod Accepted
pub mod Order
pub mod Stopped
pub mod Log
pub mod Erased
pub mod Acknowledged
pub mod Keeps
pub mod Stored
use turnstile_appcheck_gatew.Prelude.{
  ℕ, zero, suc, ◌+◌, String, Bool, true, false, not, ◌&&◌, ◌||◌, List, [], ◌∷◌, ◌++◌, Option, none,
  some, ◌==◌, if◌then◌else◌, ltb, leb, length, is_empty,
}
use turnstile_appcheck_gatew.Prelude.Int.{pos_part}
use turnstile_appcheck_gatew.Float.{Float64}
use turnstile_appcheck_gatew.Audit.Event.{
  Event, MetricRollup, Time, prepare_event, new_metric_rollup, empty_event,
}
use turnstile_appcheck_gatew.Audit.Policy.{
  PolicyConfig, EventPriority, critical, normal, best_effort, EventDecision, decide,
}
use turnstile_appcheck_gatew.Audit.Recorder.{
  Repository, RecorderStats, AsyncConfig, flush_with_retry, bump_if, no_stats,
}

pub record AsyncItem : Type 0 where
  pub event : Event
  pub rollup : Option MetricRollup
  pub priority : EventPriority
  pub action : String

-- The recorder and its writer goroutine: `items` is the channel's buffer, the oldest first; `pending` are
-- the items of producers that have found the recorder open and come to the first `select` of enqueue,
-- and `blocked` those of producers in the second; `events` and `rollups` are the writer's batch;
-- `running` is false once `run` has returned, and `result` is what it then sent to doneCh.
pub record AsyncRecorder (S : Type 0) : Type 0 where
  pub items : List AsyncItem
  pub pending : List AsyncItem
  pub blocked : List AsyncItem
  pub events : List Event
  pub rollups : List MetricRollup
  pub closed : Bool
  pub running : Bool
  pub result : Option Bool
  pub stats : RecorderStats
  pub store : S

-- what the program reads of its surroundings for one event: the time, the random id and draw
pub record Draws : Type 0 where
  pub now : Time
  pub id : String
  pub draw : Float64

-- the item that Record makes of a prepared event and the decision on it
unfoldable pub item_of : Event → EventDecision → AsyncItem
item_of e d = record {
  event = if d.persist then e else empty_event;
  rollup = if d.count_metric then some (new_metric_rollup e) else none;
  priority = d.priority;
  action = e.action;
}

-- the counters of Record before it enqueues
unfoldable pub skip_stats : EventDecision → RecorderStats → RecorderStats
skip_stats d stats = record stats {
  policy_skipped_total = bump_if (not d.persist) stats.policy_skipped_total;
  sampled_out_total = bump_if d.sampled_out stats.sampled_out_total;
}

abbrev pub is_critical : EventPriority → Bool
is_critical critical = true
is_critical normal = false
is_critical best_effort = false

-- `if item.event.ID != "" { events = append(events, item.event) }`
abbrev pub event_of : AsyncItem → List Event
event_of i = if i.event.id == "" then [] else i.event ∷ []

abbrev pub rollup_of : Option MetricRollup → List MetricRollup
rollup_of none = []
rollup_of (some r) = r ∷ []

-- How a blocked producer's second `select` ends: the item is sent, the context is done, or the timer
-- fires.
pub data Wait : Type 0 where
  sent context_done timed_out : Wait

pub data Action : Type 0 where
  -- Record, up to enqueue
  submit : Event → Draws → Action
  -- the first `select` of enqueue and what follows it, of the pending producer at this place
  send : ℕ → Action
  -- the second `select`, of the blocked producer at this place
  resume : ℕ → Wait → Action
  -- the cases of the writer's `select`
  receive : Action
  flush_request : Action
  tick : Action
  shut_down : (ℕ → Bool) → Action
  -- Close, up to the send to closeCh
  close : Action

-- the item at a place, if there is one
unfoldable pub item_at : ℕ → List AsyncItem → Option AsyncItem
item_at n [] = none
item_at zero (i ∷ is) = some i
item_at (suc n) (i ∷ is) = item_at n is

-- the items without the one at a place
without : ℕ → List AsyncItem → List AsyncItem
without n [] = []
without zero (i ∷ is) = is
without (suc n) (i ∷ is) = i ∷ without n is

module _ {S : Type 0} (repo : Repository S) (policy : Option PolicyConfig) (cfg : AsyncConfig) where
  abbrev capacity : ℕ
  capacity = pos_part cfg.channel_size

  -- the first `select` of enqueue, and what follows it when the channel is full
  enqueue : AsyncItem → AsyncRecorder S → AsyncRecorder S
  enqueue i r =
      let stats = r.stats in
      if ltb (length r.items) capacity
      then record r {
        items = r.items ++ i ∷ [];
        stats = record stats { enqueue_total = stats.enqueue_total + 1 };
      }
      else if not (is_critical i.priority) && cfg.drop_on_full
      then record r {
        stats = record stats {
          channel_full_total = stats.channel_full_total + 1;
          dropped_total = stats.dropped_total + 1;
          enqueue_total = stats.enqueue_total + 1;
        };
      }
      else record r {
        blocked = r.blocked ++ i ∷ [];
        stats = record stats { channel_full_total = stats.channel_full_total + 1 };
      }

  -- Record up to enqueue, of a recorder and a repository that are not nil
  record_event : Event → Draws → AsyncRecorder S → AsyncRecorder S
  unfolding item_of skip_stats
  record_event event draws r =
      let e = prepare_event draws.now draws.id event in
      let d = decide policy draws.draw e in
      let counted = record r { stats = skip_stats d r.stats } in
      if r.closed
      then r
      else if not d.persist && not d.count_metric
      then counted
      else record counted { pending = r.pending ++ item_of e d ∷ [] }

  -- how the producer of the item `i` goes on, when `rest` are those that stay blocked; a send is
  -- possible only while the channel has room
  resume_with : Wait → AsyncItem → List AsyncItem → AsyncRecorder S → AsyncRecorder S
  resume_with sent i rest r =
      let stats = r.stats in
      if ltb (length r.items) capacity
      then record r {
        items = r.items ++ i ∷ [];
        blocked = rest;
        stats = record stats { enqueue_total = stats.enqueue_total + 1 };
      }
      else r
  resume_with context_done i rest r =
      let stats = r.stats in
      record r {
        blocked = rest;
        stats = record stats {
          dropped_total = stats.dropped_total + 1;
          enqueue_error_total = stats.enqueue_error_total + 1;
        };
      }
  resume_with timed_out i rest r =
      let stats = r.stats in
      record r {
        blocked = rest;
        stats = record stats {
          dropped_total = stats.dropped_total + 1;
          enqueue_total = stats.enqueue_total + 1;
        };
      }

  -- `add` of run
  add : AsyncItem → AsyncRecorder S → AsyncRecorder S
  add i r = record r { events = r.events ++ event_of i; rollups = r.rollups ++ rollup_of i.rollup }

  -- `drain` of run
  pub drain_from : List AsyncItem → AsyncRecorder S → AsyncRecorder S
  unfolding add
  drain_from [] r = record r { items = [] }
  drain_from (i ∷ is) r = drain_from is (add i r)

  -- `flush` of run, with whether it returned nil
  pub flush : (ℕ → Bool) → AsyncRecorder S → AsyncRecorder S × Bool
  flush cancelled r =
      let f = flush_with_retry repo r.events r.rollups cfg cancelled r.store r.stats in
      if is_empty r.events && is_empty r.rollups
      then (r, true)
      else if f.ok
      then (record r { events = []; rollups = []; store = f.store; stats = f.stats }, true)
      else (record r { store = f.store; stats = f.stats }, false)

  -- context.Background(), which is never done
  abbrev never : ℕ → Bool
  never n = false

  receive_item : AsyncItem → List AsyncItem → AsyncRecorder S → AsyncRecorder S
  unfolding add flush
  receive_item i rest r =
      let taken = add i (record r { items = rest }) in
      if leb (pos_part cfg.batch_size) (length taken.events + length taken.rollups)
      then (flush never taken).0
      else taken

  shut_down_with : (ℕ → Bool) → AsyncRecorder S → AsyncRecorder S
  unfolding drain_from flush
  shut_down_with cancelled r =
      let (r', ok) = flush cancelled (drain_from r.items r) in
      record r' { running = false; result = some ok }

  -- one action; it leaves the state alone where it cannot happen
  unfoldable pub act : Action → AsyncRecorder S → AsyncRecorder S
  unfolding record_event enqueue resume_with without receive_item drain_from flush shut_down_with
  act (submit event draws) r = record_event event draws r
  act (send n) r = elim (item_at n r.pending) [
    | none ↦ r
    | some i ↦ enqueue i (record r { pending = without n r.pending })
  ]
  act (resume n wait) r = elim (item_at n r.blocked) [
    | none ↦ r
    | some i ↦ resume_with wait i (without n r.blocked) r
  ]
  act receive r =
      if r.running then elim r.items [ [] ↦ r | i ∷ rest ↦ receive_item i rest r ] else r
  act flush_request r = if r.running then (flush never (drain_from r.items r)).0 else r
  act tick r = if r.running then (flush never r).0 else r
  act (shut_down cancelled) r = if r.running && r.closed then shut_down_with cancelled r else r
  act close r = record r { closed = true }

  unfoldable pub run : List Action → AsyncRecorder S → AsyncRecorder S
  run [] r = r
  run (a ∷ more) r = run more (act a r)

  -- the recorder that NewAsyncRecorder makes, on a store
  abbrev pub start : S → AsyncRecorder S
  start s = record {
    items = [];
    pending = [];
    blocked = [];
    events = [];
    rollups = [];
    closed = false;
    running = true;
    result = none;
    stats = no_stats;
    store = s;
  }

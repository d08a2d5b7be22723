-- ===== src/Tests/Recorder.antt =====
-- The recorders of internal/audit/recorder.go over the tables, with a transaction that is rolled back and
-- one whose commit is not acknowledged.
use turnstile_appcheck_gatew.Prelude.{
  ℕ, zero, suc, ◌≤◌, ◌<◌, ◌+◌, String, Bool, true, false, List, [], ◌∷◌, ◌++◌, Option, none, some,
  length, All, ◌≡◌, refl, arith,
}
use turnstile_appcheck_gatew.Prelude.Int.{pos_part}
use turnstile_appcheck_gatew.Float.{zero_rate}
use turnstile_appcheck_gatew.Audit.Event.{Event, Time, empty_event, new_metric_rollup}
use turnstile_appcheck_gatew.Audit.Policy.{PolicyConfig, best_effort}
use turnstile_appcheck_gatew.Store.Rollups.Sums.{sum_counts}
use turnstile_appcheck_gatew.Store.Tables.{
  Tx, commits, rolled_back, unacknowledged, sqlite, refuses,
}
use turnstile_appcheck_gatew.Store.Tables.Replay.{Holds}
use turnstile_appcheck_gatew.Audit.Recorder.{
  Repository, AsyncConfig, default_async_config, normalize_async_config, flush_with_retry, no_stats,
}
use turnstile_appcheck_gatew.Audit.Recorder.Retry.{AtMost, flush_with_retry_waits}
use turnstile_appcheck_gatew.Audit.Recorder.Stored.{Db, Surroundings, audit_append, repository}
use turnstile_appcheck_gatew.Audit.Recorder.Stored.Attempts.{Effect}
use turnstile_appcheck_gatew.Audit.Recorder.Stored.Flush.{
  flush_with_retry-Effect, flush_with_retry_recovers,
}
use turnstile_appcheck_gatew.Audit.Recorder.Async.{
  AsyncRecorder, Draws, Action, submit, send, receive, tick, close, shut_down, act, run, start,
}
use turnstile_appcheck_gatew.Audit.Recorder.Async.Accepted.{events_in, rollups_in}
use turnstile_appcheck_gatew.Audit.Recorder.Async.Log.{Logged, logged}
use turnstile_appcheck_gatew.Audit.Recorder.Async.Erased.{erase}
use turnstile_appcheck_gatew.Audit.Recorder.Async.Acknowledged.{
  held_events, held_rollups, accepted_by, run-FirstInFirstOut, shut_down_complete,
}

abbrev no_print : Time → String
no_print t = "t"

abbrev outcomes : ℕ → Tx
outcomes zero = rolled_back
outcomes (suc zero) = unacknowledged
outcomes (suc (suc n)) = commits

abbrev world : Surroundings
world = record { outcome = outcomes; reading = λ n k. (9, "0f") }

abbrev repo : Repository Db
repo = repository sqlite no_print world

abbrev created : Db
created = record { tables = record { events = []; rollups = []; next_seq = 1 }; begun = 0 }

abbrev seen : Event
seen = record empty_event { id = "audit_1"; action = "verify.request"; status_code = 204 }

abbrev never : ℕ → Bool
never n = false

abbrev no_policy : Option PolicyConfig
no_policy = none

abbrev settings : AsyncConfig
settings = normalize_async_config default_async_config

flush_with_retry-Effect_example :
    let f = flush_with_retry repo (seen ∷ []) [] settings never created no_stats in
    (n : ℕ) × (n ≤ pos_part settings.retry_max_attempts)
    × Effect sqlite no_print world (seen ∷ []) [] n created f.store f.ok
flush_with_retry-Effect_example =
    flush_with_retry-Effect sqlite no_print world (seen ∷ []) [] (refl, tt) refl
      default_async_config never created no_stats

flush_with_retry_recovers_example :
    let f = flush_with_retry repo (seen ∷ []) [] settings never created no_stats in
    (f.ok ≡ true)
    × All (Holds f.store.tables.events) ("audit_1" ∷ [])
    × (sum_counts created.tables.rollups + 0 ≤ sum_counts f.store.tables.rollups)
unfolding normalize_async_config refuses
flush_with_retry_recovers_example =
    flush_with_retry_recovers sqlite no_print world (seen ∷ []) [] (refl, tt) refl
      default_async_config never 2 created no_stats (omega arith) refl refl (λ m h. refl)

flush_with_retry_waits_example :
    let cfg = normalize_async_config default_async_config in
    let f = flush_with_retry repo (seen ∷ []) [] cfg never created no_stats in
    All (AtMost cfg.retry_max_backoff) f.waits × (length f.waits < pos_part cfg.retry_max_attempts)
unfolding normalize_async_config
flush_with_retry_waits_example =
    flush_with_retry_waits repo (seen ∷ []) [] default_async_config never created no_stats refl

abbrev draws : Draws
draws = record { now = 5; id = "0f"; draw = zero_rate }

-- two producers of which the second sends first; then the recorder closes
abbrev schedule : List Action
schedule =
    submit seen draws
    ∷ submit seen draws
    ∷ send 1
    ∷ receive
    ∷ send 0
    ∷ tick
    ∷ close
    ∷ shut_down never
    ∷ []

abbrev log : Repository (Logged Db)
log = logged repo

abbrev empty_log : Logged Db
empty_log = record { store = created; events = []; rollups = [] }

abbrev begin : AsyncRecorder (Logged Db)
begin = start log no_policy settings empty_log

run-FirstInFirstOut_example :
    let accepted =
      accepted_by repo
        (audit_append sqlite no_print world)
        refl
        no_policy
        default_async_config
        schedule
        begin in
    let r' = run log no_policy settings schedule begin in
    (held_events r' ≡ held_events begin ++ events_in accepted)
    × (held_rollups r' ≡ held_rollups begin ++ rollups_in accepted)
    × (erase r' ≡ run repo no_policy settings schedule (erase begin))
run-FirstInFirstOut_example =
    run-FirstInFirstOut repo (audit_append sqlite no_print world) refl no_policy
      default_async_config schedule begin

-- a recorder that is to shut down, with an event in its channel
abbrev closing : AsyncRecorder (Logged Db)
closing = record begin {
  items =
      record {
        event = seen;
        rollup = some (new_metric_rollup seen);
        priority = best_effort;
        action = seen.action;
      }
      ∷ [];
  closed = true;
}

shut_down_complete_example :
    let r' = act log no_policy settings (shut_down never) closing in
    (r'.running ≡ false)
    × (r'.result ≡ some true
        → (r'.store.events ≡ held_events closing) × (r'.store.rollups ≡ held_rollups closing))
shut_down_complete_example =
    shut_down_complete repo (audit_append sqlite no_print world) refl no_policy default_async_config
      never closing refl refl

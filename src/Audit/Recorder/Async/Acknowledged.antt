-- ===== src/Audit/Recorder/Async/Acknowledged.antt =====
-- internal/audit/recorder.go: what becomes of the items that the asynchronous recorder accepts, with an
-- atomic repository, of which a log is kept of the batches that it has acknowledged by returning nil.
use turnstile_appcheck_gatew.Prelude.{ℕ, Bool, true, false, List, ◌++◌, Option, some, ◌≡◌}
use turnstile_appcheck_gatew.Audit.Event.{Event, MetricRollup}
use turnstile_appcheck_gatew.Audit.Policy.{PolicyConfig}
use turnstile_appcheck_gatew.Audit.Recorder.{Repository, AsyncConfig, normalize_async_config}
use turnstile_appcheck_gatew.Audit.Recorder.Async.Log.{
  Logged, log_append, logged, log-IsLogged, logged-atomic,
}
use turnstile_appcheck_gatew.Audit.Recorder.Async.Erased.{erase, run-erase}
use turnstile_appcheck_gatew.Audit.Recorder.Async.{
  AsyncItem, AsyncRecorder, Action, shut_down, act, run,
}
use turnstile_appcheck_gatew.Audit.Recorder.Async.Accepted.{events_in, rollups_in}
use turnstile_appcheck_gatew.Audit.Recorder.Async.Order.{all_accepted, run-Gains}
use turnstile_appcheck_gatew.Audit.Recorder.Async.Stopped.{shut_down-Stores}

-- all that the channel has accepted: acknowledged, in the writer's batch, and in the channel
abbrev pub held_events : {S : Type 0} → AsyncRecorder (Logged S) → List Event
held_events r = r.store.events ++ r.events ++ events_in r.items

abbrev pub held_rollups : {S : Type 0} → AsyncRecorder (Logged S) → List MetricRollup
held_rollups r = r.store.rollups ++ r.rollups ++ rollups_in r.items

module _ {S : Type 0} (repo : Repository S) (append : List Event → List MetricRollup → S → S × Bool)
    (atomic : repo.atomic ≡ some append) (policy : Option PolicyConfig) (config : AsyncConfig) where
  abbrev pub accepted_by : List Action → AsyncRecorder (Logged S) → List AsyncItem
  accepted_by actions r =
      all_accepted (log_append append) (log-IsLogged append) (logged repo)
        (logged-atomic repo append atomic) policy config actions r

  -- Whatever an atomic repository does, and whatever the order in which any of the producers find the
  -- recorder open, send, wait and give up, and the writer receives, flushes, fails, retries and shuts
  -- down: what the repository has acknowledged, then the batch, then the channel is what it was at first
  -- and then all that the channel has accepted since, each once and in order, events and rollups alike.
  -- The log that tells what was acknowledged only watches: without it the recorder and the store come to
  -- the same. The configuration is normalised.
  pub run-FirstInFirstOut :
      (actions : List Action) (r : AsyncRecorder (Logged S))
      → let r' = run (logged repo) policy (normalize_async_config config) actions r in
        (held_events r' ≡ held_events r ++ events_in (accepted_by actions r))
        × (held_rollups r' ≡ held_rollups r ++ rollups_in (accepted_by actions r))
        × (erase r' ≡ run repo policy (normalize_async_config config) actions (erase r))
  unfolding log-IsLogged
  run-FirstInFirstOut actions r =
      let (events, rollups) =
        run-Gains (log_append append) (log-IsLogged append) (logged repo)
          (logged-atomic repo append atomic) policy config actions r in
      (
        events,
        rollups,
        run-erase repo append atomic policy (normalize_async_config config) actions r,
      )

  -- A recorder that shuts down ends its writer, and if the last flush returned nil, an atomic repository
  -- has then acknowledged all that was acknowledged, batched or in the channel before, in this order.
  -- The configuration is normalised.
  pub shut_down_complete :
      (cancelled : ℕ → Bool) (r : AsyncRecorder (Logged S))
      → r.running ≡ true
      → r.closed ≡ true
      → let r' = act (logged repo) policy (normalize_async_config config) (shut_down cancelled) r in
        (r'.running ≡ false)
        × (r'.result ≡ some true
            → (r'.store.events ≡ held_events r) × (r'.store.rollups ≡ held_rollups r))
  unfolding log-IsLogged
  shut_down_complete cancelled r h k =
      shut_down-Stores (log_append append) (log-IsLogged append) (logged repo)
        (logged-atomic repo append atomic) policy config cancelled r h k

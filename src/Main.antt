-- ===== src/Main.antt =====
-- cmd/turnstile-appcheck-gateway/main.go: what the configuration that was loaded is made into, and the
-- order in which the process ends.
pub mod Wiring
use turnstile_appcheck_gatew.Prelude.{
  ◌*◌, ◌/◌, ◌&&◌, ℕ, String, Bool, true, false, Option, none, some, List, [], ◌∷◌, ◌++◌,
  if◌then◌else◌, ℤ, pos, ltb_ℤ, map,
}
use turnstile_appcheck_gatew.Prelude.Int.{pos_part}
use turnstile_appcheck_gatew.Prelude.Results.{Result, ok, err, ◌>>=◌, ◌>>◌, refuse_if}
use turnstile_appcheck_gatew.Audit.Event.{Event, empty_event, result_success}
use turnstile_appcheck_gatew.Audit.Policy.{PolicyConfig, normalize_policy_config}
use turnstile_appcheck_gatew.Audit.Recorder.{AsyncConfig, normalize_async_config}
use turnstile_appcheck_gatew.Handlers.Verify.{VerifyHandler}
use turnstile_appcheck_gatew.Config.{Config, AuditConfig}

-- bunrepo.Config
pub record PoolConfig : Type 0 where
  pub storage_type : String
  pub dsn : String
  pub sqlite_path : String
  pub max_open_conns : ℤ
  pub max_idle_conns : ℤ
  pub conn_max_lifetime : ℤ
  pub conn_max_idle_time : ℤ

unfoldable pub pool_config : AuditConfig → PoolConfig
pool_config a = record {
  storage_type = a.storage_type;
  dsn = a.dsn;
  sqlite_path = a.sqlite_path;
  max_open_conns = a.db_max_open_conns;
  max_idle_conns = a.db_max_idle_conns;
  conn_max_lifetime = a.db_conn_max_lifetime;
  conn_max_idle_time = a.db_conn_max_idle_time;
}

unfoldable pub policy_config : AuditConfig → PolicyConfig
policy_config a = record {
  public_mode = a.public_mode;
  verify_success = a.verify_success_sample;
  verify_failure = a.verify_failure_sample;
  exchange_success = a.exchange_success_sample;
  exchange_failure = a.exchange_failure_sample;
}

unfoldable pub async_config : AuditConfig → AsyncConfig
async_config a = record {
  channel_size = a.channel_size;
  batch_size = a.batch_size;
  flush_interval = a.flush_interval;
  shutdown_flush_timeout = a.shutdown_flush_timeout;
  drop_on_full = a.drop_on_full;
  enqueue_timeout = a.enqueue_timeout;
  critical_enqueue_timeout = a.critical_enqueue_timeout;
  retry_max_attempts = a.retry_max_attempts;
  retry_initial_backoff = a.retry_initial_backoff;
  retry_max_backoff = a.retry_max_backoff;
}

-- the recorder that `run` makes, with the configurations that it works by
pub data RecorderKind : Type 0 where
  no_recorder : RecorderKind
  sync_recorder : PolicyConfig → RecorderKind
  async_recorder : PolicyConfig → AsyncConfig → RecorderKind

unfoldable pub recorder_kind : AuditConfig → RecorderKind
recorder_kind a =
    let policy = normalize_policy_config (policy_config a) in
    if a.enabled
    then (if a.async_enabled
        then async_recorder policy (normalize_async_config (async_config a))
        else sync_recorder policy)
    else no_recorder

-- the days kept and the interval of runAuditPruner, if it is started
unfoldable pub pruner : AuditConfig → Option (ℤ × ℤ)
pruner a =
    if a.enabled && ltb_ℤ (pos 0) a.prune_interval
    then some (a.retention_days, a.prune_interval)
    else none

-- the event of the start
unfoldable pub startup_event : Event
startup_event = record empty_event {
  actor = "system";
  actor_source = "system";
  action = "system.startup";
  result = result_success;
  message = "Application startup";
}

-- The fields that the handler reads; the statuses are positive.
unfoldable pub verify_handler : Config → VerifyHandler
verify_handler cfg = record {
  header_name = cfg.verify_header_name;
  success_status = pos_part cfg.verify_success_status;
  failure_status = pos_part cfg.verify_failure_status;
}

-- what runAuditPruner's loop meets: a tick, whose pruning may fail, or the end of its context
pub data PrunerEvent : Type 0 where
  tick : PrunerEvent
  done : PrunerEvent

-- the calls of PruneRetention, by the days kept; a failure is logged only
unfoldable pub run_audit_pruner : ℤ → List PrunerEvent → List ℤ
run_audit_pruner days [] = []
run_audit_pruner days (tick ∷ events) = days ∷ run_audit_pruner days events
run_audit_pruner days (done ∷ events) = []

-- what ends the wait of `run`: a signal, or the listener, with an error that is not ErrServerClosed
-- or without one
pub data Stop : Type 0 where
  signalled : Stop
  listener_failed : Stop
  listener_closed : Stop

-- the calls of the end
pub data EndCall : Type 0 where
  shut_down_http : EndCall
  stop_pruner : EndCall
  close_recorder : EndCall
  close_store : EndCall

-- the errors of the end
pub data EndError : Type 0 where
  http_failed : EndError
  http_shutdown_failed : EndError
  recorder_shutdown_failed : EndError

-- the deferred closing of the store
deferred : AuditConfig → List EndCall
deferred a = if a.enabled then close_store ∷ [] else []

pruner_stop : AuditConfig → List EndCall
unfolding pruner
pruner_stop a = elim (pruner a) [ none ↦ [] | some p ↦ stop_pruner ∷ [] ]

-- The end of `run`, with the results of httpSrv.Shutdown and of the recorder's Close: the calls in
-- order, and the error.
unfoldable pub end_run : AuditConfig → Stop → Bool → Bool → List EndCall × Option EndError
unfolding deferred pruner_stop
end_run a listener_failed shut closed = (deferred a, some http_failed)
end_run a listener_closed shut closed = (deferred a, none)
end_run a signalled false closed = (shut_down_http ∷ deferred a, some http_shutdown_failed)
end_run a signalled true closed = (
  shut_down_http ∷ (pruner_stop a ++ close_recorder ∷ deferred a),
  if closed then none else some recorder_shutdown_failed,
)

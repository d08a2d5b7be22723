-- ===== src/Config/Load/Audit.antt =====
-- internal/config/config.go: the part of loadFromMap that is about the audit trail.
pub mod Valid
use turnstile_appcheck_gatew.Prelude.{
  ◌*◌, ◌||◌, ℕ, String, Bool, true, not, ◌&&◌, ◌==◌, if◌then◌else◌, pos, ltb_ℤ,
}
use turnstile_appcheck_gatew.Prelude.Results.{ok, ◌>>=◌, ◌>>◌, refuse_if}
use turnstile_appcheck_gatew.GoStrings.{trim_space, to_lower, atoi}
use turnstile_appcheck_gatew.Float.{zero_rate, one_rate}
use turnstile_appcheck_gatew.Audit.Policy.{known_mode}
use turnstile_appcheck_gatew.Config.{Parsers, AuditConfig, refused, Loaded}
use turnstile_appcheck_gatew.Config.Values.{
  Env, env_get, get_or_default, setting, bool_value, checked, parse_positive_int,
  parse_non_negative_int, parse_positive_duration, parse_non_negative_duration, parse_sample_rate,
}

abbrev millisecond : ℕ
millisecond = 1000000

unfoldable pub default_audit : Env → AuditConfig
default_audit env = record {
  enabled = true;
  storage_type = to_lower (trim_space (get_or_default env "AUDIT_STORAGE_TYPE" "sqlite"));
  dsn = trim_space (env_get env "AUDIT_DSN");
  sqlite_path =
      trim_space
        (get_or_default env "AUDIT_SQLITE_PATH" "/var/lib/turnstile-appcheck-gateway/audit.db");
  db_max_open_conns = pos 0;
  db_max_idle_conns = pos 0;
  db_conn_max_lifetime = pos 0;
  db_conn_max_idle_time = pos 0;
  async_enabled = true;
  channel_size = pos 50000;
  batch_size = pos 1000;
  flush_interval = pos (100 * millisecond);
  shutdown_flush_timeout = pos (5000 * millisecond);
  drop_on_full = true;
  enqueue_timeout = pos (5 * millisecond);
  critical_enqueue_timeout = pos (50 * millisecond);
  retry_max_attempts = pos 3;
  retry_initial_backoff = pos (100 * millisecond);
  retry_max_backoff = pos (2000 * millisecond);
  public_mode = "failure_step";
  verify_success_sample = zero_rate;
  verify_failure_sample = one_rate;
  exchange_success_sample = one_rate;
  exchange_failure_sample = one_rate;
  retention_days = pos 90;
  prune_interval = pos (24 * 3600 * 1000 * millisecond);
}

-- `if raw := strings.TrimSpace(env[key]); raw != "" { x = f(raw) }`
text_setting : Env → String → (String → String) → String → String
text_setting env key f current =
    let raw = trim_space (env_get env key) in if raw == "" then current else f raw

unfoldable pub known_storage : String → Bool
known_storage t =
    (t == "sqlite")
    || ((t == "postgres") || ((t == "postgresql") || ((t == "mariadb") || (t == "mysql"))))

-- the switch and the database's connection
load_storage : Env → AuditConfig → Loaded AuditConfig
unfolding text_setting known_storage
load_storage env a = do
  enabled ← setting env "AUDIT_ENABLED" bool_value a.enabled
  let type = text_setting env "AUDIT_STORAGE_TYPE" to_lower a.storage_type
  refuse_if (not (type == "") && not (known_storage type))
      (refused "AUDIT_STORAGE_TYPE must be sqlite, postgres, postgresql, mariadb, or mysql")
  ok (record a {
    enabled = enabled;
    storage_type = if type == "" then "sqlite" else type;
    dsn = trim_space (env_get env "AUDIT_DSN");
    sqlite_path = text_setting env "AUDIT_SQLITE_PATH" (λ raw. raw) a.sqlite_path;
  })

load_pool : Parsers → Env → AuditConfig → Loaded AuditConfig
load_pool go env a = do
  open_conns ← setting env "AUDIT_DB_MAX_OPEN_CONNS" parse_non_negative_int a.db_max_open_conns
  idle_conns ← setting env "AUDIT_DB_MAX_IDLE_CONNS" parse_non_negative_int a.db_max_idle_conns
  lifetime ←
      setting env "AUDIT_DB_CONN_MAX_LIFETIME" (parse_non_negative_duration go)
        a.db_conn_max_lifetime
  idle_time ←
      setting env "AUDIT_DB_CONN_MAX_IDLE_TIME" (parse_non_negative_duration go)
        a.db_conn_max_idle_time
  ok (record a {
    db_max_open_conns = open_conns;
    db_max_idle_conns = idle_conns;
    db_conn_max_lifetime = lifetime;
    db_conn_max_idle_time = idle_time;
  })

-- the queue of the asynchronous recorder
load_queue : Parsers → Env → AuditConfig → Loaded AuditConfig
load_queue go env a = do
  async_enabled ← setting env "AUDIT_ASYNC_ENABLED" bool_value a.async_enabled
  channel_size ← setting env "AUDIT_CHANNEL_SIZE" parse_positive_int a.channel_size
  batch_size ← setting env "AUDIT_BATCH_SIZE" parse_positive_int a.batch_size
  interval ← setting env "AUDIT_FLUSH_INTERVAL" (parse_positive_duration go) a.flush_interval
  shutdown ←
      setting env "AUDIT_SHUTDOWN_FLUSH_TIMEOUT" (parse_positive_duration go)
        a.shutdown_flush_timeout
  drop ← setting env "AUDIT_DROP_ON_FULL" bool_value a.drop_on_full
  ok (record a {
    async_enabled = async_enabled;
    channel_size = channel_size;
    batch_size = batch_size;
    flush_interval = interval;
    shutdown_flush_timeout = shutdown;
    drop_on_full = drop;
  })

-- its waits and retries
load_retries : Parsers → Env → AuditConfig → Loaded AuditConfig
load_retries go env a = do
  timeout ← setting env "AUDIT_ENQUEUE_TIMEOUT" (parse_positive_duration go) a.enqueue_timeout
  critical ←
      setting env "AUDIT_CRITICAL_ENQUEUE_TIMEOUT" (parse_positive_duration go)
        a.critical_enqueue_timeout
  attempts ← setting env "AUDIT_RETRY_MAX_ATTEMPTS" parse_positive_int a.retry_max_attempts
  initial ←
      setting env "AUDIT_RETRY_INITIAL_BACKOFF" (parse_positive_duration go) a.retry_initial_backoff
  longest ← setting env "AUDIT_RETRY_MAX_BACKOFF" (parse_positive_duration go) a.retry_max_backoff
  ok (record a {
    enqueue_timeout = timeout;
    critical_enqueue_timeout = critical;
    retry_max_attempts = attempts;
    retry_initial_backoff = initial;
    retry_max_backoff = longest;
  })

-- the mode of the public events and their sampling
load_sampling : Parsers → Env → AuditConfig → Loaded AuditConfig
unfolding text_setting
load_sampling go env a = do
  let mode = text_setting env "AUDIT_PUBLIC_MODE" to_lower a.public_mode
  refuse_if (not (known_mode mode))
      (refused "AUDIT_PUBLIC_MODE must be summary, step, or failure_step")
  verify_success ←
      setting env "AUDIT_VERIFY_SUCCESS_SAMPLE_RATE" (parse_sample_rate go) a.verify_success_sample
  verify_failure ←
      setting env "AUDIT_VERIFY_FAILURE_SAMPLE_RATE" (parse_sample_rate go) a.verify_failure_sample
  exchange_success ←
      setting env "AUDIT_EXCHANGE_SUCCESS_SAMPLE_RATE" (parse_sample_rate go)
        a.exchange_success_sample
  exchange_failure ←
      setting env "AUDIT_EXCHANGE_FAILURE_SAMPLE_RATE" (parse_sample_rate go)
        a.exchange_failure_sample
  ok (record a {
    public_mode = mode;
    verify_success_sample = verify_success;
    verify_failure_sample = verify_failure;
    exchange_success_sample = exchange_success;
    exchange_failure_sample = exchange_failure;
  })

load_retention : Parsers → Env → AuditConfig → Loaded AuditConfig
load_retention go env a = do
  days ←
      setting env "AUDIT_RETENTION_DAYS"
        (λ name raw. checked (λ v. ltb_ℤ v (pos 0)) (atoi raw) name raw) a.retention_days
  interval ← setting env "AUDIT_PRUNE_INTERVAL" (parse_non_negative_duration go) a.prune_interval
  ok (record a { retention_days = days; prune_interval = interval })

unfoldable pub load_audit : Parsers → Env → AuditConfig → Loaded AuditConfig
unfolding load_storage load_pool load_queue load_retries load_sampling load_retention
load_audit go env a = do
  stored ← load_storage env a
  pooled ← load_pool go env stored
  queued ← load_queue go env pooled
  retried ← load_retries go env queued
  sampled ← load_sampling go env retried
  load_retention go env sampled

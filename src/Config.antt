-- ===== src/Config.antt =====
-- internal/config/config.go: the configuration and the errors of loading it.
pub mod Paths
pub mod Values
pub mod Load
use turnstile_appcheck_gatew.Prelude.{String, Bool, List, ℤ, Option}
use turnstile_appcheck_gatew.Prelude.Results.{Result}
use turnstile_appcheck_gatew.Float.{Float64}
use turnstile_appcheck_gatew.Middleware.RateLimit.{RateLimitConfig}
use turnstile_appcheck_gatew.Admin.Auth.{AdminAuthConfig}
use turnstile_appcheck_gatew.E2e.{E2eConfig}

pub record AdminDashboardConfig : Type 0 where
  pub enabled : Bool
  pub base_path : String
  pub timestamp_format : String
  pub timestamp_timezone : String

-- durations are in nanoseconds
pub record AuditConfig : Type 0 where
  pub enabled : Bool
  pub storage_type : String
  pub dsn : String
  pub sqlite_path : String
  pub db_max_open_conns : ℤ
  pub db_max_idle_conns : ℤ
  pub db_conn_max_lifetime : ℤ
  pub db_conn_max_idle_time : ℤ
  pub async_enabled : Bool
  pub channel_size : ℤ
  pub batch_size : ℤ
  pub flush_interval : ℤ
  pub shutdown_flush_timeout : ℤ
  pub drop_on_full : Bool
  pub enqueue_timeout : ℤ
  pub critical_enqueue_timeout : ℤ
  pub retry_max_attempts : ℤ
  pub retry_initial_backoff : ℤ
  pub retry_max_backoff : ℤ
  pub public_mode : String
  pub verify_success_sample : Float64
  pub verify_failure_sample : Float64
  pub exchange_success_sample : Float64
  pub exchange_failure_sample : Float64
  pub retention_days : ℤ
  pub prune_interval : ℤ

-- `upstream_mode` is the first field of E2EConfig; Admin is `dashboard` and `auth`.
pub record Config : Type 0 where
  pub app_check_subpath : String
  pub http_addr : String
  pub turnstile_secret_key : String
  pub turnstile_site_verify_url : String
  pub firebase_project_id : String
  pub firebase_app_id : String
  pub firebase_app_resource : String
  pub service_account_json : String
  pub log_level : String
  pub request_timeout : ℤ
  pub app_check_token_ttl : ℤ
  pub allowed_exchange_origins : List String
  pub trust_proxy_headers : Bool
  pub verify_header_name : String
  pub verify_success_status : ℤ
  pub verify_failure_status : ℤ
  pub health_path : String
  pub ready_path : String
  pub upstream_mode : String
  pub e2e : E2eConfig
  pub dashboard : AdminDashboardConfig
  pub auth : AdminAuthConfig
  pub audit : AuditConfig
  pub rate_limit : RateLimitConfig

-- the parts of a `url.URL` that the program reads
pub record Url : Type 0 where
  pub scheme : String
  pub host : String
  pub path : String
  pub raw_query : String
  pub fragment : String
  pub has_user : Bool

-- time.ParseDuration, strconv.ParseFloat, url.Parse and base64.StdEncoding.DecodeString of Go. An
-- error of url.Parse is its text.
pub record Parsers : Type 0 where
  pub parse_duration : String → Option ℤ
  pub parse_float : String → Option Float64
  pub parse_url : String → Result String Url
  pub decode_base64 : String → Option String

-- The errors of loadFromMap: `invalid NAME: "raw"`, a text of its own, an origin with what is wrong
-- with it, or the list of what is missing.
pub data LoadError : Type 0 where
  invalid : String → String → LoadError
  refused : String → LoadError
  invalid_origin : String → String → LoadError
  missing : List String → LoadError

abbrev pub Loaded : Type 0 → Type 0
Loaded A = Result LoadError A

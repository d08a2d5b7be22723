-- ===== src/Config/Load.antt =====
-- internal/config/config.go: loadFromMap, in its steps. An error ends the load, so what a step has set
-- before is lost with it.
pub mod Steps
pub mod Valid
pub mod Defaults
pub mod Upstream
pub mod Audit
use Prim.Native.String.{◌++◌}
use turnstile_appcheck_gatew.Prelude.{
  ◌*◌, ◌||◌, ℕ, String, Bool, true, false, not, ◌&&◌, List, [], ◌∷◌, ◌++◌ as append, is_empty, ◌==◌,
  if◌then◌else◌, ℤ, pos, leb_ℤ, ltb_ℤ,
}
use turnstile_appcheck_gatew.Prelude.Results.{Result, ok, err, ◌>>=◌, ◌>>◌, refuse_if}
use turnstile_appcheck_gatew.GoStrings.{trim_space, to_lower, atoi}
use turnstile_appcheck_gatew.Audit.Event.{minute}
use turnstile_appcheck_gatew.Admin.Auth.{AdminAuthConfig}
use turnstile_appcheck_gatew.Config.{
  Parsers, Config, AuditConfig, LoadError, invalid, refused, missing, Loaded,
}
use turnstile_appcheck_gatew.Config.Paths.{normalize_subpath, normalize_health_path}
use turnstile_appcheck_gatew.Config.Values.{
  Env, env_get, get_or_default, setting, bool_value, checked, parse_csv, is_valid_app_resource,
  app_id_from_resource, read_service_account_json, parse_allowed_origins,
}
use turnstile_appcheck_gatew.Config.Load.Audit.{default_audit, load_audit}
use turnstile_appcheck_gatew.Config.Load.Defaults.{default_config}
use turnstile_appcheck_gatew.Config.Load.Upstream.{check_mocks, load_upstream, check_upstream}

-- a duration that parses, without a check of its sign
duration_value : Parsers → String → String → Loaded ℤ
duration_value go = λ name raw. checked (λ v. false) (go.parse_duration raw) name raw

positive_duration_value : Parsers → String → String → Loaded ℤ
positive_duration_value go =
    λ name raw. checked (λ v. leb_ℤ v (pos 0)) (go.parse_duration raw) name raw

-- RequestTimeout, AppCheckTokenTTL and TrustProxyHeaders
pub load_times : Parsers → Env → Config → Loaded Config
unfolding duration_value positive_duration_value
load_times go env cfg = do
  timeout ← setting env "REQUEST_TIMEOUT" (positive_duration_value go) cfg.request_timeout
  ttl ← setting env "APPCHECK_TOKEN_TTL" (duration_value go) cfg.app_check_token_ttl
  refuse_if (ltb_ℤ ttl (pos (30 * minute)) || ltb_ℤ (pos (7 * 24 * 60 * minute)) ttl)
      (refused "APPCHECK_TOKEN_TTL must be between 30m0s and 168h0m0s")
  trust ← setting env "TRUST_PROXY_HEADERS" bool_value cfg.trust_proxy_headers
  ok (record cfg {
    request_timeout = timeout;
    app_check_token_ttl = ttl;
    trust_proxy_headers = trust;
  })

or_header : String → String → String
or_header name fallback = if name == "" then fallback else name

pub load_admin : Env → Config → Loaded Config
unfolding or_header
load_admin env cfg = do
  enabled ← setting env "ADMIN_DASHBOARD_ENABLED" bool_value cfg.dashboard.enabled
  refuse_if (cfg.dashboard.base_path == "/") (refused "ADMIN_BASE_PATH must not be /")
  refuse_if (not (cfg.auth.mode == "header") && not (cfg.auth.mode == "none"))
      (refused "ADMIN_AUTH_MODE must be header or none")
  ok (record cfg {
    dashboard = record cfg.dashboard { enabled = enabled };
    auth = record cfg.auth {
      user_header = or_header cfg.auth.user_header "X-Forwarded-User";
      email_header = or_header cfg.auth.email_header "X-Forwarded-Email";
      groups_header = or_header cfg.auth.groups_header "X-Forwarded-Groups";
    };
  })

pub load_rate_limit : Parsers → Env → Config → Loaded Config
unfolding positive_duration_value
load_rate_limit go env cfg = do
  enabled ← setting env "RATE_LIMIT_ENABLED" bool_value cfg.rate_limit.enabled
  requests ←
      setting env "RATE_LIMIT_REQUESTS"
        (λ name raw. checked (λ v. leb_ℤ v (pos 0)) (atoi raw) name raw)
        cfg.rate_limit.requests_per_window
  window ← setting env "RATE_LIMIT_WINDOW" (positive_duration_value go) cfg.rate_limit.window
  ok (record cfg {
    rate_limit = record { enabled = enabled; requests_per_window = requests; window = window };
  })

-- v < low || v > high
unfoldable pub outside : ℤ → ℤ → ℤ → Bool
outside low high v = ltb_ℤ v low || ltb_ℤ high v

success_value : String → String → Loaded ℤ
unfolding outside
success_value name raw = do
  v ← checked (outside (pos 100) (pos 599)) (atoi raw) name raw
  refuse_if (outside (pos 200) (pos 299) v)
      (refused "VERIFY_SUCCESS_STATUS must be 2xx for forwardAuth allow semantics")
  ok v

failure_value : String → String → Loaded ℤ
unfolding outside
failure_value name raw = do
  v ← checked (outside (pos 100) (pos 599)) (atoi raw) name raw
  refuse_if (not (outside (pos 200) (pos 299) v))
      (refused "VERIFY_FAILURE_STATUS must be non-2xx for forwardAuth deny semantics")
  ok v

pub load_statuses : Env → Config → Loaded Config
unfolding success_value failure_value
load_statuses env cfg = do
  success ← setting env "VERIFY_SUCCESS_STATUS" success_value cfg.verify_success_status
  failure ← setting env "VERIFY_FAILURE_STATUS" failure_value cfg.verify_failure_status
  ok (record cfg { verify_success_status = success; verify_failure_status = failure })

-- the allowed origins, and the defaults of the address and of the header
pub load_origins : Parsers → Env → Config → Loaded Config
unfolding or_header
load_origins go env cfg = do
  origins ←
      setting env "ALLOWED_EXCHANGE_ORIGINS" (λ name raw. parse_allowed_origins go raw)
        cfg.allowed_exchange_origins
  ok (record cfg {
    allowed_exchange_origins = origins;
    http_addr = or_header cfg.http_addr ":8080";
    verify_header_name = or_header cfg.verify_header_name "X-Firebase-AppCheck";
  })

unfoldable pub load_from_map : Parsers → Env → Loaded Config
unfolding default_config check_mocks load_upstream load_times load_admin load_rate_limit
    load_statuses load_origins check_upstream
load_from_map go env = do
  started ← check_mocks (default_config env)
  let (upstream, lacking) = load_upstream go env started
  timed ← load_times go env upstream
  with_admin ← load_admin env timed
  audited ← load_audit go env with_admin.audit
  limited ← load_rate_limit go env (record with_admin { audit = audited })
  with_statuses ← load_statuses env limited
  with_origins ← load_origins go env with_statuses
  check_upstream lacking with_origins

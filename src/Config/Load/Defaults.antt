-- ===== src/Config/Load/Defaults.antt =====
-- internal/config/config.go: the literal that loadFromMap begins with.
use turnstile_appcheck_gatew.Prelude.{◌*◌, ℕ, String, Bool, true, false, [], ◌==◌, pos}
use turnstile_appcheck_gatew.GoStrings.{trim_space, to_lower}
use turnstile_appcheck_gatew.Audit.Event.{minute}
use turnstile_appcheck_gatew.Admin.Auth.{AdminAuthConfig}
use turnstile_appcheck_gatew.Config.{Config}
use turnstile_appcheck_gatew.Config.Paths.{normalize_subpath, normalize_health_path}
use turnstile_appcheck_gatew.Config.Values.{Env, env_get, get_or_default, parse_csv}
use turnstile_appcheck_gatew.Config.Load.Audit.{default_audit}

abbrev second : ℕ
second = 1000000000

-- strings.TrimSpace(getOrDefault(env, key, fallback))
trimmed : Env → String → String → String
trimmed env key fallback = trim_space (get_or_default env key fallback)

default_auth : Env → AdminAuthConfig
unfolding trimmed
default_auth env = record {
  mode = to_lower (trimmed env "ADMIN_AUTH_MODE" "header");
  user_header = trimmed env "ADMIN_AUTH_USER_HEADER" "X-Forwarded-User";
  email_header = trimmed env "ADMIN_AUTH_EMAIL_HEADER" "X-Forwarded-Email";
  groups_header = trimmed env "ADMIN_AUTH_GROUPS_HEADER" "X-Forwarded-Groups";
  allowed_users = parse_csv (env_get env "ADMIN_ALLOWED_USERS");
  allowed_groups = parse_csv (get_or_default env "ADMIN_ALLOWED_GROUPS" "gateway-admins");
}

-- the literal that loadFromMap begins with
unfoldable pub default_config : Env → Config
unfolding trimmed default_auth
default_config env = record {
  app_check_subpath = normalize_subpath (get_or_default env "APPCHECK_SUBPATH" "/appcheck");
  http_addr = trimmed env "HTTP_ADDR" ":8080";
  turnstile_secret_key = "";
  turnstile_site_verify_url =
      trimmed env "TURNSTILE_SITEVERIFY_URL"
        "https://challenges.cloudflare.com/turnstile/v0/siteverify";
  firebase_project_id = "";
  firebase_app_id = "";
  firebase_app_resource = "";
  service_account_json = "";
  log_level = to_lower (trimmed env "LOG_LEVEL" "info");
  request_timeout = pos (10 * second);
  app_check_token_ttl = pos (30 * minute);
  allowed_exchange_origins = [];
  trust_proxy_headers = false;
  verify_header_name = trimmed env "VERIFY_HEADER_NAME" "X-Firebase-AppCheck";
  verify_success_status = pos 204;
  verify_failure_status = pos 401;
  health_path = normalize_health_path (get_or_default env "HEALTH_PATH" "/healthz");
  ready_path = normalize_health_path (get_or_default env "READY_PATH" "/readyz");
  upstream_mode = to_lower (trim_space (env_get env "E2E_UPSTREAM_MODE"));
  e2e = record {
    turnstile_pass_token = trimmed env "E2E_TURNSTILE_PASS_TOKEN" "e2e-turnstile-pass";
    turnstile_fail_token = trimmed env "E2E_TURNSTILE_FAIL_TOKEN" "e2e-turnstile-fail";
    app_check_token = trimmed env "E2E_APPCHECK_TOKEN" "e2e-appcheck-valid-token";
    app_check_app_id = trimmed env "E2E_APPCHECK_APP_ID" "e2e-app-id";
  };
  dashboard = record {
    enabled = true;
    base_path = normalize_subpath (get_or_default env "ADMIN_BASE_PATH" "/admin");
    timestamp_format = trimmed env "ADMIN_AUDIT_TIMESTAMP_FORMAT" "2006-01-02 15:04:05 MST";
    timestamp_timezone = trimmed env "ADMIN_AUDIT_TIMESTAMP_TIMEZONE" "Asia/Tokyo";
  };
  auth = default_auth env;
  audit = default_audit env;
  rate_limit = record { enabled = true; requests_per_window = pos 120; window = pos minute };
}

unfoldable pub is_mock_upstream_mode : Config → Bool
is_mock_upstream_mode cfg = cfg.upstream_mode == "mock"

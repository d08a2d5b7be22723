-- ===== src/Tests/Served.antt =====
-- An administrator's request on its way through the server.
use Prim.Native.String.{◌++◌}
use turnstile_appcheck_gatew.Prelude.{
  String, true, [], ◌∷◌, some, ◌==◌, ◌≡◌, ◌≤◌, ◌*◌, refl, pos, arith, if◌then◌else◌,
}
use turnstile_appcheck_gatew.GoStrings.{to_lower, trim_space, split_byte}
use turnstile_appcheck_gatew.Dict.{lookup}
use turnstile_appcheck_gatew.Http.{Request, get_header}
use turnstile_appcheck_gatew.Http.Header
use turnstile_appcheck_gatew.Http.Header.{canonical_key}
use turnstile_appcheck_gatew.Admin.Auth.{required, allowed, split_header_groups}
use turnstile_appcheck_gatew.Audit.Event.{minute}
use turnstile_appcheck_gatew.Middleware.RateLimit.{FixedWindowLimiter, new_limiter}
use turnstile_appcheck_gatew.Config.{Config}
use turnstile_appcheck_gatew.Config.Load.Defaults.{default_config}
use turnstile_appcheck_gatew.Httpserver.Router.{get_me, new_router}
use turnstile_appcheck_gatew.Httpserver.Served.{serve}
use turnstile_appcheck_gatew.Httpserver.Served.Guarded.{Guarded, serve-Guarded}
use turnstile_appcheck_gatew.Httpserver.Served.Limited.{Arrivals, runs_from, public_bound}
use turnstile_appcheck_gatew.Tests.Config.{some_parsers}

abbrev join : String → String → String
join base path = if base == "/" then path else base ++ path

abbrev pub me_call : Request
me_call = record {
  method = "GET";
  path = "/appcheck/_admin/api/v1/me";
  headers =
      ("X-Forwarded-User", "ann" ∷ []) ∷ ("X-Forwarded-Groups", "dev, gateway-admins" ∷ []) ∷ [];
  remote_addr = "10.0.0.7:4711";
  body = "";
  full_path = "/appcheck/_admin/api/v1/me";
  client_ip = "10.0.0.7";
}

abbrev idle : FixedWindowLimiter
idle = record { window = minute; entries = [] }

abbrev cfg : Config
cfg = record (default_config []) {
  app_check_subpath = "/appcheck";
  health_path = "/healthz";
  ready_path = "/readyz";
  dashboard = record {
    enabled = true;
    base_path = "/admin";
    timestamp_format = "";
    timestamp_timezone = "";
  };
  auth = record {
    mode = "header";
    user_header = "X-Forwarded-User";
    email_header = "X-Forwarded-Email";
    groups_header = "X-Forwarded-Groups";
    allowed_users = [];
    allowed_groups = "gateway-admins" ∷ [];
  };
  rate_limit = record { enabled = true; requests_per_window = pos 2; window = pos minute };
  allowed_exchange_origins = [];
}

served_me : (serve some_parsers cfg true join idle me_call 5).1 ≡ some get_me
unfolding serve new_router required to_lower trim_space get_header Header.get lookup canonical_key
    allowed split_header_groups split_byte
served_me = refl

serve-Guarded_example : Guarded some_parsers cfg true idle me_call 5 get_me
serve-Guarded_example = serve-Guarded some_parsers cfg true idle me_call 5 join get_me served_me

abbrev verify_call : Request
verify_call = record me_call {
  path = "/appcheck/api/v1/verify";
  full_path = "/appcheck/api/v1/verify";
  headers = [];
}

abbrev visits : Arrivals
visits =
    (verify_call, 10)
    ∷ (me_call, 11)
    ∷ (verify_call, 12)
    ∷ (verify_call, 13)
    ∷ (verify_call, 14)
    ∷ []

public_bound_example :
    runs_from some_parsers cfg true join "10.0.0.7|/appcheck/api/v1/verify" 5
      (new_limiter cfg.rate_limit)
      visits
    ≤ 2 * 2
unfolding new_limiter
public_bound_example =
    public_bound some_parsers cfg true join "10.0.0.7|/appcheck/api/v1/verify" 5 visits refl refl
      (omega arith) (omega arith, (omega arith, (omega arith, (omega arith, (omega arith, tt)))))
      (omega arith, (omega arith, (omega arith, (omega arith, (omega arith, tt)))))

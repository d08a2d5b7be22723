-- ===== src/Tests/Config.antt =====
-- The configuration, on a few environments.
use turnstile_appcheck_gatew.Prelude.{
  String, true, false, [], ◌∷◌, Option, none, some, ◌≡◌, refl, pos, ◌==◌, if◌then◌else◌, ◌↔◌,
}
use turnstile_appcheck_gatew.Prelude.Results.{ok, err}
use turnstile_appcheck_gatew.GoStrings.{
  trim_space, split_byte, has_prefix, trim_suffix_byte, to_lower, atoi,
}
use turnstile_appcheck_gatew.Dict.{lookup}
use turnstile_appcheck_gatew.Audit.Policy.{known_mode}
use turnstile_appcheck_gatew.Config.Load.Audit.{load_audit, default_audit}
use turnstile_appcheck_gatew.Main.{
  policy_config, async_config, recorder_kind, no_recorder, sync_recorder, async_recorder,
  verify_handler,
}
use turnstile_appcheck_gatew.Main.Wiring.{recorder_kind_lem, configured_forward_auth}
use turnstile_appcheck_gatew.Http.{Request, get_header}
use turnstile_appcheck_gatew.Http.Gin.{plain_gin}
use turnstile_appcheck_gatew.Handlers.Verify.{Verdict, decoded, rejected, handle}
use turnstile_appcheck_gatew.Handlers.Verify.Contract.{is_success}
use turnstile_appcheck_gatew.Config.{Parsers, Config, Loaded}
use turnstile_appcheck_gatew.Config.Values.{
  Env, env_get, get_or_default, setting, checked, parse_allowed_origins, is_exchange_origin_allowed,
  parse_csv, normalize_origin,
}
use turnstile_appcheck_gatew.Config.Paths.{normalize_subpath, normalize_health_path}
use turnstile_appcheck_gatew.Config.Paths.Clean.{IsClean, normalize_subpath-IsClean}
use turnstile_appcheck_gatew.Config.Values.Origins.{is_listed, is_exchange_origin_allowed_lem}
use turnstile_appcheck_gatew.Config.Load.{load_from_map}
use turnstile_appcheck_gatew.Config.Load.Defaults.{default_config}
use turnstile_appcheck_gatew.Config.Load.Valid.{IsValid, load_from_map-IsValid}

-- parsers that know one duration, and take every text for the host of an origin
abbrev pub some_parsers : Parsers
some_parsers = record {
  parse_duration = λ s. if s == "1h" then some (pos 3600000000000) else none;
  parse_float = λ s. none;
  parse_url = λ s. ok (record {
    scheme = "https";
    host = s;
    path = "/";
    raw_query = "";
    fragment = "";
    has_user = false;
  });
  decode_base64 = λ s. some s;
}

cleaned : normalize_subpath " a//b/./c/../ " ≡ "/a/b"
unfolding normalize_subpath split_byte has_prefix trim_space trim_suffix_byte
cleaned = refl

above_root : normalize_health_path "/../x" ≡ "/x"
unfolding normalize_health_path trim_space split_byte has_prefix
above_root = refl

csv : parse_csv "Ann, bob,,ANN ,Bob" ≡ "Ann" ∷ "bob" ∷ []
unfolding parse_csv split_byte trim_space to_lower
csv = refl

abbrev mock_env : Env
mock_env =
    ("E2E_UPSTREAM_MODE", " Mock")
    ∷ ("APPCHECK_TOKEN_TTL", "1h")
    ∷ ("VERIFY_FAILURE_STATUS", "403")
    ∷ []

abbrev or_default : Loaded Config → Config
or_default (ok cfg) = cfg
or_default (err e) = default_config []

abbrev mock_config : Config
unfolding load_from_map
mock_config = or_default (load_from_map some_parsers mock_env)

mock_config_loaded : load_from_map some_parsers mock_env ≡ ok mock_config
unfolding load_from_map to_lower trim_space env_get lookup get_or_default setting checked
    normalize_subpath split_byte has_prefix trim_suffix_byte load_audit default_audit known_mode
    atoi
mock_config_loaded = refl

load_from_map-IsValid_example : IsValid mock_config
load_from_map-IsValid_example =
    load_from_map-IsValid some_parsers mock_env mock_config mock_config_loaded

recorder_kind_lem_example : recorder_kind mock_config.audit ≡ (
    if mock_config.audit.enabled
    then (if mock_config.audit.async_enabled
        then async_recorder (policy_config mock_config.audit) (async_config mock_config.audit)
        else sync_recorder (policy_config mock_config.audit))
    else no_recorder)
recorder_kind_lem_example = recorder_kind_lem some_parsers mock_env mock_config mock_config_loaded

abbrev good_token : String → Verdict
good_token token = if token == "t" then decoded (some "app") else rejected

abbrev some_request : Request
some_request = record {
  method = "GET";
  path = "/appcheck/api/v1/verify";
  full_path = "/appcheck/api/v1/verify";
  headers = ("X-Firebase-Appcheck", "t" ∷ []) ∷ [];
  remote_addr = "10.0.0.7:4711";
  body = "";
  client_ip = "10.0.0.7";
}

configured_forward_auth_example :
    (is_success (
        plain_gin.writer_status
          (handle plain_gin true good_token (verify_handler mock_config) some_request))
      ≡ true)
    ↔ ((id : Option String) × ((if get_header some_request mock_config.verify_header_name == ""
            then rejected
            else good_token (get_header some_request mock_config.verify_header_name))
          ≡ decoded id))
configured_forward_auth_example =
    configured_forward_auth some_parsers mock_env mock_config mock_config_loaded plain_gin
      good_token some_request true

normalize_subpath-IsClean_example :
    IsClean (normalize_subpath " a//b/./c/../ ")
    × IsClean (normalize_health_path " a//b/./c/../ ")
    × ((trim_space " a//b/./c/../ " == "") ≡ true
        → (normalize_subpath " a//b/./c/../ " ≡ "/appcheck")
          × (normalize_health_path " a//b/./c/../ " ≡ "/"))
normalize_subpath-IsClean_example = normalize_subpath-IsClean " a//b/./c/../ "

two_origins :
    parse_allowed_origins some_parsers "a.example, B.example,A.example"
    ≡ ok ("https://a.example" ∷ "https://b.example" ∷ [])
unfolding parse_allowed_origins split_byte trim_space normalize_origin to_lower
two_origins = refl

is_exchange_origin_allowed_lem_example :
    is_exchange_origin_allowed some_parsers
      ("https://a.example" ∷ "https://b.example" ∷ [])
      " b.example"
    ≡ is_listed some_parsers "a.example, B.example,A.example" " b.example"
is_exchange_origin_allowed_lem_example =
    is_exchange_origin_allowed_lem some_parsers "a.example, B.example,A.example" " b.example" _
      two_origins

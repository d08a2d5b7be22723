-- ===== src/Config/Load/Upstream.antt =====
-- internal/config/config.go: what loadFromMap reads and checks for the upstream services and their mocks.
pub mod Valid
use Prim.Native.String.{◌++◌}
use turnstile_appcheck_gatew.Prelude.{
  String, Bool, true, false, not, ◌&&◌, List, [], ◌∷◌, ◌++◌ as append, is_empty, ◌==◌,
  if◌then◌else◌,
}
use turnstile_appcheck_gatew.Prelude.Results.{Result, ok, err, ◌>>◌, refuse_if}
use turnstile_appcheck_gatew.GoStrings.{trim_space}
use turnstile_appcheck_gatew.Config.{Parsers, Config, invalid, refused, missing, Loaded}
use turnstile_appcheck_gatew.Config.Values.{
  Env, env_get, is_valid_app_resource, app_id_from_resource, read_service_account_json,
}
use turnstile_appcheck_gatew.Config.Load.Defaults.{is_mock_upstream_mode}

-- the checks of the mode and of the mocks' tokens
unfoldable pub check_mocks : Config → Loaded Config
unfolding is_mock_upstream_mode
check_mocks cfg = do
  refuse_if (not (cfg.upstream_mode == "") && not (cfg.upstream_mode == "mock"))
      (refused "E2E_UPSTREAM_MODE must be empty or mock")
  let mock = is_mock_upstream_mode cfg
  refuse_if (mock && (cfg.e2e.turnstile_pass_token == ""))
      (refused "E2E_TURNSTILE_PASS_TOKEN is required when E2E_UPSTREAM_MODE=mock")
  refuse_if (mock && (cfg.e2e.turnstile_fail_token == ""))
      (refused "E2E_TURNSTILE_FAIL_TOKEN is required when E2E_UPSTREAM_MODE=mock")
  refuse_if (mock && (cfg.e2e.turnstile_pass_token == cfg.e2e.turnstile_fail_token))
      (refused "E2E_TURNSTILE_PASS_TOKEN and E2E_TURNSTILE_FAIL_TOKEN must differ")
  refuse_if (mock && (cfg.e2e.app_check_token == ""))
      (refused "E2E_APPCHECK_TOKEN is required when E2E_UPSTREAM_MODE=mock")
  refuse_if (mock && (cfg.e2e.app_check_app_id == ""))
      (refused "E2E_APPCHECK_APP_ID is required when E2E_UPSTREAM_MODE=mock")
  ok cfg

-- `missing = append(missing, name)`, under a test
miss_if : Bool → String → List String
miss_if true name = name ∷ []
miss_if false name = []

json_or_empty : Result String String → String
json_or_empty (ok json) = json
json_or_empty (err text) = ""

miss_error : Result String String → List String
miss_error (ok json) = []
miss_error (err text) = text ∷ []

-- FirebaseAppResource as it is, or from the project and the app
derived_resource : String → String → String → String
derived_resource resource project app =
    if (resource == "") && (not (project == "") && not (app == ""))
    then "projects/" ++ (project ++ ("/apps/" ++ app))
    else resource

-- what the upstream services need, and what of it is missing
unfoldable pub load_upstream : Parsers → Env → Config → Config × List String
unfolding is_mock_upstream_mode miss_if miss_error json_or_empty derived_resource
load_upstream go env cfg =
    let project = trim_space (env_get env "FIREBASE_PROJECT_ID") in
    let app = trim_space (env_get env "FIREBASE_APP_ID") in
    let resource = trim_space (env_get env "FIREBASE_APP_RESOURCE") in
    let secret = trim_space (env_get env "TURNSTILE_SECRET_KEY") in
    let json = read_service_account_json go env in
    let named = record cfg {
      firebase_project_id = project;
      firebase_app_id = app;
      firebase_app_resource = resource;
    } in
    if is_mock_upstream_mode cfg then (named, []) else (
      record named {
        turnstile_secret_key = secret;
        service_account_json = json_or_empty json;
        firebase_app_resource = derived_resource resource project app;
      },
      append (miss_if (secret == "") "TURNSTILE_SECRET_KEY") (
          append (miss_if (project == "") "FIREBASE_PROJECT_ID") (
            append
              (miss_if ((resource == "") && (app == ""))
                "FIREBASE_APP_ID (required when FIREBASE_APP_RESOURCE is not set)")
              (miss_error json))),
    )

-- the last checks: nothing is missing, and the resource has its form
unfoldable pub check_upstream : List String → Config → Loaded Config
unfolding is_mock_upstream_mode
check_upstream lacking cfg = do
  refuse_if (not (is_empty lacking)) (missing lacking)
  refuse_if
      (not (is_mock_upstream_mode cfg) && not (is_valid_app_resource cfg.firebase_app_resource))
      (invalid "FIREBASE_APP_RESOURCE" cfg.firebase_app_resource)
  ok (
      if not (is_mock_upstream_mode cfg) && (cfg.firebase_app_id == "")
      then record cfg { firebase_app_id = app_id_from_resource cfg.firebase_app_resource }
      else cfg)

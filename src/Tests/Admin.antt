-- ===== src/Tests/Admin.antt =====
-- The middleware of internal/admin/auth.go, on one request each.
use turnstile_appcheck_gatew.Prelude.{
  ℕ, String, true, List, [], ◌∷◌, none, ◌==◌, ◌&&◌, if◌then◌else◌, ◌≡◌, refl, ◌↔◌,
}
use turnstile_appcheck_gatew.GoStrings.{to_lower, trim_space, split_byte}
use turnstile_appcheck_gatew.Dict.{lookup}
use turnstile_appcheck_gatew.Http.Header
use turnstile_appcheck_gatew.Http.{
  get_header, Request, Call, next, abort_json, record_event, error_text,
}
use turnstile_appcheck_gatew.Audit.Event.{Event}
use turnstile_appcheck_gatew.Admin.Auth.{
  AdminAuthConfig, header_identity, split_header_groups, required,
}
use turnstile_appcheck_gatew.Admin.Auth.Access.{
  is_admitted, mode_of, required_admits, required_denies,
}

abbrev by_header : AdminAuthConfig
by_header = record {
  mode = "Header ";
  user_header = "Remote-User";
  email_header = "Remote-Email";
  groups_header = "Remote-Groups";
  allowed_users = "Alice" ∷ [];
  allowed_groups = "ops" ∷ [];
}

abbrev from : String → Request
from user = record {
  method = "GET";
  path = "/_admin/api/v1/me";
  headers = ("Remote-User", user ∷ []) ∷ [];
  remote_addr = "10.0.0.7:4711";
  body = "";
  full_path = "/_admin/api/v1/me";
  client_ip = "10.0.0.7";
}

abbrev no_calls : List Call
no_calls = []

required_admits_example :
    ((required true by_header (from " alice") no_calls).1 ≡ next ∷ no_calls)
    ↔ (is_admitted by_header (from " alice") ≡ true)
required_admits_example = required_admits true by_header (from " alice") no_calls

required_denies_example :
    let unnamed =
      (mode_of by_header == "header")
      && ((header_identity (from "mallory") by_header).user == "") in
    let status : ℕ = if unnamed then 401 else 403 in
    ((required true by_header (from "mallory") no_calls).0 ≡ none)
    × ((message : String) × (e : Event) × ((required true by_header (from "mallory") no_calls).1
          ≡ abort_json status (error_text message)
            ∷ (if true then record_event e ∷ no_calls else no_calls))
        × (e.result ≡ "denied")
        × (e.status_code ≡ status))
unfolding to_lower trim_space split_byte get_header Header.get lookup Header.canonical_key
    header_identity split_header_groups
required_denies_example = required_denies true by_header (from "mallory") no_calls refl

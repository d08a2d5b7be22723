-- ===== src/Admin/Auth.antt =====
-- internal/admin/auth.go: who may use the admin API.
pub mod Access
use Prim.Native.String.{◌++◌}
use turnstile_appcheck_gatew.Prelude.{
  ℕ, String, Bool, true, false, not, ◌&&◌, ◌||◌, List, [], ◌∷◌, Option, none, some, ◌==◌, eqb, any,
  if◌then◌else◌,
}
use turnstile_appcheck_gatew.GoStrings.{trim_space, to_lower, split_byte}
use turnstile_appcheck_gatew.Http.{
  Request, Call, abort_json, next, record_event, error_text, get_header, user_agent, request_id,
  client_address,
}
use turnstile_appcheck_gatew.Audit.Event.{Event, empty_event, result_denied}

pub record Identity : Type 0 where
  pub user : String
  pub email : String
  pub groups : List String
  pub auth_mode : String
  pub auth_disabled : Bool

abbrev pub no_identity : Identity
no_identity = record { user = ""; email = ""; groups = []; auth_mode = ""; auth_disabled = false }

abbrev pub anonymous : Identity
anonymous = record no_identity { user = "anonymous"; auth_mode = "none"; auth_disabled = true }

-- config.AdminAuthConfig
pub record AdminAuthConfig : Type 0 where
  pub mode : String
  pub user_header : String
  pub email_header : String
  pub groups_header : String
  pub allowed_users : List String
  pub allowed_groups : List String

-- The keys of `userSet` and of `groupSet`. A key may stand here twice.
unfoldable pub folded_set : List String → List String
folded_set [] = []
folded_set (name ∷ names) =
    let key = to_lower (trim_space name) in
    let rest = folded_set names in if key == "" then rest else key ∷ rest

-- `_, ok := set[key]`
unfoldable pub has_key : String → List String → Bool
has_key key [] = false
has_key key (k ∷ ks) = (k == key) || has_key key ks

unfoldable pub any_group : List String → List String → Bool
any_group set [] = false
any_group set (group ∷ groups) =
    let rest = any_group set groups in
    if has_key (to_lower (trim_space group)) set then true else rest

unfoldable pub allowed : Identity → List String → List String → Bool
unfolding folded_set has_key any_group
allowed identity users groups =
    let user_set = folded_set users in
    if has_key (to_lower identity.user) user_set
    then true
    else if not (identity.email == "") && has_key (to_lower identity.email) user_set
    then true
    else any_group (folded_set groups) identity.groups

-- the loop of splitHeaderGroups
non_blank : List String → List String
non_blank [] = []
non_blank (part ∷ parts) =
    let p = trim_space part in let rest = non_blank parts in if p == "" then rest else p ∷ rest

unfoldable pub split_header_groups : String → List String
unfolding non_blank
split_header_groups value = non_blank (split_byte b',' value)

-- the identity that the headers give
unfoldable pub header_identity : Request → AdminAuthConfig → Identity
header_identity r auth =
    let user = trim_space (get_header r auth.user_header) in
    let email = trim_space (get_header r auth.email_header) in
    record {
      user = if user == "" then email else user;
      email = email;
      groups = split_header_groups (get_header r auth.groups_header);
      auth_mode = "header";
      auth_disabled = false;
    }

-- the identity, the status, and whether the request is let in
unfoldable pub identity_from_request : Request → AdminAuthConfig → Identity × ℕ × Bool
unfolding header_identity
identity_from_request r auth =
    let mode = to_lower (trim_space auth.mode) in
    let identity = header_identity r auth in
    if mode == "none"
    then (anonymous, 200, true)
    else if not (mode == "header")
    then (record no_identity { auth_mode = mode }, 403, false)
    else if identity.user == ""
    then (identity, 401, false)
    else if allowed identity auth.allowed_users auth.allowed_groups
    then (identity, 200, true)
    else (identity, 403, false)

unfoldable pub denied_event : Request → AdminAuthConfig → Identity → ℕ → Event
denied_event r auth identity status = record empty_event {
  actor = if identity.user == "" then "anonymous" else identity.user;
  actor_source = "admin:" ++ auth.mode;
  action = "admin.access.denied";
  method = r.method;
  path = r.path;
  endpoint = r.full_path;
  status_code = status;
  result = result_denied;
  remote_addr = client_address r;
  user_agent = user_agent r;
  request_id = request_id r;
  error_code = "admin_access_denied";
  message = "Denied admin access";
}

-- Handler.record, where `recording` is that a recorder is set and the audit is enabled
unfoldable pub record_admin : Bool → Event → List Call → List Call
record_admin recording e calls = if recording then record_event e ∷ calls else calls

-- what the middleware of `required` does with the answer of IdentityFromRequest
unfoldable pub answer_identity :
    Bool → AdminAuthConfig → Request → List Call → Identity → ℕ → Bool → Option Identity × List Call
unfolding record_admin
answer_identity recording auth r calls identity status let_in =
    let recorded = record_admin recording (denied_event r auth identity status) calls in
    if let_in
    then (some identity, next ∷ calls)
    else if eqb status 401
    then (none, abort_json status (error_text "admin authentication is required") ∷ recorded)
    else (none, abort_json status (error_text "admin authorization is required") ∷ recorded)

-- the middleware of `required`: the identity that it sets in gin's context, and the calls
unfoldable pub required : Bool → AdminAuthConfig → Request → List Call → Option Identity × List Call
unfolding identity_from_request answer_identity
required recording auth r calls =
    let (identity, status, let_in) = identity_from_request r auth in
    answer_identity recording auth r calls identity status let_in

-- currentIdentity, of what gin's context holds
unfoldable pub current_identity : Option Identity → Identity
current_identity none = anonymous
current_identity (some identity) =
    if identity.user == "" then record identity { user = "anonymous" } else identity

-- ===== src/Admin/Auth/Access.antt =====
-- Whom the admin middleware lets in, and what it does with the others.
use turnstile_appcheck_gatew.Prelude.{
  ℕ, String, Bool, true, false, not, ◌&&◌, ◌||◌, List, [], ◌∷◌, none, ◌==◌, eqb, if◌then◌else◌, any,
  ◌≡◌, refl, ap, inl, inr, ◌↔◌, arith, Bool-cases,
}
use turnstile_appcheck_gatew.GoStrings.{trim_space, to_lower}
use turnstile_appcheck_gatew.Http.{Request, Call, next, abort_json, record_event, error_text}
use turnstile_appcheck_gatew.Audit.Event.{Event}
use turnstile_appcheck_gatew.Admin.Auth.{
  Identity, AdminAuthConfig, folded_set, has_key, any_group, allowed, header_identity,
  identity_from_request, denied_event, record_admin, answer_identity, required,
}

or_if : (a b : Bool) → (if a then true else b) ≡ (a || b)
or_if true b = refl
or_if false b = refl

-- a name of the list, trimmed and in lower case, is not blank and is `key`
abbrev pub is_listed : List String → String → Bool
is_listed names key =
    any (λ name. not (to_lower (trim_space name) == "") && (to_lower (trim_space name) == key))
      names

has_key-folded_set :
    (key : String) (names : List String) → has_key key (folded_set names) ≡ is_listed names key
unfolding has_key folded_set
has_key-folded_set key [] = refl
has_key-folded_set key (name ∷ names) = elim (Bool-cases (to_lower (trim_space name) == "")) [
  | inl e ↦ rw e (has_key-folded_set key names)
  | inr e ↦ rw e (ap (λ b. (to_lower (trim_space name) == key) || b) (has_key-folded_set key names))
]

any_group-is_listed :
    (groups held : List String)
    → any_group (folded_set groups) held
      ≡ any (λ group. is_listed groups (to_lower (trim_space group))) held
unfolding any_group
any_group-is_listed groups [] = refl
any_group-is_listed groups (group ∷ held) = rw (← any_group-is_listed groups held) (
    rw (← has_key-folded_set (to_lower (trim_space group)) groups) (
      or_if (has_key (to_lower (trim_space group)) (folded_set groups))
        (any_group (folded_set groups) held)))

-- The configured lists name the user, or the e-mail address, or a group of the user, whatever the
-- case and the white space around a name; a blank name of a list admits nobody.
abbrev pub is_entitled : AdminAuthConfig → Identity → Bool
is_entitled auth identity =
    is_listed auth.allowed_users (to_lower identity.user)
    || ((not (identity.email == "") && is_listed auth.allowed_users (to_lower identity.email))
        || any (λ group. is_listed auth.allowed_groups (to_lower (trim_space group)))
            identity.groups)

allowed-is_entitled :
    (auth : AdminAuthConfig) (identity : Identity)
    → allowed identity auth.allowed_users auth.allowed_groups ≡ is_entitled auth identity
unfolding allowed
allowed-is_entitled auth identity =
    rw
      (
        ← any_group-is_listed auth.allowed_groups identity.groups,
        ← has_key-folded_set (to_lower identity.user) auth.allowed_users,
        ← has_key-folded_set (to_lower identity.email) auth.allowed_users,
      )
      (ground arith)

abbrev pub mode_of : AdminAuthConfig → String
mode_of auth = to_lower (trim_space auth.mode)

-- the mode is "none", or it is "header" and the headers name somebody who is entitled
abbrev pub is_admitted : AdminAuthConfig → Request → Bool
is_admitted auth r =
    (mode_of auth == "none")
    || ((mode_of auth == "header")
        && (not ((header_identity r auth).user == "") && is_entitled auth (header_identity r auth)))

pub identity-is_admitted :
    (auth : AdminAuthConfig) (r : Request) → (identity_from_request r auth).2 ≡ is_admitted auth r
unfolding identity_from_request
identity-is_admitted auth r =
    rw (← allowed-is_entitled auth (header_identity r auth)) (ground arith)

status-denied :
    (auth : AdminAuthConfig) (r : Request)
    → (identity_from_request r auth).2 ≡ false
    → (identity_from_request r auth).1
      ≡ (if (mode_of auth == "header") && ((header_identity r auth).user == "") then 401 else 403)
unfolding identity_from_request
status-denied auth r h = ground arith

-- The middleware runs the handler behind it exactly for a request that is admitted: in the mode
-- "none", or in the mode "header" if the headers name somebody whom the lists entitle.
pub required_admits :
    (recording : Bool) (auth : AdminAuthConfig) (r : Request) (calls : List Call)
    → ((required recording auth r calls).1 ≡ next ∷ calls) ↔ (is_admitted auth r ≡ true)
unfolding required answer_identity
required_admits recording auth r calls = rw (← identity-is_admitted auth r) (ground arith)

-- A request that is not admitted is answered with 401 if the mode is "header" and the headers name
-- nobody, else with 403; no identity is set, and if the audit is on, one event of the result "denied"
-- with the same status is recorded before.
pub required_denies :
    (recording : Bool) (auth : AdminAuthConfig) (r : Request) (calls : List Call)
    → is_admitted auth r ≡ false
    → let unnamed = (mode_of auth == "header") && ((header_identity r auth).user == "") in
      let status : ℕ = if unnamed then 401 else 403 in
      ((required recording auth r calls).0 ≡ none)
      × ((message : String) × (e : Event) × ((required recording auth r calls).1
            ≡ abort_json status (error_text message)
              ∷ (if recording then record_event e ∷ calls else calls))
          × (e.result ≡ "denied")
          × (e.status_code ≡ status))
unfolding required answer_identity record_admin denied_event
required_denies recording auth r calls h =
    let (identity, status, let_in) = identity_from_request r auth in
    let denied = rw (← identity-is_admitted auth r) at h in
    rw (← status-denied auth r denied) (turned_away identity status let_in denied)
  where
    turned_away :
        (identity : Identity) (status : ℕ) (let_in : Bool)
        → let_in ≡ false
        → ((answer_identity recording auth r calls identity status let_in).0 ≡ none)
          × ((message : String) × (e : Event) × ((answer_identity recording auth r calls identity
                  status let_in).1
                ≡ abort_json status (error_text message)
                  ∷ (if recording then record_event e ∷ calls else calls))
              × (e.result ≡ "denied")
              × (e.status_code ≡ status))
    turned_away identity status true f = cc
    turned_away identity status false f = elim (Bool-cases (eqb status 401)) [
      | inl e ↦ rw e (
        refl,
        ("admin authentication is required", denied_event r auth identity status, refl, refl, refl),
      )
      | inr e ↦ rw e (
        refl,
        ("admin authorization is required", denied_event r auth identity status, refl, refl, refl),
      )
    ]

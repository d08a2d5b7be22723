-- ===== src/Config/Load/Upstream/Valid.antt =====
-- internal/config/config.go: a configuration that is loaded names all that its upstream services or
-- their mocks need.
use turnstile_appcheck_gatew.Prelude.{
  String, Bool, true, false, not, ◌&&◌, ◌==◌, ◌≡◌, refl, if◌then◌else◌, Bool-cases, not-false, inl,
  inr, ◌⊎◌, List, [], ◌∷◌, ◌++◌, is_empty, Option, none, some, eq_iff,
}
use turnstile_appcheck_gatew.Prelude.Results.{
  Result, ok, err, Ensures, holds, ◌⟫◌, Ensures-ok, Ensures-refuse_if, Ensures-if, Ensures_any,
  or_err,
}
use turnstile_appcheck_gatew.GoStrings.{trim_space}
use turnstile_appcheck_gatew.Config.{Parsers, Config}
use turnstile_appcheck_gatew.Config.Values.{
  Env, env_get, is_valid_app_resource, app_id_from_resource, resource_parts,
  read_service_account_json,
}
use turnstile_appcheck_gatew.Config.Load.Upstream.{
  check_mocks, miss_if, miss_error, json_or_empty, load_upstream, check_upstream,
}

-- the mode is empty, or `mock` with all of the mocks' tokens
abbrev pub HasMocks : Config → Type 0
HasMocks c =
    ((c.upstream_mode == "") ≡ true)
    ⊎ (((c.upstream_mode == "mock") ≡ true)
        × ((c.e2e.turnstile_pass_token == "") ≡ false)
        × ((c.e2e.turnstile_fail_token == "") ≡ false)
        × ((c.e2e.turnstile_pass_token == c.e2e.turnstile_fail_token) ≡ false)
        × ((c.e2e.app_check_token == "") ≡ false)
        × ((c.e2e.app_check_app_id == "") ≡ false))

-- what is not checked later
abbrev pub HasKeys : Config → Type 0
HasKeys c =
    ((c.turnstile_secret_key == "") ≡ false)
    × ((c.firebase_project_id == "") ≡ false)
    × ((c.service_account_json == "") ≡ false)

abbrev pub HasUpstream : List String → Config → Type 0
HasUpstream lacking c =
    (is_empty lacking ≡ false) ⊎ (((c.upstream_mode == "mock") ≡ true) ⊎ HasKeys c)

-- the mocks stand in, or the keys, the resource and the app are there
abbrev pub IsServed : Config → Type 0
IsServed c =
    ((c.upstream_mode == "mock") ≡ true)
    ⊎ (HasKeys c
        × (is_valid_app_resource c.firebase_app_resource ≡ true)
        × ((c.firebase_app_id == "") ≡ false))

mocks_of :
    (mode pass fail token app : String)
    → (not (mode == "") && not (mode == "mock")) ≡ false
    → ((mode == "mock") && (pass == "")) ≡ false
    → ((mode == "mock") && (fail == "")) ≡ false
    → ((mode == "mock") && (pass == fail)) ≡ false
    → ((mode == "mock") && (token == "")) ≡ false
    → ((mode == "mock") && (app == "")) ≡ false
    → ((mode == "") ≡ true)
      ⊎ (((mode == "mock") ≡ true)
          × ((pass == "") ≡ false)
          × ((fail == "") ≡ false)
          × ((pass == fail) ≡ false)
          × ((token == "") ≡ false)
          × ((app == "") ≡ false))
mocks_of mode pass fail token app m p f d t a = elim (Bool-cases (mode == "mock")) [
  | inl e ↦ inr (e, rw e at p, rw e at f, rw e at d, rw e at t, rw e at a)
  | inr e ↦ elim (Bool-cases (mode == "")) [
    | inl z ↦ inl z
    | inr z ↦ (let m' = rw (e, z) at m in cc)
  ]
]

pub check_mocks-HasMocks : (c : Config) → Ensures (λ c'. HasMocks c' × (c' ≡ c)) (check_mocks c)
unfolding check_mocks
check_mocks-HasMocks c =
    let mock = c.upstream_mode == "mock" in
    Ensures-refuse_if (not (c.upstream_mode == "") && not mock) _ ⟫ (λ _ m.
      Ensures-refuse_if (mock && (c.e2e.turnstile_pass_token == "")) _ ⟫ (λ _ p.
        Ensures-refuse_if (mock && (c.e2e.turnstile_fail_token == "")) _ ⟫ (λ _ f.
          Ensures-refuse_if (mock && (c.e2e.turnstile_pass_token == c.e2e.turnstile_fail_token)) _
          ⟫ (λ _ d. Ensures-refuse_if (mock && (c.e2e.app_check_token == "")) _ ⟫ (λ _ t.
              Ensures-refuse_if (mock && (c.e2e.app_check_app_id == "")) _
              ⟫ (λ _ a. holds (mocks_of c.upstream_mode _ _ _ _ m p f d t a, refl)))))))

ne_empty : (s : String) → (trim_space s == "") ≡ false → (s == "") ≡ false
unfolding trim_space
ne_empty s h = elim (Bool-cases (s == "")) [
  | inl e ↦ (let blank = rw ((eq_iff s "").0 e) at h in cc)
  | inr e ↦ e
]

json-ne-blank :
    (go : Parsers) (env : Env)
    → Ensures (λ json. (json == "") ≡ false) (read_service_account_json go env)
unfolding read_service_account_json
json-ne-blank go env =
    let raw = env_get env "GOOGLE_SERVICE_ACCOUNT_JSON" in
    let base64_value = trim_space (env_get env "GOOGLE_SERVICE_ACCOUNT_JSON_BASE64") in
    Ensures-if (base64_value == "")
      (λ _.
        Ensures-refuse_if (trim_space raw == "") _
        ⟫ (λ _ _. Ensures-refuse_if (trim_space raw == "") _ ⟫ (λ _ h. holds (ne_empty raw h))))
      (λ _.
        Ensures_any (
          or_err (go.decode_base64 base64_value)
            "GOOGLE_SERVICE_ACCOUNT_JSON_BASE64 is invalid base64")
        ⟫ (λ decoded _. Ensures-refuse_if (decoded == "") _ ⟫ (λ _ h. holds h)))

is_empty_append : (xs ys : List String) → is_empty ys ≡ false → is_empty (xs ++ ys) ≡ false
is_empty_append [] ys h = h
is_empty_append (x ∷ xs) ys h = refl

keys_of :
    (secret project : String) (json : Result String String) (rest : List String)
    → Ensures (λ j. (j == "") ≡ false) json
    → (is_empty (
          miss_if (secret == "") "TURNSTILE_SECRET_KEY"
          ++ (miss_if (project == "") "FIREBASE_PROJECT_ID" ++ (rest ++ miss_error json)))
        ≡ false)
      ⊎ (((secret == "") ≡ false)
          × ((project == "") ≡ false)
          × ((json_or_empty json == "") ≡ false))
unfolding miss_if miss_error json_or_empty
keys_of secret project (err t) rest h = inl (
    is_empty_append (miss_if (secret == "") "TURNSTILE_SECRET_KEY") _ (
      is_empty_append (miss_if (project == "") "FIREBASE_PROJECT_ID") _
        (is_empty_append rest (t ∷ []) refl)))
keys_of secret project (ok j) rest h = elim (Bool-cases (secret == "")) [
  | inl e ↦ inl (rw e refl)
  | inr s ↦ elim (Bool-cases (project == "")) [
    | inl e ↦ inl (rw s (rw e refl))
    | inr p ↦ inr (s, p, Ensures-ok h refl)
  ]
]

pub load_upstream-HasUpstream :
    (go : Parsers) (env : Env) (c : Config)
    → HasUpstream (load_upstream go env c).1 (load_upstream go env c).0
unfolding load_upstream
load_upstream-HasUpstream go env c =
    let json = read_service_account_json go env in
    let resource = trim_space (env_get env "FIREBASE_APP_RESOURCE") in
    let app = trim_space (env_get env "FIREBASE_APP_ID") in
    elim (Bool-cases (c.upstream_mode == "mock")) [
      | inl e ↦ rw e (inr (inl e))
      | inr e ↦
          rw e
            (elim (keys_of (trim_space (env_get env "TURNSTILE_SECRET_KEY"))
              (trim_space (env_get env "FIREBASE_PROJECT_ID")) json
              (miss_if ((resource == "") && (app == ""))
                "FIREBASE_APP_ID (required when FIREBASE_APP_RESOURCE is not set)")
              (json-ne-blank go env)) [ inl missed ↦ inl missed | inr keys ↦ inr (inr keys) ])
    ]

-- the step sets no more than these fields
pub load_upstream-keeps :
    (go : Parsers) (env : Env) (c : Config)
    → (project app resource secret json : String) × ((load_upstream go env c).0 ≡ record c {
      firebase_project_id = project;
      firebase_app_id = app;
      firebase_app_resource = resource;
      turnstile_secret_key = secret;
      service_account_json = json;
    })
unfolding load_upstream
load_upstream-keeps go env c = elim (Bool-cases (c.upstream_mode == "mock")) [
  | inl e ↦ rw e (_, _, _, _, _, refl)
  | inr e ↦ rw e (_, _, _, _, _, refl)
]

app_id_of_parts :
    (parts : Option (String × String × String × String)) (resource : String)
    → resource_parts resource ≡ parts
    → is_valid_app_resource resource ≡ true
    → (app_id_from_resource resource == "") ≡ false
unfolding is_valid_app_resource app_id_from_resource
app_id_of_parts none resource e h = (let h' = rw (e, is_valid_app_resource) at h in cc)
app_id_of_parts (some (a, b, c, d)) resource e h =
    let h' = rw (e, is_valid_app_resource) at h in
    rw (e, app_id_from_resource)
      (last_not_empty (a == "projects") (c == "apps") (b == "") (d == "") h')
  where
    last_not_empty : (p q r s : Bool) → p && (q && (not r && not s)) ≡ true → s ≡ false
    last_not_empty true true false false h = refl
    last_not_empty true true false true h = cc
    last_not_empty true true true s h = cc
    last_not_empty true false r s h = cc
    last_not_empty false q r s h = cc

abbrev pub with_app_id : Config → String → Config
with_app_id c app = record c { firebase_app_id = app }

served :
    (lacking : List String) (c : Config)
    → HasUpstream lacking c
    → not (is_empty lacking) ≡ false
    → (not (c.upstream_mode == "mock") && not (is_valid_app_resource c.firebase_app_resource))
      ≡ false
    → let c' =
        if not (c.upstream_mode == "mock") && (c.firebase_app_id == "")
        then with_app_id c (app_id_from_resource c.firebase_app_resource)
        else c in
      IsServed c' × ((app : String) × (c' ≡ with_app_id c app))
served lacking c (inl missed) none_missed valid = (let h = rw missed at none_missed in cc)
served lacking c (inr (inl mock)) none_missed valid = rw mock (inl mock, (c.firebase_app_id, refl))
served lacking c (inr (inr keys)) none_missed valid =
    let resource = c.firebase_app_resource in
    elim (Bool-cases (c.upstream_mode == "mock")) [
      | inl mock ↦ rw mock (inl mock, (c.firebase_app_id, refl))
      | inr real ↦
          let is_valid = not-false (is_valid_app_resource resource) (rw real at valid) in
          elim (Bool-cases (c.firebase_app_id == "")) [
            | inl e ↦ rw real (
                rw e (
                  inr (
                    keys,
                    is_valid,
                    app_id_of_parts (resource_parts resource) resource refl is_valid,
                  ),
                  (app_id_from_resource resource, refl),
                ))
            | inr e ↦ rw real (rw e (inr (keys, is_valid, e), (c.firebase_app_id, refl)))
          ]
    ]

-- the last step changes the app's id at most
pub check_upstream-IsServed :
    (lacking : List String) (c : Config)
    → HasUpstream lacking c
    → Ensures
        (λ c'. IsServed c' × ((app : String) × (c' ≡ with_app_id c app)))
        (check_upstream lacking c)
unfolding check_upstream
check_upstream-IsServed lacking c h =
    Ensures-refuse_if (not (is_empty lacking)) _ ⟫ (λ _ none_missed.
      Ensures-refuse_if
        (not (c.upstream_mode == "mock") && not (is_valid_app_resource c.firebase_app_resource)) _
      ⟫ (λ _ valid. holds (served lacking c h none_missed valid)))

-- ===== src/Config/Values.antt =====
-- internal/config/config.go: the variables of the environment, and the parsers of their values.
pub mod Checks
pub mod Origins
use Prim.Native.String.{◌++◌}
use turnstile_appcheck_gatew.Prelude.{
  String, Bool, true, false, not, ◌&&◌, ◌||◌, Option, none, some, List, [], ◌∷◌, any, ◌==◌,
  if◌then◌else◌, ℤ, pos, leb_ℤ, ltb_ℤ,
}
use turnstile_appcheck_gatew.Prelude.Results.{Result, ok, err, ◌>>=◌, ◌>>◌, or_err, refuse_if}
use turnstile_appcheck_gatew.Dict.{Dict, lookup}
use turnstile_appcheck_gatew.GoStrings.{trim_space, split_byte, to_lower, atoi}
use turnstile_appcheck_gatew.Float.{Float64, lt_float, zero_rate, one_rate}
use turnstile_appcheck_gatew.Config.{Url, Parsers, LoadError, invalid, invalid_origin, Loaded}

abbrev pub Env : Type 0
Env = Dict String

-- env[key]
unfoldable pub env_get : Env → String → String
env_get env key = elim (lookup key env) [ none ↦ "" | some v ↦ v ]

unfoldable pub get_or_default : Env → String → String → String
get_or_default env key fallback = elim (lookup key env) [
  | none ↦ fallback
  | some value ↦ if trim_space value == "" then fallback else value
]

-- `if raw := strings.TrimSpace(env[key]); raw != "" { x, err = parse(key, raw) … }`, where x is
-- `current` before
unfoldable pub setting : {A : Type 0} → Env → String → (String → String → Loaded A) → A → Loaded A
unfolding env_get
setting env key parse current =
    let raw = trim_space (env_get env key) in if raw == "" then ok current else parse key raw

one_of : List String → String → Bool
one_of options s = any (λ o. o == s) options

-- strconv.ParseBool
unfoldable pub parse_bool : String → Option Bool
unfolding one_of
parse_bool s =
    if one_of ("1" ∷ "t" ∷ "T" ∷ "TRUE" ∷ "true" ∷ "True" ∷ []) s
    then some true
    else if one_of ("0" ∷ "f" ∷ "F" ∷ "FALSE" ∷ "false" ∷ "False" ∷ []) s
    then some false
    else none

-- `x, err = strconv.ParseBool(raw)`, and the error of loadFromMap
unfoldable pub bool_value : String → String → Loaded Bool
bool_value name raw = or_err (parse_bool raw) (invalid name raw)

-- a value that does not fail the test; an error otherwise, as for text that does not parse
unfoldable pub checked : {A : Type 0} → (A → Bool) → Option A → String → String → Loaded A
checked refuses parsed name raw = do
  value ← or_err parsed (invalid name raw)
  refuse_if (refuses value) (invalid name raw)
  ok value

unfoldable pub parse_positive_int : String → String → Loaded ℤ
unfolding checked
parse_positive_int name raw = checked (λ v. leb_ℤ v (pos 0)) (atoi raw) name raw

unfoldable pub parse_non_negative_int : String → String → Loaded ℤ
unfolding checked
parse_non_negative_int name raw = checked (λ v. ltb_ℤ v (pos 0)) (atoi raw) name raw

abbrev four_parts : List String → Option (String × String × String × String)
four_parts (a ∷ (b ∷ (c ∷ (d ∷ [])))) = some (a, b, c, d)
four_parts _ = none

-- strings.Split(resource, "/"), if it has four parts
unfoldable pub resource_parts : String → Option (String × String × String × String)
resource_parts resource = four_parts (split_byte b'/' resource)

unfoldable pub is_valid_app_resource : String → Bool
unfolding resource_parts
is_valid_app_resource resource = elim (resource_parts resource) [
  | none ↦ false
  | some (a, b, c, d) ↦ (a == "projects") && ((c == "apps") && (not (b == "") && not (d == "")))
]

unfoldable pub app_id_from_resource : String → String
unfolding resource_parts
app_id_from_resource resource = elim (resource_parts resource) [ none ↦ "" | some (a, b, c, d) ↦ d ]

-- the loop of parseCSV; `seen` are the keys so far
csv_from : List String → List String → List String
csv_from seen [] = []
csv_from seen (part ∷ parts) =
    let value = trim_space part in
    let key = to_lower value in
    let known = any (λ k. k == key) seen in
    let skip = (value == "") || known in
    let rest = csv_from (if skip then seen else key ∷ seen) parts in
    if skip then rest else value ∷ rest

unfoldable pub parse_csv : String → List String
unfolding csv_from
parse_csv raw = csv_from [] (split_byte b',' raw)

module _ (go : Parsers) where
  unfoldable pub parse_positive_duration : String → String → Loaded ℤ
  unfolding checked
  parse_positive_duration name raw = checked (λ v. leb_ℤ v (pos 0)) (go.parse_duration raw) name raw

  unfoldable pub parse_non_negative_duration : String → String → Loaded ℤ
  unfolding checked
  parse_non_negative_duration name raw =
      checked (λ v. ltb_ℤ v (pos 0)) (go.parse_duration raw) name raw

  unfoldable pub parse_sample_rate : String → String → Loaded Float64
  unfolding checked
  parse_sample_rate name raw =
      checked (λ v. lt_float v zero_rate || lt_float one_rate v) (go.parse_float raw) name raw

  unfoldable pub normalize_origin : String → Result String String
  normalize_origin raw = do
    u ← go.parse_url (trim_space raw)
    refuse_if (not (u.scheme == "https") && not (u.scheme == "http")) "scheme must be http or https"
    refuse_if (u.host == "") "missing host"
    refuse_if (not (u.path == "") && not (u.path == "/")) "path is not allowed"
    refuse_if (not (u.raw_query == "") || (not (u.fragment == "") || u.has_user))
        "origin must not include query, fragment or userinfo"
    ok (to_lower (u.scheme ++ ("://" ++ u.host)))

  -- the error of an origin, with the origin
  of_origin : String → Result String String → Loaded String
  of_origin v (ok origin) = ok origin
  of_origin v (err cause) = err (invalid_origin v cause)

  -- the loop of parseAllowedOrigins; `seen` are the origins so far
  origins_from : List String → List String → Loaded (List String)
  unfolding of_origin
  origins_from seen [] = ok []
  origins_from seen (part ∷ parts) =
      let v = trim_space part in
      let skipped = origins_from seen parts in
      let taken = (do
        normalized ← of_origin v (normalize_origin v)
        let known = any (λ k. k == normalized) seen
        rest ← origins_from (if known then seen else normalized ∷ seen) parts
        ok (if known then rest else normalized ∷ rest)) in
      if v == "" then skipped else taken

  unfoldable pub parse_allowed_origins : String → Loaded (List String)
  unfolding origins_from
  parse_allowed_origins raw = origins_from [] (split_byte b',' raw)

  -- what stands wrong with the service account, or its JSON
  unfoldable pub read_service_account_json : Env → Result String String
  unfolding env_get
  read_service_account_json env =
      let base64_value = trim_space (env_get env "GOOGLE_SERVICE_ACCOUNT_JSON_BASE64") in
      let raw = env_get env "GOOGLE_SERVICE_ACCOUNT_JSON" in
      if base64_value == ""
      then (do
        refuse_if (trim_space raw == "")
            "GOOGLE_SERVICE_ACCOUNT_JSON or GOOGLE_SERVICE_ACCOUNT_JSON_BASE64 is required"
        refuse_if (trim_space raw == "") "GOOGLE_SERVICE_ACCOUNT_JSON is empty"
        ok raw)
      else (do
        decoded ←
            or_err (go.decode_base64 base64_value)
              "GOOGLE_SERVICE_ACCOUNT_JSON_BASE64 is invalid base64"
        refuse_if (decoded == "") "GOOGLE_SERVICE_ACCOUNT_JSON_BASE64 is empty"
        ok decoded)

  -- Config.IsExchangeOriginAllowed, on AllowedExchangeOrigins
  unfoldable pub is_exchange_origin_allowed : List String → String → Bool
  is_exchange_origin_allowed [] origin = true
  is_exchange_origin_allowed (first ∷ more) origin =
      let trimmed = trim_space origin in
      if trimmed == "" then false else elim (normalize_origin trimmed) [
        | err cause ↦ false
        | ok normalized ↦ any (λ allowed. allowed == normalized) (first ∷ more)
      ]

-- ===== src/Middleware/Cors/Origins.antt =====
-- Which responses a browser may read.
use turnstile_appcheck_gatew.Prelude.{
  String, Bool, true, false, not, ◌||◌, ◌&&◌, List, [], ◌∷◌, Option, ◌==◌, if◌then◌else◌, ◌≡◌, refl,
  inl, inr, arith, Bool-cases, eq_refl,
}
use turnstile_appcheck_gatew.GoStrings.{trim_space, equal_fold}
use turnstile_appcheck_gatew.Http.{Request, Call, next, abort_status, get_header}
use turnstile_appcheck_gatew.Http.Header.{
  Header, values, set, values-set, values-add, canonical_key,
}
use turnstile_appcheck_gatew.Middleware.Cors.{
  varies_on, add_vary_header, allow_headers, refuses, exchange_cors,
}

abbrev pub origin_key : String
origin_key = "Access-Control-Allow-Origin"

abbrev Differs : String → Type 0
Differs key = (canonical_key key == canonical_key origin_key) ≡ false

vary-Differs : Differs "Vary"
unfolding canonical_key
vary-Differs = refl

methods-Differs : Differs "Access-Control-Allow-Methods"
unfolding canonical_key
methods-Differs = refl

headers-Differs : Differs "Access-Control-Allow-Headers"
unfolding canonical_key
headers-Differs = refl

set-Differs :
    (h : Header) (key v : String)
    → Differs key
    → values (set h key v) origin_key ≡ values h origin_key
set-Differs h key v d = rw (values-set h key origin_key v, d)

vary_keeps :
    (h : Header) (value : String)
    → values (add_vary_header h value) origin_key ≡ values h origin_key
unfolding add_vary_header
vary_keeps h value = elim (Bool-cases (varies_on value (values h "Vary"))) [
  | inl e ↦ rw e
  | inr e ↦ rw e (rw (values-add h "Vary" origin_key value, vary-Differs))
]

set_origin :
    (h : Header) (origin : String) → values (set h origin_key origin) origin_key ≡ origin ∷ []
set_origin h origin =
    rw (values-set h origin_key origin_key origin, eq_refl (canonical_key origin_key))

allow_headers_origin :
    (r : Request) (origin : String) (h : Header)
    → values (allow_headers r origin h) origin_key ≡ origin ∷ []
unfolding allow_headers
allow_headers_origin r origin h =
    elim (Bool-cases (trim_space (get_header r "Access-Control-Request-Headers") == "")) [
      | inl e ↦ rw e (
          rw (set-Differs _ _ _ headers-Differs, set-Differs _ _ _ methods-Differs)
            (set_origin _ origin))
      | inr e ↦ rw e (
          rw (set-Differs _ _ _ headers-Differs, vary_keeps, set-Differs _ _ _ methods-Differs)
            (set_origin _ origin))
    ]

-- an origin is sent, and it is allowed if there is a test for it
abbrev pub is_allowed : Option (String → Bool) → Request → Bool
is_allowed allowed r =
    let origin = trim_space (get_header r "Origin") in
    if origin == "" then false else not (refuses allowed origin)

-- A response names the request's own origin, alone, in `Access-Control-Allow-Origin` if an origin is
-- sent and allowed; in every other case the header stays what it was.
allow_origin :
    (allowed : Option (String → Bool)) (r : Request) (h : Header)
    → values (exchange_cors allowed r h).0 origin_key ≡ (
        if is_allowed allowed r
        then trim_space (get_header r "Origin") ∷ []
        else values h origin_key)
unfolding exchange_cors
allow_origin allowed r h = ground (
  arith,
  allow_headers_origin r (trim_space (get_header r "Origin")) h,
  vary_keeps (allow_headers r (trim_space (get_header r "Origin")) h)
      "Access-Control-Request-Method",
)

-- the request's method is POST, or it names none
abbrev pub asks_for_post : Request → Bool
asks_for_post r =
    let requested = trim_space (get_header r "Access-Control-Request-Method") in
    (requested == "") || equal_fold requested "POST"

-- the answer to a preflight, by what the request asks
abbrev pub preflight_status : Bool → Bool → List Call
preflight_status true post = abort_status (if post then 204 else 405) ∷ []
preflight_status false post = abort_status 403 ∷ []

-- An OPTIONS request with an origin is answered here, with 204 if its origin is allowed and it asks
-- for POST or for no method, 405 if it asks for another, and 403 if the origin is not allowed; every
-- other request is passed on to the handler, whatever its origin.
cors_call :
    (allowed : Option (String → Bool)) (r : Request) (h : Header)
    → (exchange_cors allowed r h).1 ≡ (
        if (r.method == "OPTIONS") && not (trim_space (get_header r "Origin") == "")
        then preflight_status (is_allowed allowed r) (asks_for_post r)
        else next ∷ [])
unfolding exchange_cors
cors_call allowed r h = ground arith

-- What the middleware does. It names the request's own origin, alone, in `Access-Control-Allow-Origin` if
-- an origin is sent and allowed, and leaves that header alone otherwise. It answers an OPTIONS request
-- with an origin, with 204 if the origin is allowed and POST or no method is asked for, 405 if another is,
-- and 403 if the origin is not allowed; it passes every other request on, whatever its origin.
pub exchange_cors_lem :
    (allowed : Option (String → Bool)) (r : Request) (h : Header)
    → (values (exchange_cors allowed r h).0 origin_key ≡ (
        if is_allowed allowed r
        then trim_space (get_header r "Origin") ∷ []
        else values h origin_key))
      × ((exchange_cors allowed r h).1 ≡ (
          if (r.method == "OPTIONS") && not (trim_space (get_header r "Origin") == "")
          then preflight_status (is_allowed allowed r) (asks_for_post r)
          else next ∷ []))
exchange_cors_lem allowed r h = (allow_origin allowed r h, cors_call allowed r h)

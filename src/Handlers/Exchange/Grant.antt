-- ===== src/Handlers/Exchange/Grant.antt =====
-- When the exchange handler gives a token away, and what it asks of the upstream services.
use turnstile_appcheck_gatew.Prelude.{
  ℕ, String, Bool, true, false, List, [], ◌∷◌, Option, none, some, ◌==◌, ltb, ◌≡◌, refl, ap, ◌↔◌,
  ◌⊎◌, inl, inr, arith, Bool-cases, Option-cases, ℤ,
}
use turnstile_appcheck_gatew.GoStrings.{len}
use turnstile_appcheck_gatew.Http.{
  Request, Call, Body, json, verify_turnstile, exchange_token, exchange_response, get_header,
}
use turnstile_appcheck_gatew.Http.Gin.{Gin}
use turnstile_appcheck_gatew.Audit.Event.{Event}
use turnstile_appcheck_gatew.Handlers.Audit.{record_audit, record_step, write_error}
use turnstile_appcheck_gatew.Handlers.Request.{
  ExchangeRequest, JsonDecoder, NetParsers, decode_json_strict, has_json_content_type,
}
use turnstile_appcheck_gatew.Handlers.Exchange.{
  ExchangeHandler, VerifyResponse, ExchangeResult, exchange_step, finish, after_verify,
  verify_request, with_request, decoded_request, handle_body, handle, origin_ok,
}

-- the JSON body sent last, with its status
abbrev pub response : List Call → Option (ℕ × Body)
response [] = none
response (json n b ∷ cs) = some (n, b)
response (c ∷ cs) = response cs

-- the calls of the upstream services, the latest first
abbrev pub upstream : List Call → List Call
upstream [] = []
upstream (verify_turnstile v ∷ cs) = verify_turnstile v ∷ upstream cs
upstream (exchange_token l ∷ cs) = exchange_token l ∷ upstream cs
upstream (c ∷ cs) = upstream cs

module _ (gin : Gin) (recording : Bool) where
  response-record_audit :
      (e : Event) (cs : List Call) → response (record_audit gin recording e cs) ≡ response cs
  unfolding record_audit
  response-record_audit e cs = ground arith

  upstream-record_audit :
      (e : Event) (cs : List Call) → upstream (record_audit gin recording e cs) ≡ upstream cs
  unfolding record_audit
  upstream-record_audit e cs = ground arith

-- What has to hold for a token to be given: the request is JSON from an allowed origin, its body
-- decodes to a token of 1 to 4096 bytes, Turnstile accepts that token for the client's address, and
-- Firebase exchanges it.
pub record IsGranted (decoder : JsonDecoder) (net : NetParsers) (h : ExchangeHandler) (r : Request)
    (t : String) (ms : ℤ) : Type 0 where
  pub content : has_json_content_type r ≡ true
  pub origin : origin_ok h.origin_allowed (get_header r "Origin") ≡ true
  pub req : ExchangeRequest
  pub decoded : decode_json_strict decoder r.body ≡ some req
  pub present : (req.turnstile_token == "") ≡ false
  pub short : ltb 4096 (len req.turnstile_token) ≡ false
  pub human : VerifyResponse
  pub verified : h.turnstile (verify_request net h r req) ≡ some human
  pub success : human.success ≡ true
  pub given : ExchangeResult
  pub exchanged : h.exchanger req.limited_use ≡ some given
  pub token : given.token ≡ t
  pub expires : given.expire_time_millis ≡ ms

module _ (gin : Gin) (recording : Bool) (decoder : JsonDecoder) (net : NetParsers)
    (h : ExchangeHandler) (r : Request) where
  abbrev pub Gives : String → ℤ → List Call → Type 0
  Gives t ms cs = response cs ≡ some (200, exchange_response t ms)

  finish_inv :
      (limited : Bool) (o : Option ExchangeResult) (t : String) (ms : ℤ) (cs : List Call)
      → Gives t ms (finish gin recording decoder net h r limited o cs)
      → (x : ExchangeResult) × (o ≡ some x) × (x.token ≡ t) × (x.expire_time_millis ≡ ms)
  unfolding finish write_error
  finish_inv limited none t ms cs e = cc
  finish_inv limited (some x) t ms cs e = (x, refl, cc, cc)

  after_verify_inv :
      (limited : Bool) (o : Option VerifyResponse) (t : String) (ms : ℤ) (cs : List Call)
      → Gives t ms (after_verify gin recording decoder net h r limited o cs)
      → (v : VerifyResponse) × (o ≡ some v)
        × (v.success ≡ true)
        × ((x : ExchangeResult) × (h.exchanger limited ≡ some x)
            × (x.token ≡ t)
            × (x.expire_time_millis ≡ ms))
  unfolding after_verify write_error
  after_verify_inv limited none t ms cs e = cc
  after_verify_inv limited (some v) t ms cs e = elim (Bool-cases v.success) [
    | inl s ↦ (v, refl, s, finish_inv limited _ t ms _ (rw s at e))
    | inr s ↦ cc (rw s at e)
  ]

  pub body_inv :
      (t : String) (ms : ℤ)
      → Gives t ms (handle_body gin recording decoder net h r []).1
      → IsGranted decoder net h r t ms
  unfolding handle_body decoded_request with_request write_error
  body_inv t ms e = elim (Bool-cases (has_json_content_type r)) [
    | inr c ↦ cc (rw c at e)
    | inl c ↦ elim (Bool-cases (origin_ok h.origin_allowed (get_header r "Origin"))) [
      | inr o ↦ cc (rw (c, o) at e)
      | inl o ↦ elim (Option-cases (decode_json_strict decoder r.body)) [
        | inl d ↦ cc (rw (c, o, d) at e)
        | inr (req, d) ↦ elim (Bool-cases (req.turnstile_token == "")) [
          | inl p ↦ cc (rw (c, o, d, p) at e)
          | inr p ↦ elim (Bool-cases (ltb 4096 (len req.turnstile_token))) [
            | inl l ↦ cc (rw (c, o, d, p, l) at e)
            | inr l ↦
                let (v, verified, success, (x, exchanged, token, expires)) =
                  after_verify_inv req.limited_use _ t ms _ (rw (c, o, d, p, l) at e) in
                record {
                  content = c;
                  origin = o;
                  req = req;
                  decoded = d;
                  present = p;
                  short = l;
                  human = v;
                  verified = verified;
                  success = success;
                  given = x;
                  exchanged = exchanged;
                  token = token;
                  expires = expires;
                }
          ]
        ]
      ]
    ]
  ]

  pub body-Gives :
      (t : String) (ms : ℤ)
      → IsGranted decoder net h r t ms
      → Gives t ms (handle_body gin recording decoder net h r []).1
  unfolding handle_body decoded_request with_request after_verify finish
  body-Gives t ms g =
      rw (g.content, g.origin, g.decoded, g.present, g.short, g.verified, g.success, g.exchanged)
        (rw (g.token, g.expires))

  handle-response :
      response (handle gin recording decoder net h r)
      ≡ response (handle_body gin recording decoder net h r []).1
  unfolding handle
  handle-response = response-record_audit gin recording _ _

  -- The response is status 200 with the token `t` and the expiry `ms` exactly if the request is JSON
  -- from an allowed origin, its body decodes to a token that is not empty and has at most 4096 bytes,
  -- Turnstile answers for that token and the client's address with success, and the exchange with the
  -- request's `limitedUse` returns `t` and `ms`.
  pub handle_grants_iff :
      (t : String) (ms : ℤ)
      → (response (handle gin recording decoder net h r) ≡ some (200, exchange_response t ms))
        ↔ IsGranted decoder net h r t ms
  handle_grants_iff t ms = rw handle-response (body_inv t ms, body-Gives t ms)

  -- The upstream calls that are allowed, the latest first: none; the verification of the decoded
  -- request of an allowed sender; or that and, if it succeeded, the exchange.
  abbrev pub IsGuarded : List Call → Type 0
  IsGuarded cs =
      (cs ≡ [])
      ⊎ ((req : ExchangeRequest) × (has_json_content_type r ≡ true)
          × (origin_ok h.origin_allowed (get_header r "Origin") ≡ true)
          × (decode_json_strict decoder r.body ≡ some req)
          × ((req.turnstile_token == "") ≡ false)
          × (ltb 4096 (len req.turnstile_token) ≡ false)
          × ((cs ≡ verify_turnstile (verify_request net h r req) ∷ [])
              ⊎ ((cs
                    ≡ exchange_token req.limited_use
                      ∷ verify_turnstile (verify_request net h r req)
                      ∷ [])
                  × ((v : VerifyResponse) × (h.turnstile (verify_request net h r req) ≡ some v)
                      × (v.success ≡ true)))))

  upstream-finish :
      (limited : Bool) (o : Option ExchangeResult) (cs : List Call)
      → upstream (finish gin recording decoder net h r limited o cs) ≡ upstream cs
  unfolding finish write_error exchange_step record_step
  upstream-finish limited none cs = upstream-record_audit gin recording _ cs
  upstream-finish limited (some x) cs = upstream-record_audit gin recording _ cs

  upstream-after_verify :
      (limited : Bool) (o : Option VerifyResponse) (cs : List Call)
      → (upstream (after_verify gin recording decoder net h r limited o cs) ≡ upstream cs)
        ⊎ ((upstream (after_verify gin recording decoder net h r limited o cs)
              ≡ exchange_token limited ∷ upstream cs)
            × ((v : VerifyResponse) × (o ≡ some v) × (v.success ≡ true)))
  unfolding after_verify write_error exchange_step record_step
  upstream-after_verify limited none cs = inl (upstream-record_audit gin recording _ cs)
  upstream-after_verify limited (some v) cs = elim (Bool-cases v.success) [
    | inl s ↦ inr (
      rw s (
          rw upstream-finish
            (ap (λ us. exchange_token limited ∷ us) (upstream-record_audit gin recording _ cs))),
      (v, refl, s),
    )
    | inr s ↦ inl (rw s (upstream-record_audit gin recording _ cs))
  ]

  body-IsGuarded : IsGuarded (upstream (handle_body gin recording decoder net h r []).1)
  unfolding handle_body decoded_request with_request write_error
  body-IsGuarded = elim (Bool-cases (has_json_content_type r)) [
    | inr c ↦ inl (rw c)
    | inl c ↦ elim (Bool-cases (origin_ok h.origin_allowed (get_header r "Origin"))) [
      | inr o ↦ inl (rw (c, o))
      | inl o ↦ elim (Option-cases (decode_json_strict decoder r.body)) [
        | inl d ↦ inl (rw (c, o, d))
        | inr (req, d) ↦ elim (Bool-cases (req.turnstile_token == "")) [
          | inl p ↦ inl (rw (c, o, d, p))
          | inr p ↦ elim (Bool-cases (ltb 4096 (len req.turnstile_token))) [
            | inl l ↦ inl (rw (c, o, d, p, l))
            | inr l ↦ inr (
              req,
              c,
              o,
              d,
              p,
              l,
              rw (c, o, d, p, l)
                  (upstream-after_verify req.limited_use (h.turnstile (verify_request net h r req))
                    (verify_turnstile (verify_request net h r req) ∷ [])),
            )
          ]
        ]
      ]
    ]
  ]

  -- Turnstile is asked at most once, and only about the token of a request that is JSON, of an allowed
  -- origin and well-formed; Firebase is asked at most once, with the request's `limitedUse`, and only
  -- after Turnstile answered that request with success.
  pub handle-IsGuarded : IsGuarded (upstream (handle gin recording decoder net h r))
  unfolding handle
  handle-IsGuarded = rw (upstream-record_audit gin recording) body-IsGuarded

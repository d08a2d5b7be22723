-- ===== src/Clients/Granted.antt =====
-- internal/turnstile/client.go, internal/firebaseappcheck/client.go and internal/handlers/exchange.go: what
-- the upstream services have answered when the exchange endpoint gives a token.
use turnstile_appcheck_gatew.Prelude.{
  ℕ, ◌≤◌, String, Bool, false, ◌||◌, Option, none, some, ◌==◌, ◌≡◌, refl, ltb, ℤ, arith,
}
use turnstile_appcheck_gatew.Prelude.Results.{
  Result, ok, err, Ensures, holds, fails, ◌⟫◌, Ensures-ok, or_err, Ensures-or_err,
  Ensures-refuse_if, Ensures-weaken,
}
use turnstile_appcheck_gatew.GoStrings.{trim_space, slice_to}
use turnstile_appcheck_gatew.Http.{Request, VerifyRequest, exchange_response}
use turnstile_appcheck_gatew.Http.Gin.{Gin}
use turnstile_appcheck_gatew.Handlers.Request.{JsonDecoder, NetParsers}
use turnstile_appcheck_gatew.Handlers.Exchange.{
  VerifyResponse, verify_request, ExchangeResult, ExchangeHandler, handle,
}
use turnstile_appcheck_gatew.Handlers.Exchange.Grant.{IsGranted, handle_grants_iff}
use turnstile_appcheck_gatew.Handlers.Exchange.Grant.{response}
use turnstile_appcheck_gatew.Clients.{Reply, HttpClient}
use turnstile_appcheck_gatew.Clients.Turnstile.{
  TurnstileClient, ClientError, body_limit, verify_post,
}
use turnstile_appcheck_gatew.Clients.Turnstile
use turnstile_appcheck_gatew.Clients.Firebase.{
  FirebaseClient, FirebaseParts, ExchangeReply, ExchangeError, Claims, custom_claims, exchange_url,
  exchange_post, by_expiry, by_ttl, parse_duration_to_millis, parse_jwt_expire_time_millis,
}
use turnstile_appcheck_gatew.Clients.Firebase

-- a result without its error
abbrev pub to_option : {E A : Type 0} → Result E A → Option A
to_option (ok a) = some a
to_option (err e) = none

is_2xx : (n : ℕ) → (ltb n 200 || ltb 299 n) ≡ false → (200 ≤ n) × (n ≤ 299)
is_2xx n h = ground arith

-- the value that an answer has
found : {E A : Type 0} (o : Option A) (e : E) → Ensures (λ a. o ≡ some a) (or_err o e)
found o e = Ensures-or_err o e (λ a h. h)

module _ (http : HttpClient) (parse : String → Option VerifyResponse) (c : TurnstileClient)
    (req : VerifyRequest) where
  -- Siteverify was asked for the request's token, and answered 2xx with this response
  pub record SaysSiteverify (v : VerifyResponse) : Type 0 where
    pub url : String
    pub reply : Reply
    pub body : String
    pub has_token : (trim_space req.token == "") ≡ false
    pub to : http.takes_url c.verify_url ≡ some url
    pub asked : http.send (record (verify_post c req) { url = url }) ≡ some reply
    pub read : reply.body ≡ some body
    pub parsed : parse (slice_to body body_limit) ≡ some v
    pub accepted : (200 ≤ reply.status_code) × (reply.status_code ≤ 299)

  verify-Ensures : Ensures SaysSiteverify (Turnstile.verify http parse c req)
  unfolding Turnstile.verify
  verify-Ensures = Ensures-refuse_if (trim_space req.token == "") _ ⟫ (λ _ t.
      found (http.takes_url c.verify_url) _ ⟫ (λ url u.
        found (http.send (record (verify_post c req) { url = url })) _ ⟫ (λ reply a.
          found reply.body _ ⟫ (λ body b. found (parse (slice_to body body_limit)) _ ⟫ (λ v p.
            Ensures-refuse_if (ltb reply.status_code 200 || ltb 299 reply.status_code) _ ⟫ (λ _ s.
              holds (record {
                url = url;
                reply = reply;
                body = body;
                has_token = t;
                to = u;
                asked = a;
                read = b;
                parsed = p;
                accepted = is_2xx reply.status_code s;
              })))))))

module _ (http : HttpClient) (parts : FirebaseParts) (c : FirebaseClient) (iat : ℕ) (now : ℤ)
    (limited_use : Bool) where
  -- Firebase was asked with a custom token for the client's app, and answered 2xx with the result's token
  pub record SaysFirebase (x : ExchangeResult) : Type 0 where
    pub claims : Claims
    pub custom_token : String
    pub access : String
    pub payload : String
    pub url : String
    pub reply : Reply
    pub body : String
    pub parsed : ExchangeReply
    pub for_app : claims.app_id ≡ c.app_id
    pub signed : parts.sign claims ≡ some custom_token
    pub authorised : parts.access_token ≡ some access
    pub printed : parts.print_request custom_token limited_use ≡ some payload
    pub to : http.takes_url (exchange_url c) ≡ some url
    pub asked : http.send (exchange_post url access payload) ≡ some reply
    pub read : reply.body ≡ some body
    pub accepted : (200 ≤ reply.status_code) × (reply.status_code ≤ 299)
    pub answered : parts.parse_reply (slice_to body body_limit) ≡ some parsed
    pub has_token : (trim_space parsed.token == "") ≡ false
    pub same_token : x.token ≡ parsed.token

  claims-Ensures :
      Ensures
        (λ claims. claims.app_id ≡ c.app_id)
        (custom_claims c.private_key_email c.app_id iat c.ttl_millis)
  unfolding custom_claims
  claims-Ensures =
      Ensures-refuse_if (c.private_key_email == "") _
      ⟫ (λ _ _. Ensures-refuse_if (c.app_id == "") _ ⟫ (λ _ _. holds refl))

  expiry-Ensures :
      (token : String) (exp : Option ℤ) → Ensures (λ x. x.token ≡ token) (by_expiry now token exp)
  unfolding by_expiry
  expiry-Ensures token none = fails
  expiry-Ensures token (some exp) = holds refl

  result-Ensures :
      (token : String) (ttl : Option ℤ)
      → Ensures (λ x. x.token ≡ token) (by_ttl parts now token ttl)
  unfolding by_ttl
  result-Ensures token none = expiry-Ensures token (parse_jwt_expire_time_millis parts token)
  result-Ensures token (some ttl) = holds refl

  exchange-Ensures : Ensures SaysFirebase (Firebase.exchange http parts c iat now limited_use)
  unfolding Firebase.exchange
  exchange-Ensures = claims-Ensures ⟫ (λ claims a. found (parts.sign claims) _ ⟫ (λ custom s.
      found parts.access_token _ ⟫ (λ access k.
        found (parts.print_request custom limited_use) _ ⟫ (λ payload p.
          found (http.takes_url (exchange_url c)) _ ⟫ (λ url u.
            found (http.send (exchange_post url access payload)) _ ⟫ (λ reply q.
              found reply.body _ ⟫ (λ body b.
                Ensures-refuse_if (ltb reply.status_code 200 || ltb 299 reply.status_code) _
                ⟫ (λ _ n. found (parts.parse_reply (slice_to body body_limit)) _ ⟫ (λ parsed r.
                    Ensures-refuse_if (trim_space parsed.token == "") _ ⟫ (λ _ t.
                      Ensures-weaken
                        (result-Ensures parsed.token (parse_duration_to_millis parts parsed.ttl))
                        (λ x same. record {
                          claims = claims;
                          custom_token = custom;
                          access = access;
                          payload = payload;
                          url = url;
                          reply = reply;
                          body = body;
                          parsed = parsed;
                          for_app = a;
                          signed = s;
                          authorised = k;
                          printed = p;
                          to = u;
                          asked = q;
                          read = b;
                          accepted = is_2xx reply.status_code n;
                          answered = r;
                          has_token = t;
                          same_token = same;
                        })))))))))))

of_to_option : {E A : Type 0} (r : Result E A) {a : A} → to_option r ≡ some a → r ≡ ok a
of_to_option (ok b) h = cc
of_to_option (err e) h = cc

module _ (http : HttpClient) (parse : String → Option VerifyResponse) (tc : TurnstileClient)
    (parts : FirebaseParts) (fc : FirebaseClient) (iat : ℕ) (now : ℤ) where
  -- the handler with the two clients
  abbrev pub with_clients : ExchangeHandler → ExchangeHandler
  with_clients h = record h {
    turnstile = λ req. to_option (Turnstile.verify http parse tc req);
    exchanger = λ limited_use. to_option (Firebase.exchange http parts fc iat now limited_use);
  }

  -- With the two clients as the handler's upstreams, the exchange endpoint answers 200 with a token and its
  -- expiry only if the request passes the handler's checks, Siteverify was asked for the request's token
  -- and answered 2xx with the response that accepts it, and Firebase was asked with a custom token for
  -- the client's app and answered 2xx with the token that the caller gets.
  pub granted_by_upstreams :
      (gin : Gin) (recording : Bool) (decoder : JsonDecoder) (net : NetParsers)
      (h : ExchangeHandler) (r : Request) (t : String) (ms : ℤ)
      → response (handle gin recording decoder net (with_clients h) r)
        ≡ some (200, exchange_response t ms)
      → (g : IsGranted decoder net (with_clients h) r t ms) × SaysSiteverify http parse tc
          (verify_request net (with_clients h) r g.req)
          g.human
        × SaysFirebase http parts fc iat now g.req.limited_use g.given
  granted_by_upstreams gin recording decoder net h r t ms e =
      let g = (handle_grants_iff gin recording decoder net (with_clients h) r t ms).0 e in
      (
        g,
        Ensures-ok (verify-Ensures http parse tc (verify_request net (with_clients h) r g.req))
            (of_to_option _ g.verified),
        Ensures-ok (exchange-Ensures http parts fc iat now g.req.limited_use)
            (of_to_option _ g.exchanged),
      )

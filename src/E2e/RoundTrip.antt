-- ===== src/E2e/RoundTrip.antt =====
-- The two endpoints together, with the upstream services of the end-to-end tests.
use turnstile_appcheck_gatew.Prelude.{
  String, Bool, true, false, some, ◌==◌, ℤ, ◌≡◌, ◌∙◌, sym, arith, eq_iff, eq_refl,
}
use turnstile_appcheck_gatew.Http.{Request, VerifyRequest, exchange_response, get_header}
use turnstile_appcheck_gatew.Http.Gin.{Gin}
use turnstile_appcheck_gatew.Audit.Event.{Time}
use turnstile_appcheck_gatew.Handlers.Request.{
  ExchangeRequest, JsonDecoder, NetParsers, decode_json_strict,
}
use turnstile_appcheck_gatew.Handlers.Exchange
use turnstile_appcheck_gatew.Handlers.Exchange.{
  ExchangeHandler, VerifyResponse, ExchangeResult, verify_request,
}
use turnstile_appcheck_gatew.Handlers.Exchange.Grant.{response, handle_grants_iff}
use turnstile_appcheck_gatew.Handlers.Verify
use turnstile_appcheck_gatew.Handlers.Verify.{VerifyHandler}
use turnstile_appcheck_gatew.Handlers.Verify.Contract.{handle-status}
use turnstile_appcheck_gatew.E2e.{E2eConfig, mock_turnstile, mock_exchanger, mock_verifier}

-- the exchange handler with the mocks
abbrev pub mock_handler : E2eConfig → ℤ → Time → ExchangeHandler → ExchangeHandler
mock_handler cfg ttl now h = record h {
  turnstile = mock_turnstile cfg;
  exchanger = mock_exchanger cfg ttl now;
}

passed :
    (cfg : E2eConfig) (req : VerifyRequest) (v : VerifyResponse)
    → mock_turnstile cfg req ≡ some v
    → v.success ≡ true
    → req.token ≡ cfg.turnstile_pass_token
unfolding mock_turnstile
passed cfg req v h s = ground (arith, eq_iff req.token cfg.turnstile_pass_token)

given_token :
    (cfg : E2eConfig) (ttl : ℤ) (now : Time) (limited : Bool) (x : ExchangeResult)
    → mock_exchanger cfg ttl now limited ≡ some x
    → x.token ≡ cfg.app_check_token
unfolding mock_exchanger
given_token cfg ttl now limited x h = cc

verify_given :
    (gin : Gin) (recording : Bool) (cfg : E2eConfig) (h : VerifyHandler) (r : Request)
    → get_header r h.header_name ≡ cfg.app_check_token
    → (cfg.app_check_token == "") ≡ false
    → gin.writer_status (Verify.handle gin recording (mock_verifier cfg) h r) ≡ h.success_status
unfolding mock_verifier
verify_given gin recording cfg h r e n =
    handle-status gin (mock_verifier cfg) h r recording
    ∙ rw e (rw n (rw (eq_refl cfg.app_check_token)))

-- With the mocks, and if the configured App Check token is not empty: whenever the exchange endpoint
-- gives a token, the request carried the configured Turnstile token, and the verify endpoint answers
-- a request with the given token with its success status.
pub exchange_verify :
    (gin : Gin) (recording : Bool) (decoder : JsonDecoder) (net : NetParsers) (cfg : E2eConfig)
    (ttl : ℤ) (now : Time) (h : ExchangeHandler) (v : VerifyHandler) (r r' : Request) (t : String)
    (ms : ℤ)
    → (cfg.app_check_token == "") ≡ false
    → response (Exchange.handle gin recording decoder net (mock_handler cfg ttl now h) r)
      ≡ some (200, exchange_response t ms)
    → get_header r' v.header_name ≡ t
    → ((req : ExchangeRequest) × (decode_json_strict decoder r.body ≡ some req)
        × (req.turnstile_token ≡ cfg.turnstile_pass_token))
      × (gin.writer_status (Verify.handle gin recording (mock_verifier cfg) v r')
          ≡ v.success_status)
unfolding verify_request
exchange_verify gin recording decoder net cfg ttl now h v r r' t ms n answered carries =
    let g =
      (handle_grants_iff gin recording decoder net (mock_handler cfg ttl now h) r t ms).0
        answered in
    let token = sym g.token ∙ given_token cfg ttl now g.req.limited_use g.given g.exchanged in
    (
      (
        g.req,
        g.decoded,
        passed cfg (verify_request net (mock_handler cfg ttl now h) r g.req) g.human g.verified
            g.success,
      ),
      verify_given gin recording cfg v r' (carries ∙ token) n,
    )

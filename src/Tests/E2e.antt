-- ===== src/Tests/E2e.antt =====
-- The two endpoints of internal/handlers with the mocks of internal/e2e/mock.go.
use turnstile_appcheck_gatew.Prelude.{false, [], ◌∷◌, none, some, ◌==◌, pos, ◌≡◌, refl}
use turnstile_appcheck_gatew.GoStrings.{trim_space, to_lower, has_prefix, slice_to, len}
use turnstile_appcheck_gatew.Dict.{lookup}
use turnstile_appcheck_gatew.Http.{Request, get_header}
use turnstile_appcheck_gatew.Http.Header
use turnstile_appcheck_gatew.Http.Gin.{plain_gin}
use turnstile_appcheck_gatew.Handlers.Request.{
  ExchangeRequest, JsonDecoder, NetParsers, eof, decode_json_strict, has_json_content_type,
}
use turnstile_appcheck_gatew.Handlers.Exchange
use turnstile_appcheck_gatew.Handlers.Exchange.{ExchangeHandler, verify_request}
use turnstile_appcheck_gatew.Handlers.Verify
use turnstile_appcheck_gatew.Handlers.Verify.{VerifyHandler}
use turnstile_appcheck_gatew.E2e.{
  E2eConfig, mock_turnstile, mock_exchanger, mock_verifier, mock_ttl,
}
use turnstile_appcheck_gatew.E2e.RoundTrip.{exchange_verify}

abbrev tokens : E2eConfig
tokens = record {
  turnstile_pass_token = "pass";
  turnstile_fail_token = "fail";
  app_check_token = "valid";
  app_check_app_id = "app-1";
}

abbrev asking : Request
asking = record {
  method = "POST";
  path = "/api/v1/exchange";
  headers = ("Content-Type", "application/json" ∷ []) ∷ [];
  remote_addr = "10.0.0.7:4711";
  body = "pass";
  full_path = "/api/v1/exchange";
  client_ip = "10.0.0.7";
}

abbrev showing : Request
showing = record asking { method = "GET"; headers = ("X-Firebase-Appcheck", "valid" ∷ []) ∷ [] }

-- the body is the token
abbrev plain_decoder : JsonDecoder
plain_decoder = record {
  decode = λ body. some (record { turnstile_token = body; limited_use = false });
  rest = λ body. eof;
}

abbrev no_net : NetParsers
no_net = record { is_ip = λ s. s == "10.0.0.7"; split_host = λ s. none }

abbrev open_handler : ExchangeHandler
open_handler = record {
  turnstile = λ v. none;
  exchanger = λ limited. none;
  trust_proxy_headers = false;
  origin_allowed = none;
}

abbrev checking : VerifyHandler
checking = record {
  header_name = "X-Firebase-AppCheck";
  success_status = 204;
  failure_status = 401;
}

exchange_verify_example :
    ((req : ExchangeRequest) × (decode_json_strict plain_decoder "pass" ≡ some req)
      × (req.turnstile_token ≡ "pass"))
    × (plain_gin.writer_status
          (Verify.handle plain_gin false (mock_verifier tokens) checking showing)
        ≡ 204)
unfolding mock_turnstile mock_exchanger mock_ttl get_header Header.get lookup Header.canonical_key
    trim_space to_lower has_prefix slice_to len decode_json_strict has_json_content_type
    Exchange.handle
exchange_verify_example =
    exchange_verify plain_gin false plain_decoder no_net tokens (pos 0) 62135596800000000000
      open_handler checking asking showing "valid" (pos 1800000) refl refl refl

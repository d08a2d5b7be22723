-- ===== src/Tests/Handlers.antt =====
-- The handlers of internal/handlers, on one request each.
use turnstile_appcheck_gatew.Prelude.{
  String, true, false, [], ◌∷◌, none, some, ◌==◌, if◌then◌else◌, ◌≡◌, ◌↔◌, ℤ, pos,
}
use turnstile_appcheck_gatew.Http.{Request, exchange_response}
use turnstile_appcheck_gatew.Http.Gin.{plain_gin}
use turnstile_appcheck_gatew.Audit.Event.{result_success}
use turnstile_appcheck_gatew.Handlers.Verify.{VerifyHandler, Verdict, rejected, decoded}
use turnstile_appcheck_gatew.Handlers.Verify
use turnstile_appcheck_gatew.Handlers.Verify.Contract.{
  verdict, headers_for, set_headers, recorded, trail_for, result_for, handle_lem, status_for,
}
use turnstile_appcheck_gatew.Handlers.Request.{JsonDecoder, NetParsers, eof}
use turnstile_appcheck_gatew.Handlers.Exchange.{ExchangeHandler, VerifyResponse, ExchangeResult}
use turnstile_appcheck_gatew.Handlers.Exchange
use turnstile_appcheck_gatew.Handlers.Exchange.Grant.{
  response, upstream, IsGranted, IsGuarded, handle_grants_iff, handle-IsGuarded,
}
use turnstile_appcheck_gatew.Handlers.Exchange.Trail.{latest_event, handle_trail}

abbrev verify_call : Request
verify_call = record {
  method = "GET";
  path = "/api/v1/verify";
  headers = ("X-Firebase-Appcheck", "good" ∷ []) ∷ [];
  remote_addr = "10.0.0.7:4711";
  body = "";
  full_path = "/api/v1/verify";
  client_ip = "10.0.0.7";
}

abbrev verify_handler : VerifyHandler
verify_handler = record {
  header_name = "X-Firebase-AppCheck";
  success_status = 204;
  failure_status = 401;
}

abbrev accepts_good : String → Verdict
accepts_good token = if token == "good" then decoded (some "app-1") else rejected

handle_lem_example :
    (plain_gin.writer_status (Verify.handle plain_gin true accepts_good verify_handler verify_call)
      ≡ status_for verify_handler (verdict plain_gin accepts_good verify_handler verify_call))
    × (set_headers (Verify.handle plain_gin true accepts_good verify_handler verify_call)
        ≡ headers_for (verdict plain_gin accepts_good verify_handler verify_call))
    × (recorded (Verify.handle plain_gin true accepts_good verify_handler verify_call)
        ≡ trail_for verify_handler (verdict plain_gin accepts_good verify_handler verify_call))
handle_lem_example = handle_lem plain_gin accepts_good verify_handler verify_call

abbrev exchange_call : Request
exchange_call = record {
  method = "POST";
  path = "/api/v1/exchange";
  headers = ("Content-Type", "application/json" ∷ []) ∷ ("Origin", "https://app.example" ∷ []) ∷ [];
  remote_addr = "10.0.0.7:4711";
  body = "one request";
  full_path = "/api/v1/exchange";
  client_ip = "10.0.0.7";
}

abbrev one_decoder : JsonDecoder
one_decoder = record {
  decode = λ body.
      if body == "one request"
      then some (record { turnstile_token = "human"; limited_use = true })
      else none;
  rest = λ body. eof;
}

abbrev one_net : NetParsers
one_net = record { is_ip = λ s. s == "10.0.0.7"; split_host = λ s. some "10.0.0.7" }

abbrev exchange_handler : ExchangeHandler
exchange_handler = record {
  turnstile = λ v. some (record { success = v.token == "human"; error_codes = [] });
  exchanger = λ limited.
      some (record { token = "app-check"; expire_time_millis = pos 3600; ttl_millis = pos 3600 });
  trust_proxy_headers = false;
  origin_allowed = some λ origin. origin == "https://app.example";
}

handle_grants_iff_example :
    (response (Exchange.handle plain_gin true one_decoder one_net exchange_handler exchange_call)
      ≡ some (200, exchange_response "app-check" (pos 3600)))
    ↔ IsGranted one_decoder one_net exchange_handler exchange_call "app-check" (pos 3600)
handle_grants_iff_example =
    handle_grants_iff plain_gin true one_decoder one_net exchange_handler exchange_call "app-check"
      (pos 3600)

handle-IsGuarded_example :
    IsGuarded plain_gin true one_decoder one_net exchange_handler exchange_call
      (upstream (Exchange.handle plain_gin true one_decoder one_net exchange_handler exchange_call))
handle-IsGuarded_example =
    handle-IsGuarded plain_gin true one_decoder one_net exchange_handler exchange_call

handle_trail_example :
    let calls = Exchange.handle plain_gin true one_decoder one_net exchange_handler exchange_call in
    let s = plain_gin.writer_status calls in
    (latest_event calls ≡ some ("exchange.request", result_for s, s))
    × ((result_for s ≡ result_success) ↔ (
        (t : String) × (ms : ℤ) × IsGranted one_decoder one_net exchange_handler exchange_call t
          ms))
handle_trail_example = handle_trail plain_gin one_decoder one_net exchange_handler exchange_call

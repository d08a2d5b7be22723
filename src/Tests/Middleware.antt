-- ===== src/Tests/Middleware.antt =====
-- The middleware of internal/middleware, on a few calls.
use turnstile_appcheck_gatew.Prelude.{
  String, Bool, [], ◌∷◌, Option, some, ◌==◌, not, ◌&&◌, if◌then◌else◌, ◌≡◌, arith,
}
use turnstile_appcheck_gatew.GoStrings.{trim_space}
use turnstile_appcheck_gatew.Http.{Request, next, get_header}
use turnstile_appcheck_gatew.Http.Header.{Header, values}
use turnstile_appcheck_gatew.Middleware.RateLimit.{zero_entry}
use turnstile_appcheck_gatew.Middleware.RateLimit.Window.{
  Calls, answers, spec_answers, prune_transparent,
}
use turnstile_appcheck_gatew.Middleware.Cors.{exchange_cors}
use turnstile_appcheck_gatew.Middleware.Cors.Origins.{
  is_allowed, exchange_cors_lem, asks_for_post, preflight_status, origin_key,
}

-- two clients; the window is ten nanoseconds
abbrev four_calls : Calls
four_calls = ("a", 5) ∷ ("a", 6) ∷ ("b", 12) ∷ ("a", 14) ∷ []

prune_transparent_example :
    answers (record { window = 10; entries = [] }) 1 four_calls
    ≡ spec_answers 10 1 (λ key. zero_entry) four_calls
prune_transparent_example =
    prune_transparent 10 1 four_calls (omega arith)
      (omega arith, (omega arith, (omega arith, (omega arith, tt))))

abbrev preflight : Request
preflight = record {
  method = "OPTIONS";
  path = "/api/v1/exchange";
  headers =
      ("Origin", "https://app.example" ∷ []) ∷ ("Access-Control-Request-Method", "POST" ∷ []) ∷ [];
  remote_addr = "10.0.0.7:4711";
  body = "";
  full_path = "/api/v1/exchange";
  client_ip = "10.0.0.7";
}

abbrev allows_app : Option (String → Bool)
allows_app = some λ origin. origin == "https://app.example"

abbrev no_header : Header
no_header = []

exchange_cors_lem_example :
    (values (exchange_cors allows_app preflight no_header).0 origin_key ≡ (
      if is_allowed allows_app preflight
      then trim_space (get_header preflight "Origin") ∷ []
      else values no_header origin_key))
    × ((exchange_cors allows_app preflight no_header).1 ≡ (
        if (preflight.method == "OPTIONS") && not (trim_space (get_header preflight "Origin") == "")
        then preflight_status (is_allowed allows_app preflight) (asks_for_post preflight)
        else next ∷ []))
exchange_cors_lem_example = exchange_cors_lem allows_app preflight no_header

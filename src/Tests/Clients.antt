-- ===== src/Tests/Clients.antt =====
-- The exchange endpoint with the two clients, whose upstream services answer one request each.
use turnstile_appcheck_gatew.Prelude.{
  String, true, false, [], ◌∷◌, Option, none, some, ◌==◌, if◌then◌else◌, ◌≡◌, refl, pos, ◌+ℤ◌,
}
use turnstile_appcheck_gatew.GoStrings.{trim_space, to_lower, has_prefix, len, slice_to}
use turnstile_appcheck_gatew.Dict.{lookup}
use turnstile_appcheck_gatew.Http.Header.{canonical_key}
use turnstile_appcheck_gatew.Http.Header
use turnstile_appcheck_gatew.Http.{Request, exchange_response, get_header}
use turnstile_appcheck_gatew.Http.Gin.{plain_gin}
use turnstile_appcheck_gatew.Handlers.Exchange.{
  VerifyResponse, ExchangeHandler, handle, verify_request,
}
use turnstile_appcheck_gatew.Handlers.Exchange.Grant.{response, IsGranted, handle_grants_iff}
use turnstile_appcheck_gatew.Handlers.Request.{
  JsonDecoder, NetParsers, eof, decode_json_strict, has_json_content_type, extract_remote_ip,
}
use turnstile_appcheck_gatew.Clients.{HttpClient}
use turnstile_appcheck_gatew.Clients.Turnstile.{TurnstileClient, verify}
use turnstile_appcheck_gatew.Clients.Firebase.{FirebaseClient, FirebaseParts, exchange}
use turnstile_appcheck_gatew.Clients.Granted.{
  with_clients, SaysSiteverify, SaysFirebase, granted_by_upstreams,
}

abbrev siteverify : String
siteverify = "https://challenges.example/siteverify"

abbrev internet : HttpClient
internet = record {
  takes_url = λ url. some url;
  send = λ post. some (record {
    status_code = 200;
    body = some (if post.url == siteverify then "human" else "token");
  });
}

abbrev read_human : String → Option VerifyResponse
read_human body = some (record { success = body == "human"; error_codes = [] })

abbrev turnstile_client : TurnstileClient
turnstile_client = record { secret_key = "secret"; verify_url = siteverify }

abbrev firebase_client : FirebaseClient
firebase_client = record {
  private_key_email = "robot@project.example";
  app_resource = "projects/1/apps/2";
  app_id = "2";
  ttl_millis = some 1800000;
}

abbrev firebase_parts : FirebaseParts
firebase_parts = record {
  sign = λ claims. some claims.app_id;
  access_token = some "access";
  print_request = λ custom limited. some custom;
  parse_reply = λ body. some (record { token = body; ttl = "3600s" });
  parse_error = λ body. none;
  parse_duration = λ s. some (pos 3600000000000);
  token_exp = λ s. none;
}

abbrev call : Request
call = record {
  method = "POST";
  path = "/api/v1/exchange";
  headers = ("Content-Type", "application/json" ∷ []) ∷ [];
  remote_addr = "10.0.0.7:4711";
  body = "one request";
  full_path = "/api/v1/exchange";
  client_ip = "10.0.0.7";
}

abbrev decoder : JsonDecoder
decoder = record {
  decode = λ body. some (record { turnstile_token = "human"; limited_use = true });
  rest = λ body. eof;
}

abbrev net : NetParsers
net = record { is_ip = λ s. s == "10.0.0.7"; split_host = λ s. some "10.0.0.7" }

abbrev base : ExchangeHandler
base = record {
  turnstile = λ v. none;
  exchanger = λ limited. none;
  trust_proxy_headers = false;
  origin_allowed = none;
}

abbrev handler : ExchangeHandler
handler =
    with_clients internet read_human turnstile_client firebase_parts firebase_client 5 (pos 5000)
      base

given : IsGranted decoder net handler call "token" (pos 5000 +ℤ pos 3600000)
unfolding decode_json_strict has_json_content_type get_header verify exchange verify_request
    extract_remote_ip trim_space to_lower Header.get lookup canonical_key has_prefix len slice_to
given = record {
  content = refl;
  origin = refl;
  req = record { turnstile_token = "human"; limited_use = true };
  decoded = refl;
  present = refl;
  short = refl;
  human = record { success = true; error_codes = [] };
  verified = refl;
  success = refl;
  given = record {
    token = "token";
    expire_time_millis = pos 5000 +ℤ pos 3600000;
    ttl_millis = pos 3600000;
  };
  exchanged = refl;
  token = refl;
  expires = refl;
}

answered :
    response (handle plain_gin true decoder net handler call)
    ≡ some (200, exchange_response "token" (pos 5000 +ℤ pos 3600000))
answered =
    (handle_grants_iff plain_gin true decoder net handler call "token" (pos 5000 +ℤ pos 3600000)).1
      given

granted_by_upstreams_example :
    (g : IsGranted decoder net handler call "token" (pos 5000 +ℤ pos 3600000)) × SaysSiteverify
      internet read_human turnstile_client
      (verify_request net handler call g.req)
      g.human
    × SaysFirebase internet firebase_parts firebase_client 5 (pos 5000) g.req.limited_use g.given
granted_by_upstreams_example =
    granted_by_upstreams internet read_human turnstile_client firebase_parts firebase_client 5
      (pos 5000) plain_gin true decoder net base call "token" (pos 5000 +ℤ pos 3600000) answered

-- ===== src/Handlers/Exchange.antt =====
-- internal/handlers/exchange.go: a Turnstile token for an App Check token.
pub mod Grant
pub mod Trail
use Prim.Native.String.{◌++◌}
use turnstile_appcheck_gatew.Prelude.{
  ℕ, String, Bool, true, false, not, List, [], ◌∷◌, Option, none, some, ◌==◌, if◌then◌else◌, ltb, ℤ,
}
use turnstile_appcheck_gatew.GoStrings.{len}
use turnstile_appcheck_gatew.Http.{
  Request, VerifyRequest, Call, json, verify_turnstile, exchange_token, exchange_response,
  get_header,
}
use turnstile_appcheck_gatew.Http.Gin.{Gin}
use turnstile_appcheck_gatew.Audit.Event.{
  Metadata, MetaValue, text, flag, other, result_success, result_failure,
}
use turnstile_appcheck_gatew.Handlers.Audit.{
  ApiError, record_audit, request_audit_event, record_step, write_error,
}
use turnstile_appcheck_gatew.Handlers.Request.{
  ExchangeRequest, JsonDecoder, NetParsers, decode_json_strict, has_json_content_type,
  extract_remote_ip,
}

-- turnstile.VerifyResponse, the fields that the handler reads
pub record VerifyResponse : Type 0 where
  pub success : Bool
  pub error_codes : List String

-- firebaseappcheck.ExchangeResult
pub record ExchangeResult : Type 0 where
  pub token : String
  pub expire_time_millis : ℤ
  pub ttl_millis : ℤ

-- The handler's fields. `none` is a nil function, and an upstream's `none` an error.
pub record ExchangeHandler : Type 0 where
  pub turnstile : VerifyRequest → Option VerifyResponse
  pub exchanger : Bool → Option ExchangeResult
  pub trust_proxy_headers : Bool
  pub origin_allowed : Option (String → Bool)

-- fmt.Sprint of a []string
spaced : List String → String
spaced [] = ""
spaced (s ∷ []) = s
spaced (s ∷ t ∷ more) = s ++ (" " ++ spaced (t ∷ more))

sprint_list : List String → String
unfolding spaced
sprint_list parts = "[" ++ (spaced parts ++ "]")

abbrev bad_request : String → String → ApiError
bad_request code message = record { status = 400; code = code; message = message }

abbrev turnstile_metadata : Bool → Metadata
turnstile_metadata limited = ("service", text "turnstile") ∷ ("limitedUse", flag limited) ∷ []

abbrev appcheck_metadata : Bool → Metadata
appcheck_metadata limited =
    ("service", text "firebase_appcheck") ∷ ("limitedUse", flag limited) ∷ []

abbrev origin_ok : Option (String → Bool) → String → Bool
origin_ok none origin = true
origin_ok (some allows) origin = allows origin

-- what is asked of Turnstile
unfoldable pub verify_request :
    NetParsers → ExchangeHandler → Request → ExchangeRequest → VerifyRequest
verify_request net h r req = record {
  token = req.turnstile_token;
  remote_ip = extract_remote_ip net h.trust_proxy_headers r;
}

module _ (gin : Gin) (recording : Bool) (decoder : JsonDecoder) (net : NetParsers)
    (h : ExchangeHandler) (r : Request) where
  exchange_step : String → ℕ → String → String → String → Metadata → List Call → List Call
  unfolding record_step
  exchange_step = record_step gin recording r

  -- after Exchanger.Exchange
  finish : Bool → Option ExchangeResult → List Call → List Call
  unfolding exchange_step write_error
  finish limited none calls =
      write_error
        (record {
          status = 502;
          code = "FIREBASE_EXCHANGE_FAILED";
          message = "Failed to exchange App Check token";
        })
        (exchange_step "appcheck.exchange" 502 result_failure "firebase_exchange_failed"
          "Firebase App Check custom token exchange failed" (appcheck_metadata limited) calls)
  finish limited (some exchanged) calls =
      json 200 (exchange_response exchanged.token exchanged.expire_time_millis)
      ∷ exchange_step "appcheck.exchange" 200 result_success ""
          "Firebase App Check token exchange succeeded" (appcheck_metadata limited) calls

  -- after Verifier.Verify
  after_verify : Bool → Option VerifyResponse → List Call → List Call
  unfolding exchange_step write_error finish sprint_list
  after_verify limited none calls =
      write_error
        (record {
          status = 502;
          code = "TURNSTILE_UPSTREAM_ERROR";
          message = "Failed to validate Turnstile token";
        })
        (exchange_step "turnstile.verify" 502 result_failure "turnstile_upstream_error"
          "Turnstile verification failed" (turnstile_metadata limited) calls)
  after_verify limited (some response) calls =
      if not response.success
      then write_error
          (bad_request "TURNSTILE_VALIDATION_FAILED" "Turnstile token is invalid or expired")
          (exchange_step "turnstile.verify" 400 result_failure "turnstile_validation_failed"
            "Turnstile token rejected"
            (("service", text "turnstile")
              ∷ ("limitedUse", flag limited)
              ∷ ("errorCodes", other (sprint_list response.error_codes))
              ∷ [])
            calls)
      else finish limited (h.exchanger limited) (
          exchange_token limited
          ∷ exchange_step "turnstile.verify" 200 result_success "" "Turnstile token verified"
              (turnstile_metadata limited) calls)

  -- after the body is decoded; the first result is `limitedUse` at the return
  with_request : ExchangeRequest → List Call → Bool × List Call
  unfolding after_verify verify_request write_error
  with_request req calls =
      if req.turnstile_token == ""
      then (
        false,
        write_error (bad_request "TURNSTILE_TOKEN_REQUIRED" "turnstileToken is required") calls,
      )
      else if ltb 4096 (len req.turnstile_token)
      then (
        req.limited_use,
        write_error (bad_request "TURNSTILE_TOKEN_TOO_LARGE" "turnstileToken is too large") calls,
      )
      else (
        req.limited_use,
        after_verify req.limited_use (h.turnstile (verify_request net h r req))
            (verify_turnstile (verify_request net h r req) ∷ calls),
      )

  decoded_request : Option ExchangeRequest → List Call → Bool × List Call
  unfolding with_request write_error
  decoded_request none calls =
      (false, write_error (bad_request "INVALID_JSON" "Request body must be valid JSON") calls)
  decoded_request (some req) calls = with_request req calls

  -- what Handle does before its deferred event, with `limitedUse` at the return
  pub handle_body : List Call → Bool × List Call
  unfolding decoded_request write_error
  handle_body calls =
      if not (has_json_content_type r)
      then (
        false,
        write_error
            (record {
              status = 415;
              code = "UNSUPPORTED_CONTENT_TYPE";
              message = "Content-Type must be application/json";
            })
            calls,
      )
      else if not (origin_ok h.origin_allowed (get_header r "Origin"))
      then (
        false,
        write_error
            (record {
              status = 403;
              code = "EXCHANGE_ORIGIN_NOT_ALLOWED";
              message = "Origin is not allowed";
            })
            calls,
      )
      else decoded_request (decode_json_strict decoder r.body) calls

  -- Handle, on a context on which no call was made
  unfoldable pub handle : List Call
  unfolding handle_body record_audit request_audit_event
  handle =
      let (limited, calls) = handle_body [] in
      let e =
        request_audit_event gin recording r calls "exchange.request" "Exchange request completed" in
      record_audit gin recording (record e { metadata = ("limitedUse", flag limited) ∷ [] }) calls

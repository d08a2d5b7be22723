-- ===== src/Handlers/Verify.antt =====
-- internal/handlers/verify.go: the answer to Traefik's forwardAuth.
pub mod Contract
use turnstile_appcheck_gatew.Prelude.{
  ℕ, String, Bool, true, false, List, [], ◌∷◌, Option, none, some, ◌==◌, if◌then◌else◌, ◌≡◌, refl,
  arith,
}
use turnstile_appcheck_gatew.Http.{Request, Call, status, header, verify_token, get_header}
use turnstile_appcheck_gatew.Http.Gin.{Gin}
use turnstile_appcheck_gatew.Audit.Event.{
  Metadata, text, result_success, result_failure, result_denied,
}
use turnstile_appcheck_gatew.Handlers.Audit.{
  ApiError, record_audit, request_audit_event, record_step, write_error,
}

pub record VerifyHandler : Type 0 where
  pub header_name : String
  pub success_status : ℕ
  pub failure_status : ℕ

-- What the verifier makes of a token: an error, or a decoded token, which may be nil, with its app id.
pub data Verdict : Type 0 where
  rejected : Verdict
  decoded : Option String → Verdict

abbrev appcheck_metadata : Metadata
appcheck_metadata = ("service", text "firebase_appcheck") ∷ []

-- `decoded` may be nil, and its app id empty
app_id_header : Option String → List Call → List Call
app_id_header none calls = calls
app_id_header (some id) calls = if id == "" then calls else header "X-AppCheck-AppID" id ∷ calls

module _ (gin : Gin) (recording : Bool) (verifier : String → Verdict) (h : VerifyHandler)
    (r : Request) where
  verify_step : String → ℕ → String → String → String → List Call → List Call
  unfolding record_step
  verify_step action code result error_code message =
      record_step gin recording r action code result error_code message appcheck_metadata

  -- a missing or refused token: two events, and the error
  deny : String → String → List Call → List Call
  unfolding verify_step write_error
  deny error_code message calls =
      write_error
        (record {
          status = h.failure_status;
          code = "APPCHECK_INVALID";
          message = "Invalid or missing Firebase App Check token";
        })
        (verify_step "forwardauth.denied" h.failure_status result_denied "forwardauth_denied"
          "Denied forwardAuth verification"
          (verify_step "appcheck.verify" h.failure_status result_failure error_code message calls))

  answer : Verdict → List Call → List Call
  unfolding deny app_id_header
  answer rejected calls =
      deny "appcheck_invalid" "Firebase App Check token verification failed" calls
  answer (decoded id) calls =
      verify_step "appcheck.verify" h.success_status result_success ""
        "Firebase App Check token verified"
        (status h.success_status ∷ app_id_header id (header "X-AppCheck-Verified" "true" ∷ calls))

  -- what Handle does before its deferred event
  handle_body : List Call → List Call
  unfolding answer
  handle_body calls =
      let token = get_header r h.header_name in
      if token == ""
      then deny "appcheck_missing" "Firebase App Check token missing" calls
      else answer (verifier token) (verify_token token ∷ calls)

  -- Handle, on a context on which no call was made
  unfoldable pub handle : List Call
  unfolding handle_body record_audit request_audit_event
  handle =
      let calls = handle_body [] in
      record_audit gin recording
        (request_audit_event gin recording r calls "verify.request" "Verify request completed")
        calls

-- ===== src/Handlers/Audit.antt =====
-- internal/handlers/audit.go and internal/errors/errors.go: the events of a request, and the errors
-- that a handler answers with.
use turnstile_appcheck_gatew.Prelude.{ℕ, String, Bool, List, ◌∷◌, leb, if◌then◌else◌}
use turnstile_appcheck_gatew.Http.{
  Request, Call, json, record_event, error_response, user_agent, request_id, client_address,
}
use turnstile_appcheck_gatew.Http.Gin.{Gin}
use turnstile_appcheck_gatew.Audit.Event.{
  Event, Metadata, result_success, result_failure, empty_event,
}

-- The parameters of the handlers: gin, and whether a recorder is set (`h.Audit`).
module _ (gin : Gin) (recording : Bool) where
  -- recordAudit; an error of the recorder is logged and ignored
  unfoldable pub record_audit : Event → List Call → List Call
  record_audit e calls = if recording then record_event e ∷ calls else calls

  unfoldable pub request_audit_event : Request → List Call → String → String → Event
  request_audit_event r calls action message =
      let status = gin.writer_status calls in
      record empty_event {
        actor = "public";
        actor_source = "public";
        action = action;
        method = r.method;
        path = r.path;
        endpoint = r.full_path;
        status_code = status;
        result = if leb 400 status then result_failure else result_success;
        remote_addr = client_address r;
        user_agent = user_agent r;
        request_id = request_id r;
        duration_ms = gin.elapsed_ms calls;
        message = message;
      }

  -- recordExchangeStep and recordVerifyStep
  unfoldable pub record_step :
      Request → String → ℕ → String → String → String → Metadata → List Call → List Call
  unfolding record_audit request_audit_event
  record_step r action status result error_code message metadata calls =
      let e = request_audit_event r calls action message in
      record_audit
        (record e {
          status_code = status;
          result = result;
          error_code = error_code;
          metadata = metadata;
        })
        calls

pub record ApiError : Type 0 where
  pub status : ℕ
  pub code : String
  pub message : String

-- WriteError, of an error that is not nil
unfoldable pub write_error : ApiError → List Call → List Call
write_error e calls = json e.status (error_response e.code e.message) ∷ calls

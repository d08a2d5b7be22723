-- ===== src/Http.antt =====
-- What the handlers see of an HTTP request, the calls that they make, and what they rely on of gin.
-- A handler is a function from the calls made so far to the calls made when it returns, the latest
-- call first: calls of gin's context, of the recorder, and of the two upstream services.
pub mod Header
pub mod Gin
use turnstile_appcheck_gatew.Prelude.{
  ℕ, String, Bool, true, false, List, [], ◌∷◌, Option, none, some, ◌==◌, if◌then◌else◌, ℤ, ◌≡◌,
}
use turnstile_appcheck_gatew.GoStrings.{trim_space, cut_before}
use turnstile_appcheck_gatew.Http.Header.{Header as Headers}
use turnstile_appcheck_gatew.Audit.Event.{Event}
use turnstile_appcheck_gatew.Store.Metrics.{Metrics}

-- A request as gin hands it over: `full_path` is what `c.FullPath()` answers, the pattern of the route,
-- and `client_ip` what `c.ClientIP()` answers.
pub record Request : Type 0 where
  pub method : String
  pub path : String
  pub headers : Headers
  pub remote_addr : String
  pub body : String
  pub full_path : String
  pub client_ip : String

-- c.GetHeader(name)
unfoldable pub get_header : Request → String → String
get_header r name = Header.get r.headers name

-- r.UserAgent()
unfoldable pub user_agent : Request → String
unfolding get_header
user_agent r = get_header r "User-Agent"

-- the loop of `requestID` (internal/handlers/audit.go, internal/admin/handler.go) and of
-- `firstHeader` (internal/middleware/rate_limit.go)
unfoldable pub first_header : Request → List String → String
first_header r [] = ""
first_header r (name ∷ names) =
    let value = trim_space (get_header r name) in
    let rest = first_header r names in if value == "" then rest else value

unfoldable pub request_id : Request → String
unfolding first_header
request_id r = first_header r ("X-Request-ID" ∷ "X-Correlation-ID" ∷ "X-Amzn-Trace-Id" ∷ [])

-- what stands before the first comma, trimmed, or the value itself if it has none
abbrev forwarded_first : String → Option String → String
forwarded_first value none = value
forwarded_first value (some first) = trim_space first

unfoldable pub client_address : Request → String
client_address r =
    let forwarded = trim_space (get_header r "X-Forwarded-For") in
    let real = trim_space (get_header r "X-Real-IP") in
    if forwarded == ""
    then if real == "" then r.client_ip else real
    else forwarded_first forwarded (cut_before b',' forwarded)

-- `nextCursor` of a page of the admin API: nil, an offset or a cursor
pub data Next : Type 0 where
  no_next : Next
  offset_next : ℤ → Next
  cursor_next : String → Next

-- the answer of `me`
pub record Me : Type 0 where
  pub mode : String
  pub auth_disabled : Bool
  pub user : String
  pub email : String
  pub groups : List String
  pub version : String
  pub commit : String
  pub short_commit : String
  pub commit_url : String
  pub release_tag_url : String
  pub audit_timestamp_format : String

-- A JSON body: `model.ErrorResponse`, `model.ExchangeResponse`, `gin.H{"error": text}`, and those of
-- the admin API: a page of events with the total, the next cursor and whether more follow; an event;
-- the options, as actions, endpoints and results; `gin.H{"status": text}`; the metrics; who the caller is. The displayed form of an
-- event's time is left out.
pub data Body : Type 0 where
  error_response : String → String → Body
  exchange_response : String → ℤ → Body
  error_text : String → Body
  page_body : List Event → ℕ → Next → Bool → Body
  event_body : Event → Body
  options_body : List String → List String → List String → Body
  status_text : String → Body
  metrics_body : Metrics → Body
  me_body : Me → Body

-- turnstile.VerifyRequest
pub record VerifyRequest : Type 0 where
  pub token : String
  pub remote_ip : String

pub data Call : Type 0 where
  -- c.JSON, c.Status, c.Header, c.AbortWithStatusJSON, c.AbortWithStatus, c.Next
  json : ℕ → Body → Call
  status : ℕ → Call
  header : String → String → Call
  abort_json : ℕ → Body → Call
  abort_status : ℕ → Call
  next : Call
  -- recorder.Record
  record_event : Event → Call
  -- Verifier.Verify, Exchanger.Exchange, VerifyTokenVerifier.VerifyToken
  verify_turnstile : VerifyRequest → Call
  exchange_token : Bool → Call
  verify_token : String → Call

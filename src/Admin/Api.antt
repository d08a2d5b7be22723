-- ===== src/Admin/Api.antt =====
-- internal/admin/api.go and internal/admin/handler.go: the audit trail in the admin API. The store is
-- threaded through the handlers; `none` as a reader is a recorder that cannot be read.
pub mod Offsets
pub mod Reset
use Prim.Native.Char.{code}
use Prim.Native.String.{◌++◌}
use turnstile_appcheck_gatew.Prelude.{
  ℕ, ◌+◌, ◌-◌, ◌^◌, String, Bool, true, false, not, ◌&&◌, ◌||◌, List, [], ◌∷◌, Option, none, some,
  ◌==◌, if◌then◌else◌, leb, eqb, ℤ, pos, leb_ℤ, ltb_ℤ, wrap_64,
}
use turnstile_appcheck_gatew.Prelude.Int.{pos_part, neg_part}
use turnstile_appcheck_gatew.GoStrings.{
  trim_space, trim_prefix_byte, trim_right_byte, split_byte, contains, has_prefix, atoi,
}
use turnstile_appcheck_gatew.Http.{
  Request, Call, json, record_event, Next, no_next, offset_next, cursor_next, error_text, page_body,
  event_body, options_body, status_text, user_agent, request_id, client_address,
}
use turnstile_appcheck_gatew.Http.Gin.{Gin}
use turnstile_appcheck_gatew.Audit.Event.{
  Time, Event, empty_event, text, result_success, result_failure, result_denied,
}
use turnstile_appcheck_gatew.Store.{Filter, Page, CursorCodec, decode_cursor}
use turnstile_appcheck_gatew.Admin.Auth.{Identity, record_admin}
use turnstile_appcheck_gatew.Admin.Query.{query_filter, offset_mode, next_of}

-- the methods of `auditReader` that these handlers call; none and false are errors, and `get` may
-- find nothing
pub record AuditReader (S : Type 0) : Type 0 where
  pub list : Filter → S → Option Page
  pub get : String → S → Option (Option Event)
  pub reset : Event → S → S × Bool

-- the fields of the reset request
pub record ResetRequest : Type 0 where
  pub confirmation : String
  pub reason : String

abbrev is_none {ℓ} : {A : Type ℓ} → Option A → Bool
is_none none = true
is_none (some a) = false

-- resultFromStatus
unfoldable pub result_from_status : ℕ → String
result_from_status status = if leb 400 status then result_failure else result_success

-- what stands after the last slash
after_slash : String → String → String
after_slash name String.[] = name
after_slash name (String.◌∷◌ c s) =
    let rest = after_slash name s in
    let from = after_slash s s in if eqb (code c) b'/' then from else rest

module _ (gin : Gin) (recording : Bool) (identity : Identity) (r : Request) where
  unfoldable pub admin_event : String → String → List Call → Event
  admin_event action message calls = record empty_event {
    actor = identity.user;
    actor_source = "admin:" ++ identity.auth_mode;
    action = action;
    method = r.method;
    path = r.path;
    endpoint = r.full_path;
    status_code = gin.writer_status calls;
    result = result_success;
    remote_addr = client_address r;
    user_agent = user_agent r;
    request_id = request_id r;
    message = message;
  }

  -- recordAdminAPI
  unfoldable pub record_admin_api : String → String → List Call → List Call
  unfolding record_admin admin_event
  record_admin_api action message calls =
      record_admin recording (admin_event action message calls) calls

  -- the last part of auditEvents
  answer_page : Bool → Filter → Option Page → List Call → List Call
  unfolding record_admin_api next_of
  answer_page legacy f none calls = json 500 (error_text "failed to load audit events") ∷ calls
  answer_page legacy f (some page) calls =
      json 200 (page_body page.items page.total (next_of legacy f page) page.has_next)
      ∷ record_admin_api "audit.view" "Admin viewed audit logs" calls

  -- the last part of auditEvent
  answer_event : Option (Option Event) → List Call → List Call
  unfolding record_admin_api
  answer_event none calls = json 500 (error_text "failed to load audit event") ∷ calls
  answer_event (some none) calls = json 404 (error_text "audit event not found") ∷ calls
  answer_event (some (some e)) calls =
      json 200 (event_body e)
      ∷ record_admin_api "audit.detail.view" "Admin viewed audit log detail" calls

  -- the marker of a reset
  unfoldable pub reset_marker : ResetRequest → Event
  unfolding admin_event
  reset_marker req = record (admin_event "audit.reset" "Admin reset audit log" []) {
    status_code = 200;
    metadata = ("reason", text (trim_space req.reason)) ∷ [];
  }

  module _ {S : Type 0} (reader : Option (AuditReader S)) (s : S) where
    abbrev unavailable : List Call → List Call
    unavailable calls = json 503 (error_text "audit storage is not available") ∷ calls

    -- auditEvents, on the values of the query
    unfoldable pub audit_events :
        CursorCodec → (String → String → Option Time) → (String → String) → List Call → List Call
    unfolding answer_page query_filter offset_mode
    audit_events codec parse query calls = elim reader [
      | none ↦ unavailable calls
      | some audit ↦
          let f = query_filter parse query in
          if not (trim_space f.cursor == "") && is_none (decode_cursor codec f.cursor)
          then json 400 (error_text "invalid audit cursor") ∷ calls
          else answer_page (offset_mode query) f (audit.list f s) calls
    ]

    -- auditEvent, on the id of the path
    unfoldable pub audit_event : String → List Call → List Call
    unfolding answer_event
    audit_event id calls = elim reader [
      | none ↦ unavailable calls
      | some audit ↦ answer_event (audit.get id s) calls
    ]

    -- auditReset after its body is bound, with the store that it leaves
    unfoldable pub reset_with : AuditReader S → Option ResetRequest → List Call → S × List Call
    unfolding reset_marker
    reset_with audit none calls = (s, json 400 (error_text "invalid reset request") ∷ calls)
    reset_with audit (some req) calls =
        let (s', ok) = audit.reset (reset_marker req) s in
        if not (req.confirmation == "RESET")
        then (s, json 400 (error_text "confirmation must be RESET") ∷ calls)
        else if ok
        then (s', json 200 (status_text "ok") ∷ calls)
        else (s', json 500 (error_text "failed to reset audit events") ∷ calls)

    -- auditReset, where `bound` is what ShouldBindJSON makes of the body
    unfoldable pub audit_reset : Option ResetRequest → List Call → S × List Call
    unfolding reset_with
    audit_reset bound calls = elim reader [
      | none ↦ (s, unavailable calls)
      | some audit ↦ reset_with audit bound calls
    ]

  -- auditOptions, for the known actions and the subpath of the configuration
  unfoldable pub audit_options : List String → String → List Call → List Call
  audit_options known subpath calls =
      let prefix = trim_right_byte b'/' subpath in
      json 200 (
        options_body known
          ((prefix ++ "/api/v1/exchange")
            ∷ (prefix ++ "/api/v1/verify")
            ∷ (prefix ++ "/_admin/api/v1/me")
            ∷ (prefix ++ "/_admin/api/v1/request-metrics")
            ∷ (prefix ++ "/_admin/api/v1/audit-events")
            ∷ [])
          (result_success ∷ result_failure ∷ result_denied ∷ []))
      ∷ calls

  -- what dashboardAccess does after the handlers behind it
  unfoldable pub dashboard_access : List Call → List Call
  unfolding record_admin admin_event result_from_status after_slash
  dashboard_access calls =
      let name = after_slash r.path r.path in
      let e = admin_event "admin.dashboard.view" "Admin dashboard accessed" calls in
      if not recording || (contains name "." || (name == "config.js"))
      then calls
      else record_admin recording
          (record e {
            result = result_from_status (gin.writer_status calls);
            duration_ms = gin.elapsed_ms calls;
          })
          calls

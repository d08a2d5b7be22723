-- ===== src/Handlers/Verify/Contract.antt =====
-- What the verify handler answers and records.
use turnstile_appcheck_gatew.Prelude.{
  ℕ, String, Bool, true, false, List, [], ◌∷◌, Option, none, some, ◌==◌, if◌then◌else◌, ◌≡◌, refl,
  arith, ◌↔◌, inl, inr, Bool-cases, ◌&&◌, ◌++◌, append_assoc, append-nil, ◌∙◌, leb,
}
use turnstile_appcheck_gatew.Http.{Request, Call, header, record_event, get_header}
use turnstile_appcheck_gatew.Http.Gin.{Gin}
use turnstile_appcheck_gatew.Audit.Event.{Event, result_success, result_failure, result_denied}
use turnstile_appcheck_gatew.Handlers.Audit.{
  record_audit, request_audit_event, record_step, write_error,
}
use turnstile_appcheck_gatew.Handlers.Verify.{
  VerifyHandler, Verdict, rejected, decoded, handle, handle_body, answer, deny, app_id_header,
  verify_step,
}

-- the response headers that a handler sets, the latest first
abbrev pub set_headers : List Call → List (String × String)
set_headers [] = []
set_headers (header k v ∷ cs) = (k, v) ∷ set_headers cs
set_headers (c ∷ cs) = set_headers cs

-- the action, result and status of the recorded events, the latest first
abbrev pub recorded : List Call → List (String × String × ℕ)
recorded [] = []
recorded (record_event e ∷ cs) = (e.action, e.result, e.status_code) ∷ recorded cs
recorded (c ∷ cs) = recorded cs

abbrev app_id_headers : Option String → List (String × String)
app_id_headers none = []
app_id_headers (some id) = if id == "" then [] else ("X-AppCheck-AppID", id) ∷ []

abbrev pub status_for : VerifyHandler → Verdict → ℕ
status_for h rejected = h.failure_status
status_for h (decoded id) = h.success_status

abbrev pub is_success : ℕ → Bool
is_success n = leb 200 n && leb n 299

-- what forwardAuth reads in a status, by the verdict
status_for-is_success :
    (h : VerifyHandler) (v : Verdict)
    → is_success h.success_status ≡ true
    → is_success h.failure_status ≡ false
    → (is_success (status_for h v) ≡ true) ↔ ((id : Option String) × (v ≡ decoded id))
status_for-is_success h rejected s f = (λ e. cc, λ p. cc (p.1))
status_for-is_success h (decoded id) s f = (λ e. (id, refl), λ p. s)

-- the headers that tell the upstream service what was verified
abbrev pub headers_for : Verdict → List (String × String)
headers_for rejected = []
headers_for (decoded id) = app_id_headers id ++ ("X-AppCheck-Verified", "true") ∷ []

abbrev pub result_for : ℕ → String
result_for n = if leb 400 n then result_failure else result_success

-- the audit trail of a request, the latest event first
abbrev pub trail_for : VerifyHandler → Verdict → List (String × String × ℕ)
trail_for h rejected =
    ("verify.request", result_for h.failure_status, h.failure_status)
    ∷ ("forwardauth.denied", result_denied, h.failure_status)
    ∷ ("appcheck.verify", result_failure, h.failure_status)
    ∷ []
trail_for h (decoded id) =
    ("verify.request", result_for h.success_status, h.success_status)
    ∷ ("appcheck.verify", result_success, h.success_status)
    ∷ []

app_id_headers_lem :
    (id : Option String) (cs : List Call)
    → set_headers (app_id_header id cs) ≡ app_id_headers id ++ set_headers cs
unfolding app_id_header
app_id_headers_lem none cs = refl
app_id_headers_lem (some id) cs = ground arith

app_id_trail : (id : Option String) (cs : List Call) → recorded (app_id_header id cs) ≡ recorded cs
unfolding app_id_header
app_id_trail none cs = refl
app_id_trail (some id) cs = ground arith

abbrev step_trail : VerifyHandler → Verdict → List (String × String × ℕ)
step_trail h rejected =
    ("forwardauth.denied", result_denied, h.failure_status)
    ∷ ("appcheck.verify", result_failure, h.failure_status)
    ∷ []
step_trail h (decoded id) = ("appcheck.verify", result_success, h.success_status) ∷ []

module _ (gin : Gin) (verifier : String → Verdict) (h : VerifyHandler) (r : Request) where
  -- the verdict on the request's token; a missing token is refused unseen
  abbrev pub verdict : Verdict
  verdict =
      let token = get_header r h.header_name in if token == "" then rejected else verifier token

  answer_status :
      (recording : Bool) (v : Verdict) (cs : List Call)
      → gin.writer_status (answer gin recording verifier h r v cs) ≡ status_for h v
  unfolding answer deny verify_step record_step record_audit write_error
  answer_status true rejected cs = gin.after_json _ _ _
  answer_status false rejected cs = gin.after_json _ _ _
  answer_status true (decoded id) cs = gin.after_record _ _ ∙ gin.after_status _ _
  answer_status false (decoded id) cs = gin.after_status _ _

  body_status :
      (recording : Bool)
      → gin.writer_status (handle_body gin recording verifier h r []) ≡ status_for h verdict
  unfolding handle_body
  body_status recording = elim (Bool-cases (get_header r h.header_name == "")) [
    | inl e ↦ rw e (unfold deny write_error in gin.after_json _ _ _)
    | inr e ↦ rw e (answer_status recording _ _)
  ]

  record_audit_status :
      (recording : Bool) (e : Event) (cs : List Call)
      → gin.writer_status (record_audit gin recording e cs) ≡ gin.writer_status cs
  unfolding record_audit
  record_audit_status true e cs = gin.after_record e cs
  record_audit_status false e cs = refl

  -- The response has the success status if the request's token is accepted, and the failure status if
  -- it is missing or refused.
  pub handle-status :
      (recording : Bool)
      → gin.writer_status (handle gin recording verifier h r) ≡ status_for h verdict
  unfolding handle
  handle-status recording = record_audit_status recording _ _ ∙ body_status recording

  -- Where the success status is 2xx and the failure status is not, which is what Traefik's forwardAuth
  -- reads, the request is let through exactly if a token is there and the verifier accepts it.
  pub forward_auth :
      (recording : Bool)
      → is_success h.success_status ≡ true
      → is_success h.failure_status ≡ false
      → (is_success (gin.writer_status (handle gin recording verifier h r)) ≡ true)
        ↔ ((id : Option String) × (verdict ≡ decoded id))
  forward_auth recording s f = rw (handle-status recording) (status_for-is_success h verdict s f)

  record_audit_headers :
      (recording : Bool) (e : Event) (cs : List Call)
      → set_headers (record_audit gin recording e cs) ≡ set_headers cs
  unfolding record_audit
  record_audit_headers true e cs = refl
  record_audit_headers false e cs = refl

  answer_headers :
      (recording : Bool) (v : Verdict) (cs : List Call)
      → set_headers (answer gin recording verifier h r v cs) ≡ headers_for v ++ set_headers cs
  unfolding answer deny verify_step record_step write_error
  answer_headers recording rejected cs = simp record_audit_headers
  answer_headers recording (decoded id) cs =
      simp (record_audit_headers, app_id_headers_lem, append_assoc)

  body_headers :
      (recording : Bool)
      → set_headers (handle_body gin recording verifier h r []) ≡ headers_for verdict
  unfolding handle_body
  body_headers recording = elim (Bool-cases (get_header r h.header_name == "")) [
    | inl e ↦ rw e (unfold deny verify_step record_step write_error in simp record_audit_headers)
    | inr e ↦ rw e (simp (answer_headers, append-nil))
  ]

  -- The response carries the verification headers exactly on acceptance: `X-AppCheck-Verified`, and
  -- the app id if the decoded token has one that is not empty. A denial sets no header.
  handle-set_headers :
      (recording : Bool) → set_headers (handle gin recording verifier h r) ≡ headers_for verdict
  unfolding handle
  handle-set_headers recording = record_audit_headers recording _ _ ∙ body_headers recording

  answer_trail :
      (v : Verdict) (cs : List Call)
      → recorded (answer gin true verifier h r v cs) ≡ step_trail h v ++ recorded cs
  unfolding answer deny verify_step record_step record_audit request_audit_event write_error
  answer_trail rejected cs = refl
  answer_trail (decoded id) cs = simp app_id_trail

  body_trail : recorded (handle_body gin true verifier h r []) ≡ step_trail h verdict
  unfolding handle_body
  body_trail = elim (Bool-cases (get_header r h.header_name == "")) [
    | inl e ↦
        rw e
          (unfold deny verify_step record_step record_audit request_audit_event write_error in refl)
    | inr e ↦ rw e (simp (answer_trail, append-nil))
  ]

  request_trail :
      (v : Verdict)
      → ("verify.request", result_for (status_for h v), status_for h v) ∷ step_trail h v
        ≡ trail_for h v
  request_trail rejected = refl
  request_trail (decoded id) = refl

  -- With a recorder, each request leaves the outcome of the check, a denial if it was refused, and last
  -- the request itself, whose result and status are those of the response.
  handle-recorded : recorded (handle gin true verifier h r) ≡ trail_for h verdict
  unfolding handle record_audit request_audit_event
  handle-recorded = rw (body_status true, body_trail) (request_trail verdict)

  -- What the verify endpoint does with a recorder: the response has the success status if the request's
  -- token is accepted and the failure status if it is missing or refused; it carries the verification
  -- headers on acceptance only; and the trail gets the outcome of the check, a denial if it was refused,
  -- and last the request itself, whose result and status are those of the response.
  pub handle_lem :
      (gin.writer_status (handle gin true verifier h r) ≡ status_for h verdict)
      × (set_headers (handle gin true verifier h r) ≡ headers_for verdict)
      × (recorded (handle gin true verifier h r) ≡ trail_for h verdict)
  handle_lem = (handle-status true, handle-set_headers true, handle-recorded)

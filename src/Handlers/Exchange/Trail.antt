-- ===== src/Handlers/Exchange/Trail.antt =====
-- The audit event of an exchange request tells what the client was answered.
use turnstile_appcheck_gatew.Prelude.{
  ℕ, ◌≤◌, String, Bool, true, List, [], ◌∷◌, Option, none, some, ◌==◌, ltb, leb, leb→le, ◌<◌, ◌≢◌,
  eq_iff, ◌≡◌, refl, ◌↔◌, ◌⊎◌, inl, inr, arith, Bool-cases, Option-cases, ℤ,
}
use turnstile_appcheck_gatew.GoStrings.{len}
use turnstile_appcheck_gatew.Http.{
  Request, Call, Body, json, record_event, exchange_response, get_header,
}
use turnstile_appcheck_gatew.Http.Gin.{Gin}
use turnstile_appcheck_gatew.Audit.Event.{result_success, result_failure}
use turnstile_appcheck_gatew.Handlers.Audit.{record_audit, request_audit_event, write_error}
use turnstile_appcheck_gatew.Handlers.Request.{
  JsonDecoder, NetParsers, decode_json_strict, has_json_content_type,
}
use turnstile_appcheck_gatew.Handlers.Verify.Contract.{result_for}
use turnstile_appcheck_gatew.Handlers.Exchange.{
  ExchangeHandler, VerifyResponse, ExchangeResult, finish, after_verify, with_request,
  decoded_request, handle_body, handle, origin_ok,
}
use turnstile_appcheck_gatew.Handlers.Exchange.Grant.{IsGranted, body_inv, body-Gives}

-- an error status with any body, or 200 with a token
abbrev IsAnswer : ℕ → Body → Type 0
IsAnswer n b = ((n ≡ 200) × ((t : String) × (ms : ℤ) × (b ≡ exchange_response t ms))) ⊎ (400 ≤ n)

-- the calls end with an answer
record Answers (cs : List Call) : Type 0 where
  code : ℕ
  body : Body
  before : List Call
  last : cs ≡ json code body ∷ before
  answer : IsAnswer code body

refusal : (n : ℕ) (b : Body) (cs : List Call) → 400 ≤ n → Answers (json n b ∷ cs)
refusal n b cs h = record { code = n; body = b; before = cs; last = refl; answer = inr h }

-- the first event of the list, which is the latest: its action, result and status
abbrev pub latest_event : List Call → Option (String × String × ℕ)
latest_event [] = none
latest_event (record_event e ∷ cs) = some (e.action, e.result, e.status_code)
latest_event (c ∷ cs) = latest_event cs

failure-ne-success : ◌≢◌ {A = String} result_failure result_success
failure-ne-success = ground (arith, eq_iff result_failure result_success)

result_for_iff : (n : ℕ) → (result_for n ≡ result_success) ↔ (n < 400)
result_for_iff n = elim (Bool-cases (leb 400 n)) [
  | inl e ↦ rw e ((λ p. absurd (failure-ne-success p)), λ l. absurd (omega (arith, leb→le 400 n e)))
  | inr e ↦ rw e ((λ p. ground arith), λ l. refl)
]

module _ (gin : Gin) (decoder : JsonDecoder) (net : NetParsers) (h : ExchangeHandler)
    (r : Request) where
  finish_answers :
      (limited : Bool) (o : Option ExchangeResult) (cs : List Call)
      → Answers (finish gin true decoder net h r limited o cs)
  unfolding finish write_error
  finish_answers limited none cs = refusal _ _ _ (omega arith)
  finish_answers limited (some x) cs = record {
    code = 200;
    body = exchange_response x.token x.expire_time_millis;
    before = _;
    last = refl;
    answer = inl (refl, (x.token, x.expire_time_millis, refl));
  }

  after_verify_answers :
      (limited : Bool) (o : Option VerifyResponse) (cs : List Call)
      → Answers (after_verify gin true decoder net h r limited o cs)
  unfolding after_verify write_error
  after_verify_answers limited none cs = refusal _ _ _ (omega arith)
  after_verify_answers limited (some v) cs = elim (Bool-cases v.success) [
    | inl s ↦ rw s (finish_answers limited _ _)
    | inr s ↦ rw s (refusal _ _ _ (omega arith))
  ]

  body_answers : Answers (handle_body gin true decoder net h r []).1
  unfolding handle_body decoded_request with_request write_error
  body_answers = elim (Bool-cases (has_json_content_type r)) [
    | inr c ↦ rw c (refusal _ _ _ (omega arith))
    | inl c ↦ elim (Bool-cases (origin_ok h.origin_allowed (get_header r "Origin"))) [
      | inr o ↦ rw (c, o) (refusal _ _ _ (omega arith))
      | inl o ↦ elim (Option-cases (decode_json_strict decoder r.body)) [
        | inl d ↦ rw (c, o, d) (refusal _ _ _ (omega arith))
        | inr (req, d) ↦ elim (Bool-cases (req.turnstile_token == "")) [
          | inl p ↦ rw (c, o, d, p) (refusal _ _ _ (omega arith))
          | inr p ↦ elim (Bool-cases (ltb 4096 (len req.turnstile_token))) [
            | inl l ↦ rw (c, o, d, p, l) (refusal _ _ _ (omega arith))
            | inr l ↦ rw (c, o, d, p, l) (after_verify_answers req.limited_use _ _)
          ]
        ]
      ]
    ]
  ]

  abbrev body_calls : List Call
  body_calls = (handle_body gin true decoder net h r []).1

  body_status : gin.writer_status body_calls ≡ body_answers.code
  body_status = rw body_answers.last (gin.after_json _ _ _)

  success-IsGranted :
      result_for body_answers.code ≡ result_success
      → (t : String) × (ms : ℤ) × IsGranted decoder net h r t ms
  success-IsGranted e = elim (body_answers.answer) [
    | inl (ok_code, (t, ms, token)) ↦
        (t, ms, body_inv gin true decoder net h r t ms (rw body_answers.last (rw (ok_code, token))))
    | inr refused ↦ absurd (omega (arith, (result_for_iff _).0 e))
  ]

  granted_success :
      (t : String) (ms : ℤ)
      → IsGranted decoder net h r t ms
      → result_for body_answers.code ≡ result_success
  granted_success t ms g =
      let gives = body-Gives gin true decoder net h r t ms g in
      let same : ◌≡◌ {A = Option (ℕ × Body)} (some (body_answers.code, body_answers.body))
          (some (200, exchange_response t ms)) =
        rw body_answers.last at gives in
      (result_for_iff _).1 (ground arith)

  -- With a recorder, the event recorded last for a request is `exchange.request`, with the status of
  -- the response; its result is success exactly if a token was given, and failure otherwise.
  pub handle_trail :
      let s = gin.writer_status (handle gin true decoder net h r) in
      (latest_event (handle gin true decoder net h r) ≡ some ("exchange.request", result_for s, s))
      × ((result_for s ≡ result_success)
          ↔ ((t : String) × (ms : ℤ) × IsGranted decoder net h r t ms))
  unfolding handle record_audit request_audit_event
  handle_trail =
      rw (gin.after_record _ _) (refl, (λ e. success-IsGranted (rw body_status at e), from_grant))
    where
      from_grant :
          ((t : String) × (ms : ℤ) × IsGranted decoder net h r t ms)
          → result_for (gin.writer_status body_calls) ≡ result_success
      from_grant (t, ms, g) = rw body_status (granted_success t ms g)

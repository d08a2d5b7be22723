-- ===== src/Http/Gin.antt =====
-- What the handlers rely on of gin and of the clock.
use turnstile_appcheck_gatew.Prelude.{ℕ, String, List, ◌∷◌, [], ◌≡◌, refl}
use turnstile_appcheck_gatew.Http.{
  Body, Call, json, status, header, abort_json, abort_status, record_event, verify_token,
}
use turnstile_appcheck_gatew.Audit.Event.{Event}

-- `writer_status calls` is what `c.Writer.Status()` answers after these calls, and `elapsed_ms calls`
-- the milliseconds since the handler began. The laws are gin's documented behaviour: the status is
-- 200 until a call sets one, and then the one set last, as long as the handler alone writes.
pub record Gin : Type 0 where
  pub writer_status : List Call → ℕ
  pub elapsed_ms : List Call → ℕ
  pub at_start : writer_status [] ≡ 200
  pub after_json : (n : ℕ) (b : Body) (cs : List Call) → writer_status (json n b ∷ cs) ≡ n
  pub after_status : (n : ℕ) (cs : List Call) → writer_status (status n ∷ cs) ≡ n
  pub after_header :
      (k v : String) (cs : List Call) → writer_status (header k v ∷ cs) ≡ writer_status cs
  pub after_record :
      (e : Event) (cs : List Call) → writer_status (record_event e ∷ cs) ≡ writer_status cs
  pub after_verify_token :
      (t : String) (cs : List Call) → writer_status (verify_token t ∷ cs) ≡ writer_status cs

-- a writer that meets the laws, with a clock that stands still
status_of : List Call → ℕ
status_of [] = 200
status_of (json n b ∷ cs) = n
status_of (status n ∷ cs) = n
status_of (abort_json n b ∷ cs) = n
status_of (abort_status n ∷ cs) = n
status_of (c ∷ cs) = status_of cs

abbrev pub plain_gin : Gin
unfolding status_of
plain_gin = record {
  writer_status = status_of;
  elapsed_ms = λ cs. 0;
  at_start = refl;
  after_json = λ n b cs. refl;
  after_status = λ n cs. refl;
  after_header = λ k v cs. refl;
  after_record = λ e cs. refl;
  after_verify_token = λ t cs. refl;
}

-- ===== src/E2e.antt =====
-- internal/e2e/mock.go: the upstream services of the end-to-end tests.
pub mod RoundTrip
use turnstile_appcheck_gatew.Prelude.{
  ℕ, ◌+◌, ◌-◌, ◌*◌, ◌/◌, String, Bool, true, false, not, List, [], ◌∷◌, Option, none, some, ◌==◌,
  if◌then◌else◌, ℤ, pos, leb_ℤ,
}
use turnstile_appcheck_gatew.Prelude.Int.{pos_part}
use turnstile_appcheck_gatew.Http.{VerifyRequest}
use turnstile_appcheck_gatew.Audit.Event.{Time, minute}
use turnstile_appcheck_gatew.Handlers.Exchange.{VerifyResponse, ExchangeResult}
use turnstile_appcheck_gatew.Handlers.Verify.{Verdict, rejected, decoded}

-- config.E2EConfig, without the mode
pub record E2eConfig : Type 0 where
  pub turnstile_pass_token : String
  pub turnstile_fail_token : String
  pub app_check_token : String
  pub app_check_app_id : String

-- MockTurnstileVerifier.Verify
unfoldable pub mock_turnstile : E2eConfig → VerifyRequest → Option VerifyResponse
mock_turnstile cfg req =
    let code =
      if req.token == cfg.turnstile_fail_token
      then "timeout-or-duplicate"
      else "invalid-input-response" in
    if req.token == cfg.turnstile_pass_token
    then some (record { success = true; error_codes = [] })
    else some (record { success = false; error_codes = code ∷ [] })

-- the lifetime that NewMockAppCheckExchanger keeps, in nanoseconds
unfoldable pub mock_ttl : ℤ → ℕ
mock_ttl ttl = if leb_ℤ ttl (pos 0) then 30 * minute else pos_part ttl

-- 1 January 1970, in nanoseconds since the zero time
abbrev unix_epoch : Time
unix_epoch = 62135596800 * 1000000000

-- t.UnixMilli(), for a time not before 1970
abbrev unix_milli : Time → ℕ
unix_milli t = (t - unix_epoch) / 1000000

-- MockAppCheckExchanger.Exchange, at a time not before 1970
unfoldable pub mock_exchanger : E2eConfig → ℤ → Time → Bool → Option ExchangeResult
unfolding mock_ttl
mock_exchanger cfg ttl now limited = some (record {
  token = cfg.app_check_token;
  expire_time_millis = pos (unix_milli (now + mock_ttl ttl));
  ttl_millis = pos (mock_ttl ttl / 1000000);
})

-- MockVerifyTokenVerifier.VerifyToken
unfoldable pub mock_verifier : E2eConfig → String → Verdict
mock_verifier cfg token =
    if not (token == cfg.app_check_token) then rejected else decoded (some cfg.app_check_app_id)

-- ===== src/Audit/Policy/Decisions.antt =====
-- What the policy decides.
use turnstile_appcheck_gatew.Prelude.{
  String, ◌≡◌, ◌⊎◌, Bool, true, false, ◌||◌, not, arith, ◌==◌, eq_iff,
}
use turnstile_appcheck_gatew.Float.{Float64}
use turnstile_appcheck_gatew.GoStrings.{trim_space}
use turnstile_appcheck_gatew.Audit.Event.{Event}
use turnstile_appcheck_gatew.Audit.Policy.{
  PolicyConfig, decide_with, decide_summary, decide_step, is_public_summary_action,
  is_public_step_action,
}

step_cases :
    (a : String)
    → is_public_step_action a ≡ true
    → (a ≡ "turnstile.verify") ⊎ ((a ≡ "appcheck.exchange") ⊎ (a ≡ "appcheck.verify"))
unfolding is_public_step_action
step_cases a h =
    ground
      (arith, eq_iff a "turnstile.verify", eq_iff a "appcheck.exchange", eq_iff a "appcheck.verify")

abbrev is_counted : String → Bool
is_counted a = is_public_summary_action a || (a == "rate_limit.denied")

counted_cases :
    (a : String)
    → is_counted a ≡ true
    → (a ≡ "gateway.request")
      ⊎ ((a ≡ "exchange.request") ⊎ ((a ≡ "verify.request") ⊎ (a ≡ "rate_limit.denied")))
unfolding is_public_summary_action
counted_cases a h = ground (
  arith,
  eq_iff a "gateway.request",
  eq_iff a "exchange.request",
  eq_iff a "verify.request",
  eq_iff a "rate_limit.denied",
)

module _ (cfg : PolicyConfig) (draw : Float64) (e : Event) where
  -- An event is left out of the audit trail only if its action, trimmed, is one of the public
  -- request or step actions, and the decision is marked as sampled out exactly if it is left out.
  pub dropped_is_public :
      ((decide_with cfg draw e).sampled_out ≡ not (decide_with cfg draw e).persist)
      × ((decide_with cfg draw e).persist ≡ false
          → (is_public_summary_action (trim_space e.action) ≡ true)
            ⊎ (is_public_step_action (trim_space e.action) ≡ true))
  unfolding decide_with decide_summary decide_step
  dropped_is_public = ground arith

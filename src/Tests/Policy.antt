-- ===== src/Tests/Policy.antt =====
-- The policy of internal/audit/policy.go, on one event each.
use turnstile_appcheck_gatew.Prelude.{◌≡◌, ◌⊎◌, true, false, not}
use turnstile_appcheck_gatew.GoStrings.{trim_space}
use turnstile_appcheck_gatew.Float.{nan, zero_rate}
use turnstile_appcheck_gatew.Audit.Event.{Event, empty_event}
use turnstile_appcheck_gatew.Audit.Policy.{
  PolicyConfig, decide_with, normalize_policy_config, is_public_summary_action,
  is_public_step_action,
}
use turnstile_appcheck_gatew.Audit.Policy.Decisions.{dropped_is_public}
use turnstile_appcheck_gatew.Audit.Policy.Rates.{IsNormal, normalize_policy_config-IsNormal}

abbrev quiet : PolicyConfig
quiet = record {
  public_mode = "failure_step";
  verify_success = zero_rate;
  verify_failure = zero_rate;
  exchange_success = zero_rate;
  exchange_failure = zero_rate;
}

abbrev odd : PolicyConfig
odd = record quiet { public_mode = "loud"; verify_success = nan }

abbrev failed_step : Event
failed_step = record empty_event { action = "turnstile.verify"; status_code = 502 }

abbrev answered : Event
answered = record empty_event { action = "verify.request"; status_code = 204 }

dropped_is_public_example :
    ((decide_with quiet zero_rate answered).sampled_out
      ≡ not (decide_with quiet zero_rate answered).persist)
    × ((decide_with quiet zero_rate answered).persist ≡ false
        → (is_public_summary_action (trim_space answered.action) ≡ true)
          ⊎ (is_public_step_action (trim_space answered.action) ≡ true))
dropped_is_public_example = dropped_is_public quiet zero_rate answered

normalize_policy_config-IsNormal_example :
    IsNormal (normalize_policy_config odd)
    × (normalize_policy_config (normalize_policy_config odd) ≡ normalize_policy_config odd)
normalize_policy_config-IsNormal_example = normalize_policy_config-IsNormal odd

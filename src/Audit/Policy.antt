-- ===== src/Audit/Policy.antt =====
-- internal/audit/policy.go: which events are stored, counted, and how urgently. The state of the
-- random source is not modelled: `draw` is the number that `rng.Float64()` would return next, and a
-- decision reads at most one.
pub mod Decisions
pub mod Rates
use turnstile_appcheck_gatew.Prelude.{
  ℕ, String, Bool, true, false, ◌&&◌, ◌||◌, not, Option, none, some, ◌==◌, leb, if◌then◌else◌,
}
use turnstile_appcheck_gatew.Float.{Float64, lt_float, le_float, is_zero, zero_rate, one_rate}
use turnstile_appcheck_gatew.GoStrings.{has_prefix, contains, trim_space, to_lower}
use turnstile_appcheck_gatew.Audit.Event.{Event, result_success}

pub data EventPriority : Type 0 where
  critical normal best_effort : EventPriority

pub record EventDecision : Type 0 where
  pub persist : Bool
  pub count_metric : Bool
  pub priority : EventPriority
  pub reason : String
  pub sampled_out : Bool
  pub public_action : Bool

pub record PolicyConfig : Type 0 where
  pub public_mode : String
  pub verify_success : Float64
  pub verify_failure : Float64
  pub exchange_success : Float64
  pub exchange_failure : Float64

-- PolicyConfig{}
abbrev pub empty_config : PolicyConfig
empty_config = record {
  public_mode = "";
  verify_success = zero_rate;
  verify_failure = zero_rate;
  exchange_success = zero_rate;
  exchange_failure = zero_rate;
}

unfoldable pub default_rate : Float64 → Float64 → Float64
default_rate value fallback = if lt_float value zero_rate then fallback else value

unfoldable pub clamp_rate : Float64 → Float64
clamp_rate value =
    if lt_float value zero_rate
    then zero_rate
    else if lt_float one_rate value
    then one_rate
    else value

-- the first `if` of NormalizePolicyConfig
fill_defaults : PolicyConfig → PolicyConfig
fill_defaults cfg =
    if (cfg.public_mode == "")
      && (is_zero cfg.verify_success
          && (is_zero cfg.verify_failure
              && (is_zero cfg.exchange_success && is_zero cfg.exchange_failure)))
    then record cfg {
      verify_failure = one_rate;
      exchange_success = one_rate;
      exchange_failure = one_rate;
    }
    else cfg

unfoldable pub known_mode : String → Bool
known_mode mode = (mode == "summary") || ((mode == "step") || (mode == "failure_step"))

-- the `switch` and the clamping of NormalizePolicyConfig
clamp_config : PolicyConfig → PolicyConfig
unfolding default_rate clamp_rate known_mode
clamp_config cfg = record {
  public_mode = if known_mode cfg.public_mode then cfg.public_mode else "failure_step";
  verify_success = clamp_rate cfg.verify_success;
  verify_failure = clamp_rate (default_rate cfg.verify_failure one_rate);
  exchange_success = clamp_rate (default_rate cfg.exchange_success one_rate);
  exchange_failure = clamp_rate (default_rate cfg.exchange_failure one_rate);
}

unfoldable pub normalize_policy_config : PolicyConfig → PolicyConfig
unfolding fill_defaults clamp_config
normalize_policy_config cfg = clamp_config (fill_defaults cfg)

unfoldable pub is_admin_action : String → Bool
is_admin_action action = has_prefix action "admin." || has_prefix action "audit."

unfoldable pub is_public_summary_action : String → Bool
is_public_summary_action action =
    (action == "gateway.request")
    || ((action == "exchange.request") || (action == "verify.request"))

unfoldable pub is_public_step_action : String → Bool
is_public_step_action action =
    (action == "turnstile.verify")
    || ((action == "appcheck.exchange") || (action == "appcheck.verify"))

unfoldable pub is_verify_event : Event → Bool
is_verify_event e =
    if (e.action == "verify.request")
      || ((e.action == "appcheck.verify") || (e.action == "forwardauth.denied"))
    then true
    else contains (to_lower e.endpoint) "verify" || contains (to_lower e.path) "/verify"

unfoldable pub sample : Float64 → Float64 → Bool
sample draw rate =
    if le_float one_rate rate
    then true
    else if le_float rate zero_rate
    then false
    else lt_float draw rate

-- `failed` of Decide
unfoldable pub has_failed : Event → Bool
has_failed e =
    if leb 400 e.status_code then true else not (e.result == "") && not (e.result == result_success)

module _ (cfg : PolicyConfig) (draw : Float64) where
  unfoldable pub decide_summary : Event → Bool → EventDecision
  decide_summary e failed =
      let verify = is_verify_event e in
      let persist = sample draw (
        if failed
        then if verify then cfg.verify_failure else cfg.exchange_failure
        else if verify
        then cfg.verify_success
        else cfg.exchange_success) in
      record {
        persist = persist;
        count_metric = true;
        priority = if failed then critical else if verify then best_effort else normal;
        reason = "public_summary";
        sampled_out = not persist;
        public_action = true;
      }

  unfoldable pub decide_step : Event → Bool → EventDecision
  decide_step e failed =
      if failed
      then if cfg.public_mode == "summary"
        then record {
          persist = false;
          count_metric = false;
          priority = normal;
          reason = "summary_mode_step_skip";
          sampled_out = true;
          public_action = true;
        }
        else record {
          persist = true;
          count_metric = false;
          priority = critical;
          reason = "public_failed_step";
          sampled_out = false;
          public_action = true;
        }
      else if not (cfg.public_mode == "step")
      then record {
        persist = false;
        count_metric = false;
        priority = best_effort;
        reason = "step_skipped_by_mode";
        sampled_out = true;
        public_action = true;
      }
      else let persist =
          sample draw (if is_verify_event e then cfg.verify_success else cfg.exchange_success) in
        record {
          persist = persist;
          count_metric = false;
          priority = best_effort;
          reason = "public_success_step";
          sampled_out = not persist;
          public_action = true;
        }

  -- a decision that stores the event and does not sample
  abbrev always : Bool → EventPriority → String → Bool → EventDecision
  always counted priority reason public = record {
    persist = true;
    count_metric = counted;
    priority = priority;
    reason = reason;
    sampled_out = false;
    public_action = public;
  }

  -- Decide, of a policy that is not nil and whose configuration is `cfg`
  unfoldable pub decide_with : Event → EventDecision
  decide_with e =
      let action = trim_space e.action in
      let failed = has_failed e in
      if is_admin_action action
      then always false critical "admin_event" false
      else if action == "system.startup"
      then always false normal "system_event" false
      else if action == "rate_limit.denied"
      then always true critical "rate_limit_denied" true
      else if action == "forwardauth.denied"
      then always false critical "forwardauth_denied" true
      else if is_public_summary_action action
      then decide_summary e failed
      else if is_public_step_action action
      then decide_step e failed
      else always false (if failed then critical else normal) "default_persist" false

-- Decide; a nil policy stands for the one that NewPolicy makes of the empty configuration.
unfoldable pub decide : Option PolicyConfig → Float64 → Event → EventDecision
decide none draw e = decide_with (normalize_policy_config empty_config) draw e
decide (some cfg) draw e = decide_with cfg draw e

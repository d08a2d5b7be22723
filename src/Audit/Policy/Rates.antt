-- ===== src/Audit/Policy/Rates.antt =====
-- The normalised configuration of a policy.
use turnstile_appcheck_gatew.Prelude.{
  Bool-cases, ne→==-false, ◌≡◌, refl, ◌⊎◌, inl, inr, true, false, arith, ◌==◌, ap, ◌∙◌,
  if◌then◌else◌, String,
}
use turnstile_appcheck_gatew.Float.{
  Float64, nan, finite, neg_inf, pos_inf, lt_float, le_float, zero_rate, one_rate,
}
use turnstile_appcheck_gatew.Audit.Policy.{
  PolicyConfig, default_rate, clamp_rate, clamp_config, fill_defaults, normalize_policy_config,
  known_mode,
}

-- A rate that sampling understands: between 0 and 1. A value that is no number passes the
-- normalisation, since it compares as neither below 0 nor above 1.
abbrev pub IsRate : Float64 → Type 0
IsRate r = (le_float zero_rate r ≡ true) × (le_float r one_rate ≡ true)

abbrev pub IsNormalRate : Float64 → Type 0
IsNormalRate r = (r ≡ nan) ⊎ IsRate r

clamp_rate-IsNormalRate : (r : Float64) → IsNormalRate (clamp_rate r)
unfolding clamp_rate lt_float le_float
clamp_rate-IsNormalRate nan = inl refl
clamp_rate-IsNormalRate neg_inf = inr (refl, refl)
clamp_rate-IsNormalRate pos_inf = inr (refl, refl)
clamp_rate-IsNormalRate (finite k) = ground arith

clamp_rate_of_IsNormalRate : (r : Float64) → IsNormalRate r → clamp_rate r ≡ r
unfolding clamp_rate lt_float le_float
clamp_rate_of_IsNormalRate nan h = refl
clamp_rate_of_IsNormalRate neg_inf h = ground arith
clamp_rate_of_IsNormalRate pos_inf h = ground arith
clamp_rate_of_IsNormalRate (finite k) h = ground arith

default_rate_of_IsNormalRate : (r : Float64) → IsNormalRate r → default_rate r one_rate ≡ r
unfolding default_rate lt_float le_float
default_rate_of_IsNormalRate nan h = refl
default_rate_of_IsNormalRate neg_inf h = ground arith
default_rate_of_IsNormalRate pos_inf h = ground arith
default_rate_of_IsNormalRate (finite k) h = ground arith

pub record IsNormal (cfg : PolicyConfig) : Type 0 where
  pub mode : known_mode cfg.public_mode ≡ true
  pub verify_success : IsNormalRate cfg.verify_success
  pub verify_failure : IsNormalRate cfg.verify_failure
  pub exchange_success : IsNormalRate cfg.exchange_success
  pub exchange_failure : IsNormalRate cfg.exchange_failure

known_mode_or : (m : String) → known_mode (if known_mode m then m else "failure_step") ≡ true
unfolding known_mode
known_mode_or m = elim (Bool-cases (known_mode m)) [ inl e ↦ rw e e | inr e ↦ rw e refl ]

clamp_config-IsNormal : (cfg : PolicyConfig) → IsNormal (clamp_config cfg)
unfolding clamp_config
clamp_config-IsNormal cfg = record {
  mode = known_mode_or cfg.public_mode;
  verify_success = clamp_rate-IsNormalRate _;
  verify_failure = clamp_rate-IsNormalRate _;
  exchange_success = clamp_rate-IsNormalRate _;
  exchange_failure = clamp_rate-IsNormalRate _;
}

known_mode-ne-empty : (m : String) → known_mode m ≡ true → (m == "") ≡ false
unfolding known_mode
known_mode-ne-empty m h = ne→==-false m "" λ e. cc (ap known_mode e, h)

fill_defaults_of_mode :
    (cfg : PolicyConfig) → known_mode cfg.public_mode ≡ true → fill_defaults cfg ≡ cfg
unfolding fill_defaults
fill_defaults_of_mode cfg h = rw (known_mode-ne-empty cfg.public_mode h)

clamp_config_of_IsNormal : (cfg : PolicyConfig) → IsNormal cfg → clamp_config cfg ≡ cfg
unfolding clamp_config
clamp_config_of_IsNormal cfg h = ground (
  arith,
  clamp_rate_of_IsNormalRate cfg.verify_success h.verify_success,
  clamp_rate_of_IsNormalRate cfg.verify_failure h.verify_failure,
  clamp_rate_of_IsNormalRate cfg.exchange_success h.exchange_success,
  clamp_rate_of_IsNormalRate cfg.exchange_failure h.exchange_failure,
  default_rate_of_IsNormalRate cfg.verify_failure h.verify_failure,
  default_rate_of_IsNormalRate cfg.exchange_success h.exchange_success,
  default_rate_of_IsNormalRate cfg.exchange_failure h.exchange_failure,
)

-- Whatever the configuration, the normalised one has a known mode, each of its rates lies between 0
-- and 1 or is no number, and normalising it once more changes nothing.
pub normalize_policy_config-IsNormal :
    (cfg : PolicyConfig)
    → IsNormal (normalize_policy_config cfg)
      × (normalize_policy_config (normalize_policy_config cfg) ≡ normalize_policy_config cfg)
unfolding normalize_policy_config
normalize_policy_config-IsNormal cfg =
    let n = clamp_config-IsNormal (fill_defaults cfg) in
    (n, ap clamp_config (fill_defaults_of_mode _ n.mode) ∙ clamp_config_of_IsNormal _ n)

pub normalize_policy_config_of_IsNormal :
    (cfg : PolicyConfig) → IsNormal cfg → normalize_policy_config cfg ≡ cfg
unfolding normalize_policy_config
normalize_policy_config_of_IsNormal cfg n =
    ap clamp_config (fill_defaults_of_mode cfg n.mode) ∙ clamp_config_of_IsNormal cfg n

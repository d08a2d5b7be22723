-- ===== src/Config/Values/Checks.antt =====
-- internal/config/config.go: what the parsers of the values let through.
use turnstile_appcheck_gatew.Prelude.{
  String, Bool, false, ◌||◌, ◌≡◌, refl, Option, ◌==◌, ℤ, pos, negsuc, leb_ℤ, ltb_ℤ, ◌<◌, arith,
}
use turnstile_appcheck_gatew.Prelude.Int.{pos_part, neg_part}
use turnstile_appcheck_gatew.Prelude.Results.{
  Ensures, Ensures_any, holds, ◌⟫◌, Ensures-or_err, Ensures-refuse_if, Ensures-if, Ensures-weaken,
}
use turnstile_appcheck_gatew.Float.{Float64, lt_float, zero_rate, one_rate}
use turnstile_appcheck_gatew.GoStrings.{trim_space, atoi}
use turnstile_appcheck_gatew.Config.{Parsers, Loaded, invalid}
use turnstile_appcheck_gatew.Config.Values.{
  Env, env_get, setting, checked, parse_positive_int, parse_non_negative_int,
  parse_positive_duration, parse_non_negative_duration, parse_sample_rate,
}

abbrev pub IsPositive : ℤ → Type 0
IsPositive v = 0 < pos_part v

abbrev pub IsNonNegative : ℤ → Type 0
IsNonNegative v = neg_part v ≡ 0

-- neither below 0 nor above 1; NaN is neither
abbrev pub IsRate : Float64 → Type 0
IsRate v = (lt_float v zero_rate || lt_float one_rate v) ≡ false

module _ {A : Type 0} where
  pub setting-Ensures :
      {P : A → Type 0} (env : Env) (key : String) (parse : String → String → Loaded A) (current : A)
      → P current
      → ((raw : String) → Ensures P (parse key raw))
      → Ensures P (setting env key parse current)
  unfolding setting
  setting-Ensures env key parse current h k =
      Ensures-if (trim_space (env_get env key) == "") (λ _. holds h)
        (λ _. k (trim_space (env_get env key)))

  pub checked-Ensures :
      (refuses : A → Bool) (parsed : Option A) (name raw : String)
      → Ensures (λ v. refuses v ≡ false) (checked refuses parsed name raw)
  unfolding checked
  checked-Ensures refuses parsed name raw =
      Ensures-or_err {P = λ _. Unit} parsed (invalid name raw) (λ a e. tt)
      ⟫ (λ value _. Ensures-refuse_if (refuses value) (invalid name raw) ⟫ (λ _ h. holds h))

pub checked_positive :
    (parsed : Option ℤ) (name raw : String)
    → Ensures IsPositive (checked (λ v. leb_ℤ v (pos 0)) parsed name raw)
checked_positive parsed name raw =
    Ensures-weaken (checked-Ensures (λ v. leb_ℤ v (pos 0)) parsed name raw) not_below_one
  where
    not_below_one : (v : ℤ) → leb_ℤ v (pos 0) ≡ false → IsPositive v
    not_below_one (pos n) h = ground arith
    not_below_one (negsuc n) h = ground arith

pub checked-IsNonNegative :
    (parsed : Option ℤ) (name raw : String)
    → Ensures IsNonNegative (checked (λ v. ltb_ℤ v (pos 0)) parsed name raw)
checked-IsNonNegative parsed name raw =
    Ensures-weaken (checked-Ensures (λ v. ltb_ℤ v (pos 0)) parsed name raw) not_negative
  where
    not_negative : (v : ℤ) → ltb_ℤ v (pos 0) ≡ false → IsNonNegative v
    not_negative (pos n) h = refl
    not_negative (negsuc n) h = ground arith

-- a setting whose parser is one of those below keeps its property
module _ (env : Env) (key : String) where
  pub positive_int :
      (v : ℤ) → IsPositive v → Ensures IsPositive (setting env key parse_positive_int v)
  unfolding parse_positive_int
  positive_int v h =
      setting-Ensures env key parse_positive_int v h (λ raw. checked_positive (atoi raw) key raw)

  pub IsNonNegative-int :
      (v : ℤ) → IsNonNegative v → Ensures IsNonNegative (setting env key parse_non_negative_int v)
  unfolding parse_non_negative_int
  IsNonNegative-int v h =
      setting-Ensures env key parse_non_negative_int v h
        (λ raw. checked-IsNonNegative (atoi raw) key raw)

  pub positive_duration :
      (go : Parsers) (v : ℤ)
      → IsPositive v
      → Ensures IsPositive (setting env key (parse_positive_duration go) v)
  unfolding parse_positive_duration
  positive_duration go v h =
      setting-Ensures env key (parse_positive_duration go) v h
        (λ raw. checked_positive (go.parse_duration raw) key raw)

  pub IsNonNegative-duration :
      (go : Parsers) (v : ℤ)
      → IsNonNegative v
      → Ensures IsNonNegative (setting env key (parse_non_negative_duration go) v)
  unfolding parse_non_negative_duration
  IsNonNegative-duration go v h =
      setting-Ensures env key (parse_non_negative_duration go) v h
        (λ raw. checked-IsNonNegative (go.parse_duration raw) key raw)

  pub sample-IsRate :
      (go : Parsers) (v : Float64)
      → IsRate v
      → Ensures IsRate (setting env key (parse_sample_rate go) v)
  unfolding parse_sample_rate
  sample-IsRate go v h = setting-Ensures env key (parse_sample_rate go) v h (λ raw.
      checked-Ensures (λ v. lt_float v zero_rate || lt_float one_rate v) (go.parse_float raw) key
        raw)

-- a setting of which nothing is asked
pub any_value :
    {A : Type 0} (env : Env) (key : String) (parse : String → String → Loaded A) (current : A)
    → Ensures (λ _. Unit) (setting env key parse current)
any_value env key parse current = Ensures_any (setting env key parse current)

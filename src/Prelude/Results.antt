-- ===== src/Prelude/Results.antt =====
-- The results of functions that return `(T, error)`, and postconditions on them.
use mathlib.Core.Path.{◌≡◌, refl, subst}
use mathlib.Core.Bool.{Bool, true, false}
use mathlib.Core.Option.{Option, none, some}
use turnstile_appcheck_gatew.Prelude.Tests.{if◌then◌else◌}

pub data Result {ℓ} (E A : Type ℓ) : Type ℓ where
  ok : A → Result E A
  err : E → Result E A

module _ {ℓ} {E : Type ℓ} where
  infixl 1 ◌>>=◌ ◌>>◌
  abbrev pub ◌>>=◌ : {A B : Type ℓ} → Result E A → (A → Result E B) → Result E B
  ok a >>= f = f a
  err e >>= f = err e

  abbrev pub ◌>>◌ : {A B : Type ℓ} → Result E A → Result E B → Result E B
  m >> k = m >>= λ _. k

  -- `if refused { return nil, e }`
  abbrev pub refuse_if : Bool → E → Result E (Unit {ℓ})
  refuse_if true e = err e
  refuse_if false e = ok tt

  abbrev pub or_err : {A : Type ℓ} → Option A → E → Result E A
  or_err none e = err e
  or_err (some a) e = ok a

-- `P` holds of the value, if there is one.
pub data Ensures {ℓ} {E A : Type ℓ} (P : A → Type ℓ) : Result E A → Type ℓ where
  holds : {a : A} → P a → Ensures P (ok a)
  fails : {e : E} → Ensures P (err e)

module _ {ℓ} {E A : Type ℓ} {P : A → Type ℓ} where
  pub Ensures-ok : {r : Result E A} {a : A} → Ensures P r → r ≡ ok a → P a
  Ensures-ok (holds h) e = subst P (cc) h
  Ensures-ok fails e = cc

  infixl 1 ◌⟫◌
  pub ◌⟫◌ :
      {B : Type ℓ} {Q : B → Type ℓ} {r : Result E A} {f : A → Result E B}
      → Ensures P r
      → ((a : A) → P a → Ensures Q (f a))
      → Ensures Q (r >>= f)
  holds {a} h ⟫ k = k a h
  fails ⟫ k = fails

  pub Ensures-or_err :
      (o : Option A) (e : E) → ((a : A) → o ≡ some a → P a) → Ensures P (or_err o e)
  Ensures-or_err none e h = fails
  Ensures-or_err (some a) e h = holds (h a refl)

  pub Ensures-if :
      (b : Bool) {x y : Result E A}
      → (b ≡ true → Ensures P x)
      → (b ≡ false → Ensures P y)
      → Ensures P (if b then x else y)
  Ensures-if true hx hy = hx refl
  Ensures-if false hx hy = hy refl

  pub Ensures-weaken :
      {Q : A → Type ℓ} {r : Result E A} → Ensures P r → ((a : A) → P a → Q a) → Ensures Q r
  Ensures-weaken (holds h) g = holds (g _ h)
  Ensures-weaken fails g = fails

-- the test of a guard that let the call go on
pub Ensures-refuse_if :
    {E : Type 0} (b : Bool) (e : E) → Ensures {A = Unit {0}} (λ _. b ≡ false) (refuse_if b e)
Ensures-refuse_if true e = fails
Ensures-refuse_if false e = holds refl

pub Ensures_any {ℓ} : {E A : Type ℓ} (r : Result E A) → Ensures (λ _. Unit {ℓ}) r
Ensures_any (ok a) = holds tt
Ensures_any (err e) = fails

-- ===== src/Store/Rows.antt =====
-- Lists of rows in descending order.
use turnstile_appcheck_gatew.Prelude.{
  ℕ, zero, suc, ◌≤◌, ◌<◌, Bool, true, false, ◌&&◌, List, [], ◌∷◌, ◌++◌, some, ltb, leb, leb→le,
  length, take, keep_if, All, ◌≡◌, refl, ap, arith, Bool-cases, inl, inr, ◌⊎◌,
}
use turnstile_appcheck_gatew.Audit.Event.{Event}
use turnstile_appcheck_gatew.Store.{is_before, cursor_of, last}

pub ltb-false : (m n : ℕ) → n ≤ m → ltb m n ≡ false
ltb-false m n h = ground arith

pub ltb-suc : (n : ℕ) → ltb n (suc n) ≡ true
ltb-suc n = ground arith

pub le_or_lt : (m n : ℕ) → (m ≤ n) ⊎ (n < m)
le_or_lt m n = elim (Bool-cases (leb m n)) [
  | inl e ↦ inl (leb→le m n e)
  | inr e ↦ inr (ground arith)
]

-- each row stands before all that follow it
abbrev pub IsDescending : List Event → Type 0
IsDescending [] = Unit
IsDescending (e ∷ es) = All (λ e'. is_before (cursor_of e) e' ≡ true) es × IsDescending es

-- a row has a time and a sequence number
abbrev pub IsNumbered : Event → Type 0
IsNumbered e = (0 < e.timestamp) × (0 < e.seq)

before_itself : (e : Event) → is_before (cursor_of e) e ≡ false
unfolding is_before
before_itself e = ground arith

before_asym : (e d : Event) → is_before (cursor_of d) e ≡ true → is_before (cursor_of e) d ≡ false
unfolding is_before
before_asym e d h = ground arith

pub All-middle :
    (P : Event → Type 0) (xs : List Event) (e : Event) (ys : List Event)
    → All P (xs ++ e ∷ ys)
    → P e
All-middle P [] e ys h = h.0
All-middle P (x ∷ xs) e ys h = All-middle P xs e ys h.1

keep-All : (p : Event → Bool) (es : List Event) → All (λ e. p e ≡ true) es → keep_if p es ≡ es
keep-All p [] h = refl
keep-All p (e ∷ es) h = rw (h.0, keep-All p es h.1)

-- the rows before one of a descending list are those that follow it
pub keep-after :
    (xs : List Event) (e : Event) (ys : List Event)
    → IsDescending (xs ++ e ∷ ys)
    → keep_if (is_before (cursor_of e)) (xs ++ e ∷ ys) ≡ ys
keep-after [] e ys h = rw (before_itself e) (keep-All _ ys h.0)
keep-after (x ∷ xs) e ys h =
    rw (before_asym e x (All-middle _ xs e ys h.0)) (keep-after xs e ys h.1)

pub All-keep_if :
    (P : Event → Type 0) (p : Event → Bool) (es : List Event) → All P es → All P (keep_if p es)
All-keep_if P p [] h = tt
All-keep_if P p (e ∷ es) h = elim (Bool-cases (p e)) [
  | inl k ↦ rw k (h.0, All-keep_if P p es h.1)
  | inr k ↦ rw k (All-keep_if P p es h.1)
]

pub keep_if-IsDescending :
    (p : Event → Bool) (es : List Event) → IsDescending es → IsDescending (keep_if p es)
keep_if-IsDescending p [] h = tt
keep_if-IsDescending p (e ∷ es) h = elim (Bool-cases (p e)) [
  | inl k ↦ rw k (All-keep_if _ p es h.0, keep_if-IsDescending p es h.1)
  | inr k ↦ rw k (keep_if-IsDescending p es h.1)
]

pub keep_if-and :
    (p q : Event → Bool) (es : List Event) → keep_if (λ e. p e && q e) es ≡ keep_if q (keep_if p es)
keep_if-and p q [] = refl
keep_if-and p q (e ∷ es) = elim (Bool-cases (p e)) [
  | inl k ↦ rw k (rw (keep_if-and p q es))
  | inr k ↦ rw k (keep_if-and p q es)
]

pub keep-true : (p : Event → Bool) (es : List Event) → keep_if (λ e. p e && true) es ≡ keep_if p es
keep-true p [] = refl
keep-true p (e ∷ es) = elim (Bool-cases (p e)) [
  | inl k ↦ rw k (ap (λ l. e ∷ l) (keep-true p es))
  | inr k ↦ rw k (keep-true p es)
]

pub last-append : (init : List Event) (e : Event) → last (init ++ e ∷ []) ≡ some e
last-append [] e = refl
last-append (x ∷ []) e = refl
last-append (x ∷ (y ∷ init)) e = last-append (y ∷ init) e

pub take_short : (n : ℕ) (rest : List Event) → length rest ≤ n → take n rest ≡ rest
take_short zero [] h = refl
take_short (suc n) [] h = refl
take_short zero (e ∷ rest) h = absurd (omega arith)
take_short (suc n) (e ∷ rest) h = ap (λ l. e ∷ l) (take_short n rest (omega arith))

-- The first `n` of more than `n` rows: `e` is the last of them, `ys` follow.
pub record Cut (n : ℕ) (rest : List Event) : Type 0 where
  pub init : List Event
  pub e : Event
  pub ys : List Event
  pub whole : rest ≡ init ++ e ∷ ys
  pub first : take n (take (suc n) rest) ≡ init ++ e ∷ []
  pub more : length (take (suc n) rest) ≡ suc n
  pub fewer : length ys < length rest

pub cut : (n : ℕ) (rest : List Event) → 0 < n → n < length rest → Cut n rest
cut zero rest p h = absurd (omega arith)
cut (suc n) [] p h = absurd (omega arith)
cut (suc zero) (e ∷ []) p h = absurd (omega arith)
cut (suc zero) (e ∷ (y ∷ ys)) p h = record {
  init = [];
  e = e;
  ys = y ∷ ys;
  whole = refl;
  first = refl;
  more = refl;
  fewer = omega arith;
}
cut (suc (suc n)) (x ∷ rest) p h =
    let c = cut (suc n) rest (omega arith) (omega arith) in
    record {
      init = x ∷ c.init;
      e = c.e;
      ys = c.ys;
      whole = ap (λ l. x ∷ l) c.whole;
      first = ap (λ l. x ∷ l) c.first;
      more = ap suc c.more;
      fewer = omega (arith, c.fewer);
    }

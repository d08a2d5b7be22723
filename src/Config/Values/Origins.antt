-- ===== src/Config/Values/Origins.antt =====
-- internal/config/config.go: which origins a list of allowed origins lets through.
use turnstile_appcheck_gatew.Prelude.{
  String, Bool, true, false, not, ◌&&◌, ◌||◌, List, [], ◌∷◌, any, is_empty, ◌==◌, eq_iff, ◌≡◌, refl,
  sym, ap, ◌∙◌, if◌then◌else◌, Bool-cases, inl, inr, arith,
}
use turnstile_appcheck_gatew.Prelude.Results.{
  Result, ok, err, Ensures, holds, fails, ◌⟫◌, Ensures-ok, Ensures-if, Ensures-weaken, ◌>>=◌,
}
use turnstile_appcheck_gatew.GoStrings.{trim_space, split_byte}
use turnstile_appcheck_gatew.Config.{Parsers}
use turnstile_appcheck_gatew.Config.Values.{
  normalize_origin, of_origin, origins_from, parse_allowed_origins, is_exchange_origin_allowed,
}

abbrev is_blank_part : String → Bool
is_blank_part part = trim_space part == ""

-- the test passes on the value
abbrev if_ok : (String → Bool) → Result String String → Bool
if_ok p (ok a) = p a
if_ok p (err e) = false

module _ (go : Parsers) where
  -- the text stands for the origin `n`
  abbrev pub has_normal_form : String → String → Bool
  has_normal_form n s = if_ok (λ m. m == n) (normalize_origin go (trim_space s))

  -- a part of the list that is not blank stands for the origin `n`
  abbrev pub names_origin : String → String → Bool
  names_origin n part = not (is_blank_part part) && has_normal_form n part

  abbrev Lists : List String → List String → List String → Type 0
  Lists seen parts origins =
      ((n : String)
        → any (λ k. k == n) seen ≡ false
        → any (λ a. a == n) origins ≡ any (names_origin n) parts)
      × ((not (is_empty seen) || not (is_empty origins))
          ≡ (not (is_empty seen) || any (λ p. not (is_blank_part p)) parts))

  not_known :
      (seen : List String) (m n : String)
      → any (λ k. k == n) seen ≡ false
      → any (λ k. k == m) seen ≡ true
      → (m == n) ≡ false
  not_known seen m n h k = elim (Bool-cases (m == n)) [
    | inl e ↦ (let k' = rw ((eq_iff m n).0 e) at k in cc)
    | inr e ↦ e
  ]

  seen_not_empty :
      (seen : List String) (m : String) → any (λ k. k == m) seen ≡ true → not (is_empty seen) ≡ true
  seen_not_empty [] m h = cc
  seen_not_empty (k ∷ seen) m h = refl

  names_origin_of_ok :
      (part m n : String)
      → is_blank_part part ≡ false
      → normalize_origin go (trim_space part) ≡ ok m
      → names_origin n part ≡ (m == n)
  names_origin_of_ok part m n b e = rw b (ap (if_ok (λ k. k == n)) e)

  known_part :
      (seen parts rest : List String) (part m : String)
      → is_blank_part part ≡ false
      → normalize_origin go (trim_space part) ≡ ok m
      → any (λ k. k == m) seen ≡ true
      → Lists seen parts rest
      → Lists seen (part ∷ parts) rest
  known_part seen parts rest part m b e k h = (
    λ n fresh.
        h.0 n fresh
        ∙ sym (rw (names_origin_of_ok part m n b e) (rw (not_known seen m n fresh k) refl)),
    rw (seen_not_empty seen m k) refl,
  )

  new_part :
      (seen parts rest : List String) (part m : String)
      → is_blank_part part ≡ false
      → normalize_origin go (trim_space part) ≡ ok m
      → Lists (m ∷ seen) parts rest
      → Lists seen (part ∷ parts) (m ∷ rest)
  new_part seen parts rest part m b e h = (
    λ n fresh. elim (Bool-cases (m == n)) [
      | inl same ↦ rw (names_origin_of_ok part m n b e) (rw same refl)
      | inr other ↦ rw (names_origin_of_ok part m n b e) (rw other (h.0 n (rw other fresh)))
    ],
    rw b (ground arith),
  )

  taken :
      (r : Result String String) (part : String) (parts seen : List String)
      → is_blank_part part ≡ false
      → normalize_origin go (trim_space part) ≡ r
      → ((seen' : List String) → Ensures (Lists seen' parts) (origins_from go seen' parts))
      → Ensures (Lists seen (part ∷ parts)) (
          of_origin go (trim_space part) r >>= λ normalized.
          origins_from go
            (if any (λ k. k == normalized) seen then seen else normalized ∷ seen)
            parts
          >>= λ rest. ok (if any (λ k. k == normalized) seen then rest else normalized ∷ rest))
  unfolding of_origin
  taken (err cause) part parts seen b e ih = fails
  taken (ok m) part parts seen b e ih = elim (Bool-cases (any (λ k. k == m) seen)) [
    | inl k ↦ rw k (ih seen ⟫ (λ rest h. holds (known_part seen parts rest part m b e k h)))
    | inr k ↦ rw k (ih (m ∷ seen) ⟫ (λ rest h. holds (new_part seen parts rest part m b e h)))
  ]

  origins_from-Lists :
      (parts seen : List String) → Ensures (Lists seen parts) (origins_from go seen parts)
  unfolding origins_from
  origins_from-Lists [] seen = holds (λ n h. refl, refl)
  origins_from-Lists (part ∷ parts) seen =
      Ensures-if (is_blank_part part)
        (λ b.
          Ensures-weaken (origins_from-Lists parts seen)
            (λ o h. (λ n fresh. rw b (h.0 n fresh), rw b h.1)))
        (λ b.
          taken (normalize_origin go (trim_space part)) part parts seen b refl
            (λ seen'. origins_from-Lists parts seen'))

  -- what the list of allowed origins says of an origin: with no part that is not blank it lets every
  -- origin through, and else those that stand for the same origin as one of its parts
  abbrev pub is_listed : String → String → Bool
  is_listed raw origin =
      let parts = split_byte b',' raw in
      if any (λ p. not (is_blank_part p)) parts
      then (not (is_blank_part origin)
          && if_ok (λ n. any (names_origin n) parts) (normalize_origin go (trim_space origin)))
      else true

  any-allowed :
      (r : Result String String) (parts : List String) (origins : List String)
      → Lists [] parts origins
      → (elim r [ err cause ↦ false | ok n ↦ any (λ allowed. allowed == n) origins ])
        ≡ if_ok (λ n. any (names_origin n) parts) r
  any-allowed (ok n) parts origins h = h.0 n refl
  any-allowed (err cause) parts origins h = refl

  allowed_by :
      (origins : List String) (raw origin : String)
      → Lists [] (split_byte b',' raw) origins
      → is_exchange_origin_allowed go origins origin ≡ is_listed raw origin
  unfolding is_exchange_origin_allowed
  allowed_by [] raw origin h = rw (sym h.1) refl
  allowed_by (first ∷ more) raw origin h = elim (Bool-cases (is_blank_part origin)) [
    | inl b ↦ rw (sym h.1) (rw b refl)
    | inr b ↦ rw (sym h.1) (
        rw b (
          any-allowed (normalize_origin go (trim_space origin)) (split_byte b',' raw) (first ∷ more)
            h))
  ]

  -- With the allowed origins that a text lists, an origin is allowed exactly if the text has a part that
  -- stands for the same origin, whatever the spelling of either; a text of blank parts, as `,` is, allows
  -- every origin.
  pub is_exchange_origin_allowed_lem :
      (raw origin : String) (origins : List String)
      → parse_allowed_origins go raw ≡ ok origins
      → is_exchange_origin_allowed go origins origin ≡ is_listed raw origin
  unfolding parse_allowed_origins
  is_exchange_origin_allowed_lem raw origin origins e =
      allowed_by origins raw origin (Ensures-ok (origins_from-Lists (split_byte b',' raw) []) e)

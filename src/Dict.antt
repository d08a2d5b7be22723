-- ===== src/Dict.antt =====
-- Go's `map[string]V`, as far as the program uses it: reads, writes and deletions while ranging.
-- The order in which Go ranges over a map is not fixed, and nothing here depends on it.
use turnstile_appcheck_gatew.Prelude.{
  String, ◌≡◌, refl, Bool, Option, none, some, List, [], ◌∷◌, arith, ◌==◌, eq_iff, eq_refl,
  if◌then◌else◌,
}

abbrev pub Dict {ℓ} : Type ℓ → Type ℓ
Dict V = List (String × V)

module _ {ℓ} {V : Type ℓ} where
  -- m[k], with the second result of `v, ok := m[k]`
  unfoldable pub lookup : String → Dict V → Option V
  lookup k [] = none
  lookup k ((j, v) ∷ m) = if j == k then some v else lookup k m

  -- delete(m, k)
  unfoldable pub delete : String → Dict V → Dict V
  delete k [] = []
  delete k ((j, v) ∷ m) = let rest = delete k m in if j == k then rest else (j, v) ∷ rest

  -- m[k] = v
  unfoldable pub insert : String → V → Dict V → Dict V
  unfolding delete
  insert k v m = (k, v) ∷ delete k m

  -- a loop over the map that deletes the entries which fail a test on their value
  unfoldable pub retain : (V → Bool) → Dict V → Dict V
  retain p [] = []
  retain p ((j, v) ∷ m) = let rest = retain p m in if p v then (j, v) ∷ rest else rest

  pub lookup-delete :
      (k j : String) (m : Dict V) → lookup j (delete k m) ≡ (if k == j then none else lookup j m)
  unfolding lookup delete
  lookup-delete k j [] = ground arith
  lookup-delete k j ((i, v) ∷ m) =
      ground (arith, lookup-delete k j m, eq_iff i k, eq_iff i j, eq_iff k j)

  pub lookup-insert :
      (k j : String) (v : V) (m : Dict V)
      → lookup j (insert k v m) ≡ (if k == j then some v else lookup j m)
  unfolding lookup insert
  lookup-insert k j v m = ground (arith, lookup-delete k j m, eq_iff k j)

-- each key stands once
module _ {ℓ} {V : Type ℓ} where
  abbrev pub HasUniqueKeys : Dict V → Type ℓ
  HasUniqueKeys [] = Unit
  HasUniqueKeys ((j, v) ∷ m) = (lookup j m ≡ none) × HasUniqueKeys m

  lookup-delete-none :
      (k j : String) (m : Dict V) → lookup j m ≡ none → lookup j (delete k m) ≡ none
  lookup-delete-none k j m h = rw (lookup-delete, h) (ground arith)

  delete-HasUniqueKeys : (k : String) (m : Dict V) → HasUniqueKeys m → HasUniqueKeys (delete k m)
  unfolding delete
  delete-HasUniqueKeys k [] u = tt
  delete-HasUniqueKeys k ((j, v) ∷ m) u =
      ground (arith, delete-HasUniqueKeys k m u.1, lookup-delete-none k j m u.0)

  pub insert-HasUniqueKeys :
      (k : String) (v : V) (m : Dict V) → HasUniqueKeys m → HasUniqueKeys (insert k v m)
  unfolding insert
  insert-HasUniqueKeys k v m u = (rw lookup-delete (rw (eq_refl k)), delete-HasUniqueKeys k m u)

  lookup-retain-none :
      (p : V → Bool) (k : String) (m : Dict V) → lookup k m ≡ none → lookup k (retain p m) ≡ none
  unfolding lookup retain
  lookup-retain-none p k [] h = refl
  lookup-retain-none p k ((j, v) ∷ m) h = ground (arith, lookup-retain-none p k m)

  pub retain-HasUniqueKeys :
      (p : V → Bool) (m : Dict V) → HasUniqueKeys m → HasUniqueKeys (retain p m)
  unfolding retain
  retain-HasUniqueKeys p [] u = tt
  retain-HasUniqueKeys p ((j, v) ∷ m) u =
      ground (arith, retain-HasUniqueKeys p m u.1, lookup-retain-none p j m u.0)

  -- a value under a test
  abbrev pub only_if : (V → Bool) → Option V → Option V
  only_if p none = none
  only_if p (some v) = if p v then some v else none

  pub lookup-retain :
      (p : V → Bool) (k : String) (m : Dict V)
      → HasUniqueKeys m
      → lookup k (retain p m) ≡ only_if p (lookup k m)
  unfolding lookup retain
  lookup-retain p k [] u = refl
  lookup-retain p k ((j, v) ∷ m) u =
      ground (arith, lookup-retain p k m u.1, eq_iff j k, lookup-retain-none p j m u.0)

-- ===== src/Store/Rollups/Counts.antt =====
-- Merging keeps the counts.
use turnstile_appcheck_gatew.Prelude.{
  ℕ, ◌+◌, String, Bool, true, false, List, [], ◌∷◌, Option, none, some, ◌==◌, if◌then◌else◌, ◌≡◌,
  refl, ◌∙◌, arith, Bool-cases, inl, inr, eq_iff,
}
use turnstile_appcheck_gatew.Dict.{
  Dict, lookup, insert, lookup-insert, HasUniqueKeys, insert-HasUniqueKeys,
}
use turnstile_appcheck_gatew.Audit.Event.{Time, MetricRollup}
use turnstile_appcheck_gatew.Store.Rollups.{fill_rollup, rollup_key, merged_with, merge_into}

-- the count under a key; a missing key counts 0
abbrev pub count_of : Option MetricRollup → ℕ
count_of none = 0
count_of (some r) = r.count

-- the sum of the counts of the rollups with a key, as they are filled in
abbrev pub counted_as : (Time → String) → String → List (MetricRollup × Time) → ℕ
counted_as print key [] = 0
counted_as print key ((r, now) ∷ more) =
    let rest = counted_as print key more in
    if rollup_key print (fill_rollup r now) == key then (fill_rollup r now).count + rest else rest

pub merged_with-count :
    (o : Option MetricRollup) (r : MetricRollup) → (merged_with o r).count ≡ count_of o + r.count
unfolding merged_with
merged_with-count none r = omega arith
merged_with-count (some old) r = ground arith

equal_if : (k key : String) → (k == key) ≡ true → k ≡ key
equal_if k key e = ground (arith, eq_iff k key)

insert-count :
    (k key : String) (f : MetricRollup) (m : Dict MetricRollup)
    → count_of (lookup key (insert k (merged_with (lookup k m) f) m))
      ≡ (if k == key then count_of (lookup key m) + f.count else count_of (lookup key m))
insert-count k key f m = elim (Bool-cases (k == key)) [
  | inl e ↦
      rw (lookup-insert k key (merged_with (lookup k m) f) m, e)
        (merged_with-count (lookup k m) f ∙ rw (equal_if k key e))
  | inr e ↦ rw (lookup-insert k key (merged_with (lookup k m) f) m, e)
]

add_step :
    (b : Bool) (old new rest : ℕ)
    → (if b then old + new else old) + rest ≡ old + (if b then new + rest else rest)
add_step true old new rest = omega arith
add_step false old new rest = refl

merge_into-count :
    (print : Time → String) (key : String) (m : Dict MetricRollup)
    (rollups : List (MetricRollup × Time))
    → count_of (lookup key (merge_into print m rollups))
      ≡ count_of (lookup key m) + counted_as print key rollups
unfolding merge_into
merge_into-count print key m [] = omega arith
merge_into-count print key m ((r, now) ∷ more) =
    let filled = fill_rollup r now in
    let k = rollup_key print filled in
    merge_into-count print key (insert k (merged_with (lookup k m) filled) m) more
    ∙ rw (insert-count k key filled m)
        (add_step (k == key) (count_of (lookup key m)) filled.count (counted_as print key more))

merge_into-HasUniqueKeys :
    (print : Time → String) (m : Dict MetricRollup) (rollups : List (MetricRollup × Time))
    → HasUniqueKeys m
    → HasUniqueKeys (merge_into print m rollups)
unfolding merge_into
merge_into-HasUniqueKeys print m [] h = h
merge_into-HasUniqueKeys print m ((r, now) ∷ more) h =
    let filled = fill_rollup r now in
    let k = rollup_key print filled in
    merge_into-HasUniqueKeys print (insert k (merged_with (lookup k m) filled) m) more
      (insert-HasUniqueKeys k (merged_with (lookup k m) filled) m h)

-- Merging the rollups of a batch leaves one for each key, whose count is the sum of the counts of the
-- batch's rollups with this key, a count of 0 taken as 1, as mergeRollups fills it in.
pub merge_into_counts :
    (print : Time → String) (rollups : List (MetricRollup × Time)) (key : String)
    → HasUniqueKeys (merge_into print [] rollups)
      × (count_of (lookup key (merge_into print [] rollups)) ≡ counted_as print key rollups)
unfolding lookup
merge_into_counts print rollups key = (
  merge_into-HasUniqueKeys print [] rollups tt,
  omega (arith, merge_into-count print key [] rollups),
)

-- ===== src/Store/Rollups/Sums.antt =====
-- internal/audit/storage/bunrepo/repository.go: what all the rollups of a batch count, before they are
-- merged and after.
use turnstile_appcheck_gatew.Prelude.{
  ℕ, ◌+◌, String, not, List, [], ◌∷◌, none, ◌==◌, map, keep_if, eqb, if◌then◌else◌, ◌≡◌, refl, ap,
  arith, Bool-cases, inl, inr, eq_iff,
}
use turnstile_appcheck_gatew.Dict.{
  Dict, lookup, delete, insert, HasUniqueKeys, insert-HasUniqueKeys,
}
use turnstile_appcheck_gatew.Audit.Event.{Time, MetricRollup}
use turnstile_appcheck_gatew.Store.Rollups.{
  fill_rollup, rollup_key, merged_with, merge_into, merge_rollups, to_rollup_model,
  prepare_rollup_models,
}
use turnstile_appcheck_gatew.Store.Rollups.Counts.{count_of, merged_with-count}

abbrev pub sum_counts : List MetricRollup → ℕ
sum_counts [] = 0
sum_counts (r ∷ rs) = r.count + sum_counts rs

-- what the rollups of a batch count; a count of 0 stands for 1
abbrev pub batch_count : List MetricRollup → ℕ
batch_count [] = 0
batch_count (r ∷ rs) = (if eqb r.count 0 then 1 else r.count) + batch_count rs

abbrev pub undated : List (MetricRollup × Time) → List MetricRollup
undated [] = []
undated ((r, now) ∷ more) = r ∷ undated more

abbrev values : Dict MetricRollup → List MetricRollup
values m = map (λ (entry : String × MetricRollup). entry.1) m

delete-absent : (k : String) (m : Dict MetricRollup) → lookup k m ≡ none → delete k m ≡ m
unfolding delete lookup
delete-absent k [] h = refl
delete-absent k ((j, v) ∷ m) h = elim (Bool-cases (j == k)) [
  | inl e ↦ (let h' = rw e at h in cc)
  | inr e ↦ rw e (ap (λ l. (j, v) ∷ l) (delete-absent k m (rw e at h)))
]

delete-sum :
    (k : String) (m : Dict MetricRollup)
    → HasUniqueKeys m
    → count_of (lookup k m) + sum_counts (values (delete k m)) ≡ sum_counts (values m)
unfolding delete lookup
delete-sum k [] u = refl
delete-sum k ((j, v) ∷ m) u = elim (Bool-cases (j == k)) [
  | inl e ↦
      let same : lookup k m ≡ none = rw (← ((eq_iff j k).0 e)) (u.0) in
      rw e (rw (delete-absent k m same) refl)
  | inr e ↦ rw e (omega (arith, delete-sum k m u.1))
]

insert-sum :
    (k : String) (f : MetricRollup) (m : Dict MetricRollup)
    → HasUniqueKeys m
    → sum_counts (values (insert k (merged_with (lookup k m) f) m))
      ≡ sum_counts (values m) + f.count
unfolding insert
insert-sum k f m u = omega (arith, delete-sum k m u, merged_with-count (lookup k m) f)

fill-count :
    (r : MetricRollup) (now : Time)
    → (fill_rollup r now).count ≡ (if eqb r.count 0 then 1 else r.count)
unfolding fill_rollup
fill-count r now = refl

merge_into-sum :
    (print : Time → String) (m : Dict MetricRollup) (rollups : List (MetricRollup × Time))
    → HasUniqueKeys m
    → sum_counts (values (merge_into print m rollups))
      ≡ sum_counts (values m) + batch_count (undated rollups)
unfolding merge_into
merge_into-sum print m [] u = omega arith
merge_into-sum print m ((r, now) ∷ more) u =
    let filled = fill_rollup r now in
    let k = rollup_key print filled in
    let v = merged_with (lookup k m) filled in
    let rest = merge_into-sum print (insert k v m) more (insert-HasUniqueKeys k v m u) in
    omega (arith, rest, insert-sum k filled m u, fill-count r now)

keep_if-sum :
    (rs : List MetricRollup)
    → sum_counts (keep_if (λ (r : MetricRollup). not (eqb r.count 0)) rs) ≡ sum_counts rs
keep_if-sum [] = refl
keep_if-sum (r ∷ rs) = ground (arith, keep_if-sum rs)

to_rollup_model-sum : (rs : List MetricRollup) → sum_counts (map to_rollup_model rs) ≡ sum_counts rs
unfolding to_rollup_model
to_rollup_model-sum [] = refl
to_rollup_model-sum (r ∷ rs) = ap (λ n. r.count + n) (to_rollup_model-sum rs)

-- the models of a batch count what its rollups count
pub prepared-sum :
    (print : Time → String) (rollups : List (MetricRollup × Time))
    → sum_counts (prepare_rollup_models print rollups) ≡ batch_count (undated rollups)
unfolding prepare_rollup_models merge_rollups
prepared-sum print rollups =
    let merged = merge_rollups print rollups in
    omega (
      arith,
      to_rollup_model-sum (keep_if (λ (r : MetricRollup). not (eqb r.count 0)) merged),
      keep_if-sum merged,
      merge_into-sum print [] rollups tt,
    )

-- ===== src/Store/Metrics/Ends.antt =====
-- internal/audit/storage/bunrepo/repository.go: Metrics ends, with a bounded number of points.
use turnstile_appcheck_gatew.Prelude.{
  ℕ, zero, suc, ◌+◌, ◌-◌, ◌*◌, ◌/◌, ◌≤◌, ◌<◌, false, List, [], ◌∷◌, some, length, ltb, lt→ltb, ◌≡◌,
  refl, ◌∙◌, arith, Bool-cases, inl, inr, pos,
}
use turnstile_appcheck_gatew.Audit.Event.{Time, MetricRollup}
use turnstile_appcheck_gatew.Store.Metrics.{
  counts_rollup, normalize_metrics_filter, Metrics, MetricPoint, MetricsFilter, answered, second,
  unix_epoch, unix, from_unix, bucket_start, bucket_seconds, count_at, points_from, Rows,
  summary_of, rollup_columns, points_after, with_points, metrics_of, metrics,
}
use turnstile_appcheck_gatew.Store.Metrics.Buckets.{not_zero, points_end, points_next}

not_lt : (a b : ℕ) → ltb a b ≡ false → b ≤ a
not_lt a b h = ground arith

module _ (counts : ℕ → ℕ) (to : Time) (bucket : ℕ) (p : 0 < bucket) where
  -- enough fuel for the loop from `ts` on
  abbrev Ends : ℕ → Time → Type 0
  Ends fuel ts =
      (points : List MetricPoint) × (points_from (suc fuel) counts to bucket ts ≡ some points)
      × (length points * bucket ≤ (to + bucket) - ts)

  one_more :
      (n ts : ℕ)
      → ts ≤ to
      → n * bucket ≤ (to + bucket) - (ts + bucket)
      → suc n * bucket ≤ (to + bucket) - ts
  one_more n ts l h = grind arith

  points_from-Ends : (fuel : ℕ) (ts : Time) → to < ts + fuel → Ends fuel ts
  points_from-Ends zero ts h =
      ([], points_end counts to bucket zero ts (lt→ltb to ts (omega arith)), omega arith)
  points_from-Ends (suc fuel) ts h = elim (Bool-cases (ltb to ts)) [
    | inl l ↦ ([], points_end counts to bucket (suc fuel) ts l, omega arith)
    | inr l ↦
        let (points, e, n) = points_from-Ends fuel (ts + bucket) (omega arith) in
        (
          record { timestamp = ts; count = counts (unix ts) } ∷ points,
          points_next counts to bucket (suc fuel) ts l ∙ rw e refl,
          one_more (length points) ts (not_lt to ts l) n,
        )
  ]

start_within :
    (k : ℕ) (t : Time) → unix_epoch ≤ t → 0 < k → t < from_unix (unix t / k * k) + (k + 1) * second
unfolding from_unix unix
start_within k t e p = grind arith

from_unix_late : (n : ℕ) → 0 < from_unix n
unfolding from_unix
from_unix_late n = omega arith

-- the first bucket of the window
module _ (b : ℕ) (p : second ≤ b) where
  start_of :
      (t : Time)
      → bucket_start t (b / second) ≡ some (from_unix (unix t / (b / second) * (b / second)))
  unfolding bucket_start
  start_of t = rw (not_zero (b / second) (omega arith)) refl

  start_before :
      (t : Time) → unix_epoch ≤ t → t ≤ from_unix (unix t / (b / second) * (b / second)) + 2 * b
  start_before t e = let h = start_within (b / second) t e (omega arith) in omega arith

module _ {S : Type 0} (db : Rows S) where
  metrics_of-ends :
      (b : ℕ) (f : MetricsFilter) (rows : List MetricRollup)
      → second ≤ b
      → f.bucket ≡ pos b
      → unix_epoch ≤ f.from
      → (m : Metrics) × (metrics_of db f (some rows) ≡ answered m)
        × (length m.points * b ≤ (f.to + 3 * b) - f.from)
  unfolding metrics_of points_after with_points
  metrics_of-ends b f rows p h e =
      let start = from_unix (unix f.from / (b / second) * (b / second)) in
      let (points, made, few) =
        points_from-Ends (count_at (bucket_seconds b) rows) f.to b (omega arith) f.to start
          (omega (arith, from_unix_late (unix f.from / (b / second) * (b / second)))) in
      (
        record {
          from = f.from;
          to = f.to;
          bucket = b;
          points = points;
          summary = summary_of (rollup_columns db.collation) rows;
        },
        rw h (rw (start_of b p f.from) (rw made refl)),
        omega (arith, start_before b p f.from e),
      )

  -- For a bucket of a second or more, as every bucket is that Metrics chooses itself, its loop ends: it
  -- answers whatever rows its query gives, and the points are at most three more than the buckets
  -- that fit into the window, which begins in 1970 or later.
  pub metrics-ends :
      (b : ℕ) (filter : MetricsFilter) (now : Time) (s : S) (rows : List MetricRollup)
      → second ≤ b
      → (normalize_metrics_filter filter now).bucket ≡ pos b
      → unix_epoch ≤ (normalize_metrics_filter filter now).from
      → db.select_rollups (counts_rollup db.collation (normalize_metrics_filter filter now)) s
        ≡ some rows
      → let f = normalize_metrics_filter filter now in
        (m : Metrics) × (metrics db filter now s ≡ answered m)
        × (length m.points * b ≤ (f.to + 3 * b) - f.from)
  unfolding metrics
  metrics-ends b filter now s rows p h e selected =
      rw selected (metrics_of-ends b (normalize_metrics_filter filter now) rows p h e)

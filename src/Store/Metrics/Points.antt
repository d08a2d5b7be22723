-- ===== src/Store/Metrics/Points.antt =====
-- internal/audit/storage/bunrepo/repository.go: the points of the metrics count every rollup once.
use turnstile_appcheck_gatew.Prelude.{
  ℕ, ◌*◌, ◌/◌, ◌≤◌, ◌<◌, Bool, true, ◌&&◌, List, [], ◌∷◌, some, All, leb, ◌≡◌, refl, ◌∙◌, arith,
  pos,
}
use turnstile_appcheck_gatew.Audit.Event.{Time, MetricRollup}
use turnstile_appcheck_gatew.Store.{Collation}
use turnstile_appcheck_gatew.Store.Metrics.{
  counts_rollup, normalize_metrics_filter, panicked, Metrics, MetricsFilter, answered, summary_of,
  rollup_columns, second, unix_epoch, unix, from_unix, bucket_start, bucket_seconds, Rows,
  points_after, with_points, metrics_of, metrics,
}
use turnstile_appcheck_gatew.Store.Metrics.Buckets.{
  not_zero, sum_points, count_from_first, points_from-Counts,
}

whole_seconds : (k : ℕ) → k * second / second ≡ k
whole_seconds k = omega arith

bucket_seconds_of : (k : ℕ) → 0 < k → bucket_seconds (k * second) ≡ k
unfolding bucket_seconds
bucket_seconds_of k p = rw (whole_seconds k) (rw (not_zero k p) refl)

bucket_start_of :
    (k : ℕ) (t : Time)
    → 0 < k
    → bucket_start t (k * second / second) ≡ some (from_unix (unix t / k * k))
unfolding bucket_start
bucket_start_of k t p = rw (whole_seconds k) (rw (not_zero k p) refl)

-- from the epoch on: a bucket begins with or after it
from_unix-pos : (n : ℕ) → unix_epoch ≤ from_unix n
unfolding from_unix
from_unix-pos n = omega arith

from_epoch :
    (from to : Time) (rows : List MetricRollup)
    → unix_epoch ≤ from
    → All (λ r. (from ≤ r.bucket_start) × (r.bucket_start ≤ to)) rows
    → All (λ r. (unix_epoch ≤ r.bucket_start) × (r.bucket_start ≤ to)) rows
from_epoch from to [] e a = tt
from_epoch from to (r ∷ rows) e a = ((omega arith, a.0.1), from_epoch from to rows e a.1)

bounds :
    (from to t : Time) (others : Bool)
    → ((leb from t && leb t to) && others) ≡ true
    → (from ≤ t) × (t ≤ to)
bounds from to t others h = ground arith

counted-InRange :
    (sql : Collation) (f : MetricsFilter) (rows : List MetricRollup)
    → All (λ r. counts_rollup sql f r ≡ true) rows
    → All (λ r. (f.from ≤ r.bucket_start) × (r.bucket_start ≤ f.to)) rows
unfolding counts_rollup
counted-InRange sql f [] a = tt
counted-InRange sql f (r ∷ rows) a =
    (bounds f.from f.to r.bucket_start _ a.0, counted-InRange sql f rows a.1)

kept_bucket :
    (bucket : ℕ) (filter : MetricsFilter) (now : Time)
    → 0 < bucket
    → filter.bucket ≡ pos bucket
    → (normalize_metrics_filter filter now).bucket ≡ pos bucket
unfolding normalize_metrics_filter
kept_bucket bucket filter now p e = rw e (ground arith)

below_second : (bucket : ℕ) → bucket < second → bucket / second ≡ 0
below_second bucket h = omega arith

module _ {S : Type 0} (db : Rows S) where
  metrics_of-total :
      (k : ℕ) (f : MetricsFilter) (rows : List MetricRollup)
      → 0 < k
      → f.bucket ≡ pos (k * second)
      → unix_epoch ≤ f.from
      → All (λ r. counts_rollup db.collation f r ≡ true) rows
      → (m : Metrics) × (metrics_of db f (some rows) ≡ answered m)
        × (sum_points m.points ≡ m.summary.total)
  unfolding metrics_of summary_of points_after with_points
  metrics_of-total k f rows p b e a =
      let in_range = counted-InRange db.collation f rows a in
      let (points, made, total) =
        points_from-Counts k p f.to rows f.to (unix f.from / k)
          (from_epoch f.from f.to rows e in_range)
          (omega (arith, from_unix-pos (unix f.from / k * k))) in
      (
        record {
          from = f.from;
          to = f.to;
          bucket = k * second;
          points = points;
          summary = summary_of (rollup_columns db.collation) rows;
        },
        rw b (rw (bucket_start_of k f.from p) (rw (bucket_seconds_of k p) (rw made refl))),
        total ∙ count_from_first k p f.from f.to rows in_range,
      )

  -- For a bucket of whole seconds and a window that begins in 1970 or later, Metrics answers, and its
  -- points count each rollup of the window once: their counts add up to the total of its summary. The
  -- rows are those that the query's conditions admit.
  pub metrics-total :
      (k : ℕ) (filter : MetricsFilter) (now : Time) (s : S) (rows : List MetricRollup)
      → 0 < k
      → (normalize_metrics_filter filter now).bucket ≡ pos (k * second)
      → unix_epoch ≤ (normalize_metrics_filter filter now).from
      → db.select_rollups (counts_rollup db.collation (normalize_metrics_filter filter now)) s
        ≡ some rows
      → All (λ r. counts_rollup db.collation (normalize_metrics_filter filter now) r ≡ true) rows
      → (m : Metrics) × (metrics db filter now s ≡ answered m)
        × (sum_points m.points ≡ m.summary.total)
  unfolding metrics
  metrics-total k filter now s rows p b e selected a =
      rw selected (metrics_of-total k (normalize_metrics_filter filter now) rows p b e a)

  -- For a bucket below one second Metrics panics whenever its queries succeed, whatever they answer.
  pub metrics-panics :
      (bucket : ℕ) (filter : MetricsFilter) (now : Time) (s : S) (rows : List MetricRollup)
      → 0 < bucket
      → bucket < second
      → filter.bucket ≡ pos bucket
      → db.select_rollups (counts_rollup db.collation (normalize_metrics_filter filter now)) s
        ≡ some rows
      → metrics db filter now s ≡ panicked
  unfolding metrics metrics_of bucket_start points_after with_points
  metrics-panics bucket filter now s rows p h e selected =
      rw selected (rw (kept_bucket bucket filter now p e) (rw (below_second bucket h) refl))

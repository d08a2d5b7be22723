-- ===== src/Store/Metrics.antt =====
-- internal/audit/storage/bunrepo/repository.go: the summaries and the metrics. The rows that a query's
-- conditions admit come from the database, which is a parameter; its sums and groups are those of SQL
-- on these rows. Times are not before 1970, and counts and sums stay below 2 ^ 63.
pub mod Totals
pub mod Buckets
pub mod Points
pub mod Ends
use turnstile_appcheck_gatew.Prelude.{
  ℕ, zero, suc, ◌+◌, ◌-◌, ◌*◌, ◌/◌, String, Bool, true, false, not, ◌&&◌, ◌||◌, List, [], ◌∷◌,
  Option, none, some, ◌==◌, if◌then◌else◌, ltb, leb, eqb, ℤ, pos, leb_ℤ,
}
use turnstile_appcheck_gatew.Prelude.Int.{pos_part}
use turnstile_appcheck_gatew.GoStrings.{trim_space, to_lower, to_upper}
use turnstile_appcheck_gatew.Audit.Event.{Time, Event, MetricRollup, minute, result_success}
use turnstile_appcheck_gatew.Store.{Filter, Collation, normalize_filter, matches}

-- audit.Summary
pub record Summary : Type 0 where
  pub total : ℕ
  pub successful : ℕ
  pub failed : ℕ
  pub exchange_successes : ℕ
  pub exchange_failures : ℕ
  pub verify_successes : ℕ
  pub verify_failures : ℕ
  pub count4xx : ℕ
  pub count5xx : ℕ

-- audit.MetricsFilter
pub record MetricsFilter : Type 0 where
  pub from : Time
  pub to : Time
  pub bucket : ℤ
  pub endpoint : String
  pub method : String
  pub result : String
  pub status_class : String

-- audit.MetricPoint
pub record MetricPoint : Type 0 where
  pub timestamp : Time
  pub count : ℕ

-- audit.Metrics; the bucket is printed by Go
pub record Metrics : Type 0 where
  pub from : Time
  pub to : Time
  pub bucket : ℕ
  pub points : List MetricPoint
  pub summary : Summary

-- SUM(CASE WHEN test THEN weight ELSE 0 END)
unfoldable pub sum_case {ℓ} : {A : Type ℓ} → (A → Bool) → (A → ℕ) → List A → ℕ
sum_case test weight [] = 0
sum_case test weight (x ∷ xs) = (if test x then weight x else 0) + sum_case test weight xs

-- what the columns of a summary read of a row
pub record Columns {ℓ} (A : Type ℓ) : Type ℓ where
  pub same : String → String → Bool
  pub action : A → String
  pub result : A → String
  pub status_code : A → ℕ
  pub weight : A → ℕ

-- the columns of Summary and of rollupSummary, which differ in the weight of a row
unfoldable pub summary_of {ℓ} : {A : Type ℓ} → Columns A → List A → Summary
summary_of {A} c rows =
    let succeeded = λ (x : A). c.same (c.result x) result_success in
    let is_exchange = λ (x : A). c.same (c.action x) "exchange.request" in
    let is_verify = λ (x : A). c.same (c.action x) "verify.request" in
    record {
      total = sum_case (λ x. true) c.weight rows;
      successful = sum_case succeeded c.weight rows;
      failed = sum_case (λ x. not (succeeded x)) c.weight rows;
      exchange_successes = sum_case (λ x. is_exchange x && succeeded x) c.weight rows;
      exchange_failures = sum_case (λ x. is_exchange x && not (succeeded x)) c.weight rows;
      verify_successes = sum_case (λ x. is_verify x && succeeded x) c.weight rows;
      verify_failures = sum_case (λ x. is_verify x && not (succeeded x)) c.weight rows;
      count4xx =
          sum_case (λ x. leb 400 (c.status_code x) && ltb (c.status_code x) 500) c.weight rows;
      count5xx = sum_case (λ x. leb 500 (c.status_code x)) c.weight rows;
    }

abbrev pub event_columns : Collation → Columns Event
event_columns sql = record {
  same = sql.same;
  action = λ e. e.action;
  result = λ e. e.result;
  status_code = λ e. e.status_code;
  weight = λ e. 1;
}

abbrev pub rollup_columns : Collation → Columns MetricRollup
rollup_columns sql = record {
  same = sql.same;
  action = λ r. r.action;
  result = λ r. r.result;
  status_code = λ r. r.status_code;
  weight = λ r. r.count;
}

abbrev pub hour : ℕ
hour = 60 * minute

unfoldable pub choose_bucket : ℕ → ℕ
choose_bucket window =
    if leb window hour
    then 5 * minute
    else if leb window (6 * hour)
    then 15 * minute
    else if leb window (24 * hour)
    then hour
    else if leb window (7 * 24 * hour)
    then 6 * hour
    else 24 * hour

-- A window that ends before it begins is chosen for as one of no length.
unfoldable pub normalize_metrics_filter : MetricsFilter → Time → MetricsFilter
normalize_metrics_filter f now =
    let to = if eqb f.to 0 then now else f.to in
    let from = if eqb f.from 0 then to - 24 * hour else f.from in
    record f {
      to = to;
      from = from;
      bucket = if leb_ℤ f.bucket (pos 0) then pos (choose_bucket (to - from)) else f.bucket;
      method = to_upper (trim_space f.method);
      result = to_lower (trim_space f.result);
      status_class = to_lower (trim_space f.status_class);
    }

-- applyRollupMetricFilters, for one column
has_value : Collation → String → String → Bool
has_value sql column value = if value == "" then true else sql.same column value

-- the conditions of Metrics and of rollupSummary
unfoldable pub counts_rollup : Collation → MetricsFilter → MetricRollup → Bool
unfolding has_value
counts_rollup sql f r =
    (leb f.from r.bucket_start && leb r.bucket_start f.to)
    && ((sql.same r.action "gateway.request"
          || (sql.same r.action "exchange.request"
              || (sql.same r.action "verify.request" || sql.same r.action "rate_limit.denied")))
        && (has_value sql r.endpoint (trim_space f.endpoint)
            && (has_value sql r.method (to_upper (trim_space f.method))
                && (has_value sql r.result (to_lower (trim_space f.result))
                    && has_value sql r.status_class (to_lower (trim_space f.status_class))))))

abbrev pub second : ℕ
second = 1000000000

-- 1 January 1970
abbrev pub unix_epoch : Time
unix_epoch = 62135596800 * second

-- t.Unix()
unfoldable pub unix : Time → ℕ
unix t = (t - unix_epoch) / second

-- time.Unix(n, 0)
unfoldable pub from_unix : ℕ → Time
from_unix n = unix_epoch + n * second

-- bucketStart, for a bucket of `seconds` seconds; none is the panic of a division by 0
unfoldable pub bucket_start : Time → ℕ → Option Time
unfolding unix from_unix
bucket_start t seconds =
    if eqb seconds 0 then none else some (from_unix (unix t / seconds * seconds))

-- the seconds of TimeBucketExpr
unfoldable pub bucket_seconds : ℕ → ℕ
bucket_seconds bucket = let s = bucket / second in if eqb s 0 then 3600 else s

-- SUM(count) of the group whose TimeBucketExpr is this second
unfoldable pub count_at : ℕ → List MetricRollup → ℕ → ℕ
unfolding sum_case unix
count_at seconds rows n =
    sum_case (λ (r : MetricRollup). eqb (unix r.bucket_start / seconds * seconds) n) (λ r. r.count)
      rows

-- points = append(points, p), before the points that follow
abbrev pub add_point : MetricPoint → Option (List MetricPoint) → Option (List MetricPoint)
add_point p none = none
add_point p (some points) = some (p ∷ points)

-- the loop of Metrics from `ts` on, with the counts of the groups; `none` is out of fuel
unfoldable pub points_from : ℕ → (ℕ → ℕ) → Time → ℕ → Time → Option (List MetricPoint)
unfolding unix
points_from zero counts to bucket ts = none
points_from (suc fuel) counts to bucket ts =
    let rest = points_from fuel counts to bucket (ts + bucket) in
    if ltb to ts
    then some []
    else add_point (record { timestamp = ts; count = counts (unix ts) }) rest

-- the rows that a query's conditions admit; none is an error
pub record Rows (S : Type 0) : Type 0 where
  pub collation : Collation
  pub select_events : (Event → Bool) → S → Option (List Event)
  pub select_rollups : (MetricRollup → Bool) → S → Option (List MetricRollup)

-- what Metrics answers: an error of the database, a panic, or the metrics
pub data MetricsAnswer : Type 0 where
  failed_query : MetricsAnswer
  panicked : MetricsAnswer
  answered : Metrics → MetricsAnswer

module _ {S : Type 0} (db : Rows S) where
  -- Repository.Summary
  unfoldable pub summary : Filter → S → Option Summary
  summary filter s = elim (db.select_events (matches db.collation (normalize_filter filter)) s) [
    | none ↦ none
    | some rows ↦ some (summary_of (event_columns db.collation) rows)
  ]

  -- the points from the first bucket on, if there is one
  unfoldable pub points_after : (ℕ → ℕ) → Time → ℕ → Option Time → Option (List MetricPoint)
  unfolding points_from
  points_after counts to bucket none = none
  points_after counts to bucket (some start) = points_from (suc to) counts to bucket start

  unfoldable pub with_points :
      MetricsFilter → List MetricRollup → Option (List MetricPoint) → MetricsAnswer
  with_points f rows none = panicked
  with_points f rows (some points) = answered (record {
    from = f.from;
    to = f.to;
    bucket = pos_part f.bucket;
    points = points;
    summary = summary_of (rollup_columns db.collation) rows;
  })

  -- Metrics after its queries, with the rows that they admit
  unfoldable pub metrics_of : MetricsFilter → Option (List MetricRollup) → MetricsAnswer
  unfolding bucket_start count_at bucket_seconds points_after with_points
  metrics_of f none = failed_query
  metrics_of f (some rows) =
      let bucket = pos_part f.bucket in
      with_points f rows (
        points_after (count_at (bucket_seconds bucket) rows) f.to bucket
          (bucket_start f.from (bucket / second)))

  -- Repository.Metrics, at the time `now`
  unfoldable pub metrics : MetricsFilter → Time → S → MetricsAnswer
  unfolding metrics_of
  metrics filter now s =
      let f = normalize_metrics_filter filter now in
      metrics_of f (db.select_rollups (counts_rollup db.collation f) s)

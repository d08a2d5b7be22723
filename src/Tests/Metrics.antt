-- ===== src/Tests/Metrics.antt =====
-- The summaries and metrics of a few rollups.
use turnstile_appcheck_gatew.Prelude.{
  ℕ, Option, none, true, ℤ, if◌then◌else◌, ◌+◌, ◌*◌, String, false, ◌&&◌, List, [], ◌∷◌, some, ◌==◌,
  keep_if, ◌-◌, length, ◌≤◌, ◌≡◌, refl, pos, arith, eq_iff, Bool-cases, inl, inr,
}
use turnstile_appcheck_gatew.GoStrings.{trim_space, to_upper, to_lower}
use turnstile_appcheck_gatew.Audit.Event.{Time, MetricRollup, minute}
use turnstile_appcheck_gatew.Http.{abort_json, error_response}
use turnstile_appcheck_gatew.Http.Gin.{plain_gin}
use turnstile_appcheck_gatew.Admin.Auth.{anonymous}
use turnstile_appcheck_gatew.Admin.Query.{query_time}
use turnstile_appcheck_gatew.Admin.Metrics.{metrics_filter, query_duration, request_metrics}
use turnstile_appcheck_gatew.Admin.Metrics.Panics.{request_metrics-panics}
use turnstile_appcheck_gatew.Tests.Served.{me_call}
use turnstile_appcheck_gatew.Store.{Collation}
use turnstile_appcheck_gatew.Store.Metrics.{
  Metrics, MetricsFilter, answered, Rows, metrics, summary_of, rollup_columns, second, unix_epoch,
  counts_rollup, normalize_metrics_filter,
}
use turnstile_appcheck_gatew.Store.Metrics.Buckets.{sum_points}
use turnstile_appcheck_gatew.Store.Metrics.Ends.{metrics-ends}
use turnstile_appcheck_gatew.Store.Metrics.Points.{metrics-total}
use turnstile_appcheck_gatew.Store.Metrics.Totals.{IsConsistent, summary_of-IsConsistent}

abbrev exact : Collation
exact = record { same = λ s t. s == t; like = λ s t. s == t }

abbrev at : ℕ → String → ℕ → MetricRollup
at minutes action n = record {
  bucket_start = unix_epoch + minutes * minute;
  bucket_size = 60;
  endpoint = "/appcheck/api/v1/exchange";
  method = "POST";
  action = action;
  result = "success";
  status_class = "2xx";
  status_code = 200;
  count = n;
}

abbrev table : List MetricRollup
table = at 61 "exchange.request" 4 ∷ at 62 "other" 9 ∷ at 75 "verify.request" 2 ∷ []

abbrev memory : Rows (List MetricRollup)
memory = record {
  collation = exact;
  select_events = λ keep s. some [];
  select_rollups = λ keep s. some (keep_if keep s);
}

abbrev ten_minutes : MetricsFilter
ten_minutes = record {
  from = unix_epoch + 60 * minute;
  to = unix_epoch + 120 * minute;
  bucket = pos (600 * second);
  endpoint = "";
  method = "";
  result = "";
  status_class = "";
}

abbrev counted : List MetricRollup
counted = at 61 "exchange.request" 4 ∷ at 75 "verify.request" 2 ∷ []

selected :
    memory.select_rollups (counts_rollup exact (normalize_metrics_filter ten_minutes 1)) table
    ≡ some counted
unfolding counts_rollup normalize_metrics_filter trim_space to_upper to_lower
selected = refl

metrics-total_example :
    (m : Metrics) × (metrics memory ten_minutes 1 table ≡ answered m)
    × (sum_points m.points ≡ m.summary.total)
unfolding counts_rollup normalize_metrics_filter trim_space to_upper to_lower
metrics-total_example =
    metrics-total memory 600 ten_minutes 1 table counted (omega arith) refl (omega arith) selected
      (refl, (refl, tt))

-- a caller who asks for half a second, from the first minute of 1970 to the second hour
abbrev asks : String → String
asks key =
    if key == "bucket"
    then "500ms"
    else if key == "from"
    then "a"
    else if key == "to"
    then "b"
    else ""

abbrev read_time : String → String → Option Time
read_time layout s =
    if s == "a"
    then some (unix_epoch + 60 * minute)
    else if s == "b"
    then some (unix_epoch + 120 * minute)
    else none

abbrev read_duration : String → Option ℤ
read_duration s = if s == "500ms" then some (pos 500000000) else none

asked :
    memory.select_rollups
      (counts_rollup exact
        (normalize_metrics_filter (metrics_filter read_time read_duration asks) 1))
      table
    ≡ some counted
unfolding metrics_filter query_time query_duration counts_rollup normalize_metrics_filter trim_space
    to_upper to_lower
asked = refl

asks_duration :
    ((trim_space (asks "bucket") == "") ≡ false)
    × (read_duration (trim_space (asks "bucket")) ≡ some (pos 500000000))
unfolding trim_space
asks_duration = (refl, refl)

request_metrics-panics_example :
    request_metrics plain_gin true anonymous me_call read_time read_duration
      (some (λ f. metrics memory f 1 table))
      asks
      []
    ≡ abort_json 500 (error_response "INTERNAL_ERROR" "Unexpected server error") ∷ []
request_metrics-panics_example =
    request_metrics-panics plain_gin true anonymous me_call memory read_time read_duration asks
      500000000 1 table counted [] asks_duration.0 asks_duration.1 (omega arith) (omega arith) asked

distinct : (a : String) → ((a == "exchange.request") && (a == "verify.request")) ≡ false
distinct a = elim (Bool-cases (a == "exchange.request")) [
  | inl e ↦ rw ((eq_iff a "exchange.request").0 e) refl
  | inr e ↦ rw e refl
]

summary_of-IsConsistent_example : IsConsistent (summary_of (rollup_columns exact) table)
summary_of-IsConsistent_example = summary_of-IsConsistent (rollup_columns exact) table distinct

abbrev odd_bucket : MetricsFilter
odd_bucket = record ten_minutes { bucket = pos (90 * second + 1) }

selected_odd :
    memory.select_rollups (counts_rollup exact (normalize_metrics_filter odd_bucket 1)) table
    ≡ some counted
unfolding counts_rollup normalize_metrics_filter trim_space to_upper to_lower
selected_odd = refl

metrics-ends_example :
    let f = normalize_metrics_filter odd_bucket 1 in
    (m : Metrics) × (metrics memory odd_bucket 1 table ≡ answered m)
    × (length m.points * (90 * second + 1) ≤ (f.to + 3 * (90 * second + 1)) - f.from)
unfolding normalize_metrics_filter
metrics-ends_example =
    metrics-ends memory (90 * second + 1) odd_bucket 1 table counted (omega arith) refl
      (omega arith) selected_odd

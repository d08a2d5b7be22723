-- ===== src/Admin/Metrics/Panics.antt =====
-- internal/admin/api.go: the request metrics of the bucket that a caller asks for.
use turnstile_appcheck_gatew.Prelude.{
  ℕ, ◌<◌, String, Bool, List, ◌∷◌, Option, some, false, ◌==◌, ℤ, pos, ◌≡◌, refl,
}
use turnstile_appcheck_gatew.GoStrings.{trim_space}
use turnstile_appcheck_gatew.Http.{Request, Call, abort_json, error_response}
use turnstile_appcheck_gatew.Http.Gin.{Gin}
use turnstile_appcheck_gatew.Audit.Event.{Time, MetricRollup}
use turnstile_appcheck_gatew.Store.Metrics.{
  Rows, metrics, counts_rollup, normalize_metrics_filter, second,
}
use turnstile_appcheck_gatew.Store.Metrics.Points.{metrics-panics}
use turnstile_appcheck_gatew.Admin.Auth.{Identity}
use turnstile_appcheck_gatew.Admin.Metrics.{query_duration, metrics_filter, request_metrics}

module _ (gin : Gin) (recording : Bool) (identity : Identity) (r : Request) {S : Type 0}
    (db : Rows S) (parse_time : String → String → Option Time)
    (parse_duration : String → Option ℤ) where
  asked_for :
      (query : String → String) (bucket : ℕ)
      → (trim_space (query "bucket") == "") ≡ false
      → parse_duration (trim_space (query "bucket")) ≡ some (pos bucket)
      → (metrics_filter parse_time parse_duration query).bucket ≡ pos bucket
  unfolding metrics_filter query_duration
  asked_for query bucket given parsed = rw (given, parsed) refl

  -- An administrator who asks for the metrics in buckets of less than a second gets the answer of a panic,
  -- 500 with the code INTERNAL_ERROR, and no event of the access is recorded, whatever the table holds.
  pub request_metrics-panics :
      (query : String → String) (bucket : ℕ) (now : Time) (s : S) (rows : List MetricRollup)
      (calls : List Call)
      → (trim_space (query "bucket") == "") ≡ false
      → parse_duration (trim_space (query "bucket")) ≡ some (pos bucket)
      → 0 < bucket
      → bucket < second
      → db.select_rollups
          (counts_rollup db.collation
            (normalize_metrics_filter (metrics_filter parse_time parse_duration query) now))
          s
        ≡ some rows
      → request_metrics gin recording identity r parse_time parse_duration
          (some (λ f. metrics db f now s))
          query
          calls
        ≡ abort_json 500 (error_response "INTERNAL_ERROR" "Unexpected server error") ∷ calls
  unfolding request_metrics
  request_metrics-panics query bucket now s rows calls given parsed p h selected =
      rw
        (metrics-panics db bucket (metrics_filter parse_time parse_duration query) now s rows p h
          (asked_for query bucket given parsed) selected)
        refl

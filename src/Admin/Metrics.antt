-- ===== src/Admin/Metrics.antt =====
-- internal/admin/api.go: the request metrics, and internal/middleware/recovery.go: what becomes of a panic.
pub mod Panics
use turnstile_appcheck_gatew.Prelude.{
  String, Bool, List, ◌∷◌, Option, none, some, ◌==◌, if◌then◌else◌, ℤ, pos,
}
use turnstile_appcheck_gatew.GoStrings.{trim_space}
use turnstile_appcheck_gatew.Http.{
  Request, Call, json, abort_json, error_response, error_text, metrics_body,
}
use turnstile_appcheck_gatew.Http.Gin.{Gin}
use turnstile_appcheck_gatew.Audit.Event.{Time}
use turnstile_appcheck_gatew.Store.Metrics.{
  MetricsFilter, MetricsAnswer, failed_query, panicked, answered,
}
use turnstile_appcheck_gatew.Admin.Auth.{Identity}
use turnstile_appcheck_gatew.Admin.Query.{query_time}
use turnstile_appcheck_gatew.Admin.Api.{record_admin_api}

abbrev or_zero : Option ℤ → ℤ
or_zero none = pos 0
or_zero (some d) = d

-- queryDuration, where `parse` is time.ParseDuration
unfoldable pub query_duration : (String → Option ℤ) → (String → String) → String → ℤ
query_duration parse query key =
    let value = trim_space (query key) in if value == "" then pos 0 else or_zero (parse value)

-- the filter of requestMetrics
unfoldable pub metrics_filter :
    (String → String → Option Time) → (String → Option ℤ) → (String → String) → MetricsFilter
unfolding query_duration
metrics_filter parse_time parse_duration query = record {
  from = query_time parse_time query "from";
  to = query_time parse_time query "to";
  bucket = query_duration parse_duration query "bucket";
  endpoint = query "endpoint";
  method = query "method";
  result = query "result";
  status_class = query "status_class";
}

-- Recovery, of a handler that panics after these calls
unfoldable pub recovered : List Call → List Call
recovered calls = abort_json 500 (error_response "INTERNAL_ERROR" "Unexpected server error") ∷ calls

module _ (gin : Gin) (recording : Bool) (identity : Identity) (r : Request) where
  -- requestMetrics after Metrics, under Recovery
  answer_metrics : MetricsAnswer → List Call → List Call
  unfolding recovered
  answer_metrics failed_query calls = json 500 (error_text "failed to load request metrics") ∷ calls
  answer_metrics panicked calls = recovered calls
  answer_metrics (answered m) calls =
      json 200 (metrics_body m)
      ∷ record_admin_api gin recording identity r "admin.metrics.view"
          "Admin viewed request metrics" calls

  -- requestMetrics, where `metrics` is that of the reader, at a time and a state of the store
  unfoldable pub request_metrics :
      (String → String → Option Time)
      → (String → Option ℤ)
      → Option (MetricsFilter → MetricsAnswer)
      → (String → String)
      → List Call
      → List Call
  unfolding answer_metrics metrics_filter
  request_metrics parse_time parse_duration none query calls =
      json 503 (error_text "audit storage is not available") ∷ calls
  request_metrics parse_time parse_duration (some metrics) query calls =
      answer_metrics (metrics (metrics_filter parse_time parse_duration query)) calls

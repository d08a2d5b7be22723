-- ===== src/Tests/Rollups.antt =====
-- The rollups of internal/audit/storage/bunrepo/repository.go, merged.
use turnstile_appcheck_gatew.Prelude.{String, List, [], ◌∷◌, ◌≡◌}
use turnstile_appcheck_gatew.Dict.{lookup, HasUniqueKeys}
use turnstile_appcheck_gatew.Audit.Event.{Time, MetricRollup, minute}
use turnstile_appcheck_gatew.Store.Rollups.{merge_into}
use turnstile_appcheck_gatew.Store.Rollups.Counts.{count_of, counted_as, merge_into_counts}

abbrev no_print : Time → String
no_print t = "t"

abbrev one : MetricRollup
one = record {
  bucket_start = 7;
  bucket_size = minute;
  endpoint = "/v";
  method = "GET";
  action = "verify.request";
  result = "success";
  status_class = "2xx";
  status_code = 204;
  count = 1;
}

abbrev batch : List (MetricRollup × Time)
batch = (one, 9) ∷ (record one { count = 2 }, 9) ∷ []

merge_into_counts_example :
    HasUniqueKeys (merge_into no_print [] batch)
    × (count_of (lookup "t|/v|GET|verify.request|success|2xx|204" (merge_into no_print [] batch))
        ≡ counted_as no_print "t|/v|GET|verify.request|success|2xx|204" batch)
merge_into_counts_example =
    merge_into_counts no_print batch "t|/v|GET|verify.request|success|2xx|204"

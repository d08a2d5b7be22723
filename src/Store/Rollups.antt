-- ===== src/Store/Rollups.antt =====
-- internal/audit/storage/bunrepo/repository.go: the rollups of a batch before they are written. Counts
-- are taken to stay below 2 ^ 63.
pub mod Counts
pub mod Sums
use Prim.Native.String.{◌++◌}
use turnstile_appcheck_gatew.Prelude.{
  ℕ, ◌+◌, ◌-◌, ◌/◌, ◌%◌, String, Bool, List, [], ◌∷◌, Option, none, some, if◌then◌else◌, eqb,
  keep_if, not, map,
}
use turnstile_appcheck_gatew.GoStrings.{trim_space, to_lower, to_upper, decimal}
use turnstile_appcheck_gatew.Dict.{Dict, lookup, insert}
use turnstile_appcheck_gatew.Audit.Event.{Time, MetricRollup, minute}

-- what mergeRollups fills in; `now` is the time that it reads for this rollup
unfoldable pub fill_rollup : MetricRollup → Time → MetricRollup
fill_rollup r now =
    let size = if eqb r.bucket_size 0 then minute else r.bucket_size in
    record r {
      bucket_size = size;
      bucket_start = if eqb r.bucket_start 0 then now - now % size else r.bucket_start;
      count = if eqb r.count 0 then 1 else r.count;
    }

-- the key of a rollup, where `print` formats a time as RFC3339Nano
unfoldable pub rollup_key : (Time → String) → MetricRollup → String
rollup_key print r =
    print r.bucket_start
    ++ ("|"
        ++ (r.endpoint
            ++ ("|"
                ++ (r.method
                    ++ ("|"
                        ++ (r.action
                            ++ ("|"
                                ++ (r.result
                                    ++ ("|"
                                        ++ (r.status_class
                                            ++ ("|" ++ decimal r.status_code)))))))))))

-- what the key then holds, after what it held before
unfoldable pub merged_with : Option MetricRollup → MetricRollup → MetricRollup
merged_with none r = r
merged_with (some old) r = if eqb old.count 0 then r else record old { count = old.count + r.count }

-- the loop of mergeRollups
unfoldable pub merge_into :
    (Time → String) → Dict MetricRollup → List (MetricRollup × Time) → Dict MetricRollup
merge_into print m [] = m
merge_into print m ((r, now) ∷ more) =
    let filled = fill_rollup r now in
    let key = rollup_key print filled in
    merge_into print (insert key (merged_with (lookup key m) filled) m) more

-- mergeRollups; Go's map is walked in no particular order
unfoldable pub merge_rollups : (Time → String) → List (MetricRollup × Time) → List MetricRollup
merge_rollups print rollups =
    map (λ (entry : String × MetricRollup). entry.1) (merge_into print [] rollups)

-- toRollupModel, with the size of the bucket in seconds
unfoldable pub to_rollup_model : MetricRollup → MetricRollup
to_rollup_model r = record r {
  bucket_size = r.bucket_size / 1000000000;
  endpoint = trim_space r.endpoint;
  method = to_upper (trim_space r.method);
  action = trim_space r.action;
  result = to_lower (trim_space r.result);
  status_class = to_lower (trim_space r.status_class);
}

-- prepareRollupModels
unfoldable pub prepare_rollup_models :
    (Time → String) → List (MetricRollup × Time) → List MetricRollup
prepare_rollup_models print rollups =
    map to_rollup_model
      (keep_if (λ (r : MetricRollup). not (eqb r.count 0)) (merge_rollups print rollups))

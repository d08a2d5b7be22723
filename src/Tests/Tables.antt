-- ===== src/Tests/Tables.antt =====
-- The tables of the audit trail, with a batch whose commit is not acknowledged.
use turnstile_appcheck_gatew.Prelude.{
  ◌+◌, String, true, false, List, [], ◌∷◌, ◌≡◌, refl, if◌then◌else◌, pos, arith,
}
use turnstile_appcheck_gatew.Audit.Event.{Time, MetricRollup, empty_event}
use turnstile_appcheck_gatew.Store.Rollups.{
  prepare_rollup_models, merge_rollups, merge_into, merged_with, fill_rollup, to_rollup_model,
  rollup_key,
}
use turnstile_appcheck_gatew.Dict.{insert, lookup}
use turnstile_appcheck_gatew.GoStrings.{trim_space, to_upper, to_lower, decimal}
use turnstile_appcheck_gatew.Store.Rollups.Sums.{sum_counts}
use turnstile_appcheck_gatew.Store.Tables.{
  Tables, Tx, sqlite, postgres, refuses, commits, rolled_back, unacknowledged, append_audit_batch,
  Draft, Write, batch, reset_to, prune, run,
}
use turnstile_appcheck_gatew.Store.Tables.Sound.{IsSound, run-IsSound}
use turnstile_appcheck_gatew.Store.Tables.Replay.{append_replayed}

abbrev no_print : Time → String
no_print t = "t"

abbrev draft : String → Time → Draft
draft id now = (record empty_event { id = id; timestamp = now }, now, "")

abbrev one : MetricRollup
one = record {
  bucket_start = 7;
  bucket_size = 60;
  endpoint = "/v";
  method = "GET";
  action = "verify.request";
  result = "success";
  status_class = "2xx";
  status_code = 204;
  count = 1;
}

abbrev drafts : List Draft
drafts = draft "a" 5 ∷ draft "b" 6 ∷ []

abbrev counts : List (MetricRollup × Time)
counts = (one, 9) ∷ []

abbrev created : Tables
created = record { events = []; rollups = []; next_seq = 1 }

abbrev writes : List (Tx × Write)
writes =
    (unacknowledged, batch drafts counts)
    ∷ (commits, batch drafts counts)
    ∷ (rolled_back, reset_to (draft "c" 7))
    ∷ (commits, prune (pos 1) 8)
    ∷ []

run-IsSound_example : IsSound (run postgres no_print writes created)
run-IsSound_example = run-IsSound postgres no_print writes created (omega arith, tt)

append_replayed_example :
    let t1 = (append_audit_batch postgres no_print unacknowledged drafts counts created).0 in
    let t2 = (append_audit_batch postgres no_print commits drafts counts t1).0 in
    (t2.events ≡ t1.events)
    × (sum_counts t2.rollups
        ≡ sum_counts t1.rollups
          + (if true then sum_counts (prepare_rollup_models no_print counts) else 0))
unfolding refuses prepare_rollup_models merge_rollups merge_into insert merged_with lookup
    fill_rollup
append_replayed_example =
    append_replayed postgres no_print unacknowledged commits drafts drafts counts counts created
      refl refl (refl, (refl, tt))

-- two rollups that the keys of the merge tell apart, and the keys of the table do not
abbrev in_two_cases : List (MetricRollup × Time)
in_two_cases = (one, 9) ∷ (record one { method = "get" }, 9) ∷ []

refused_by_postgres : refuses postgres (prepare_rollup_models no_print in_two_cases) ≡ true
unfolding refuses prepare_rollup_models merge_rollups merge_into insert merged_with lookup
    fill_rollup to_rollup_model rollup_key trim_space to_upper to_lower decimal
refused_by_postgres = refl

taken_by_sqlite : refuses sqlite (prepare_rollup_models no_print in_two_cases) ≡ false
unfolding refuses
taken_by_sqlite = refl

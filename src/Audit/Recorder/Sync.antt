-- ===== src/Audit/Recorder/Sync.antt =====
-- internal/audit/recorder.go: the synchronous recorder.
pub mod Tables
use turnstile_appcheck_gatew.Prelude.{
  ℕ, ◌+◌, String, Bool, true, false, not, List, [], ◌∷◌, Option, none, some, if◌then◌else◌,
}
use turnstile_appcheck_gatew.Audit.Event.{
  Event, MetricRollup, Time, prepare_event, new_metric_rollup,
}
use turnstile_appcheck_gatew.Audit.Policy.{PolicyConfig, EventDecision, decide}
use turnstile_appcheck_gatew.Audit.Recorder.{Repository, RecorderStats, bump_if}
use turnstile_appcheck_gatew.Float.{Float64}

module _ {S : Type 0} (repo : Repository S) where
  -- the branch of an event that is not kept
  unfoldable pub count_only :
      EventDecision → Option MetricRollup → S → RecorderStats → S × RecorderStats × Bool
  count_only d rollup s stats =
      let skipped = record stats {
        policy_skipped_total = stats.policy_skipped_total + 1;
        sampled_out_total = bump_if d.sampled_out stats.sampled_out_total;
      } in
      elim rollup [
        | none ↦ (s, skipped, true)
        | some r ↦
            let (s', ok) = repo.append_metric_rollups (r ∷ []) s in
            if ok then (s', skipped, true) else (s', stats, false)
      ]

  -- the last part of Record, for a repository that is not an AtomicBatchRepository
  unfoldable pub keep_parts : Event → Option MetricRollup → S → S × Bool
  keep_parts e none s = repo.append_batch (e ∷ []) s
  keep_parts e (some r) s =
      let (s', ok) = repo.append_metric_rollups (r ∷ []) s in
      if ok then repo.append_batch (e ∷ []) s' else (s', false)

  -- the last part of Record
  unfoldable pub keep : Event → Option MetricRollup → S → S × Bool
  unfolding keep_parts
  keep e none s = keep_parts e none s
  keep e (some r) s = elim repo.atomic [
    | none ↦ keep_parts e (some r) s
    | some append ↦ append (e ∷ []) (r ∷ []) s
  ]

  -- Record of a recorder and a repository that are not nil: the store, the counters, and whether it
  -- returned nil
  unfoldable pub record_sync :
      Option PolicyConfig
      → Time
      → String
      → Float64
      → Event
      → S
      → RecorderStats
      → S × RecorderStats × Bool
  unfolding count_only keep
  record_sync policy now id draw event s stats =
      let e = prepare_event now id event in
      let d = decide policy draw e in
      let rollup = if d.count_metric then some (new_metric_rollup e) else none in
      let (s', ok) = keep e rollup s in
      if not d.persist
      then count_only d rollup s stats
      else (s', record stats { enqueue_total = stats.enqueue_total + 1 }, ok)

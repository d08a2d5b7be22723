-- ===== src/Audit/Recorder/Stored/Flush.antt =====
-- internal/audit/recorder.go with internal/audit/storage/bunrepo/repository.go: the flush of a batch over
-- the tables.
use turnstile_appcheck_gatew.Prelude.{
  ℕ, zero, suc, ◌+◌, ◌*◌, ◌≤◌, ◌<◌, String, Bool, true, false, ◌&&◌, List, All, is_empty, ◌≡◌, refl,
  ◌∙◌, arith,
}
use turnstile_appcheck_gatew.Prelude.Int.{pos_part}
use turnstile_appcheck_gatew.Audit.Event.{Event, MetricRollup, Time}
use turnstile_appcheck_gatew.Store.Rollups.{prepare_rollup_models}
use turnstile_appcheck_gatew.Store.Rollups.Sums.{sum_counts, batch_count}
use turnstile_appcheck_gatew.Store.Tables.{commits, Dialect, refuses}
use turnstile_appcheck_gatew.Store.Tables.Replay.{HasId, Holds, append_told}
use turnstile_appcheck_gatew.Audit.Recorder.{
  RecorderStats, AsyncConfig, normalize_async_config, flush_with_retry,
}
use turnstile_appcheck_gatew.Audit.Recorder.Retry.{attempts_positive}
use turnstile_appcheck_gatew.Audit.Recorder.Recovery.{after_attempts, flush_with_retry-ok}
use turnstile_appcheck_gatew.Audit.Recorder.Stored.{
  Db, Surroundings, drafts, dated, ids_of, audit_append, repository,
}
use turnstile_appcheck_gatew.Audit.Recorder.Stored.Attempts.{Effect, not_empty, retry-Outcome}

module _ (dialect : Dialect) (print : Time → String) (world : Surroundings) (es : List Event)
    (rs : List MetricRollup) (ids : All HasId (ids_of es))
    (some_batch : (is_empty es && is_empty rs) ≡ false) where
  -- The flush of a batch, of which an event or a rollup is there and each event has its id, with a
  -- configuration as it is normalised: of the attempts, which are at most as many as allowed, some
  -- number are written, acknowledged or not. The rollups are counted that many times; no row of an
  -- event is lost; if none was written, the tables are as they were; if one was, each event of the
  -- batch is in the table; and if the flush returns nil, one was.
  pub flush_with_retry-Effect :
      (cfg : AsyncConfig) (cancelled : ℕ → Bool) (db : Db) (stats : RecorderStats)
      → let f =
          flush_with_retry
            (repository dialect print world)
            es
            rs
            (normalize_async_config cfg)
            cancelled
            db
            stats in
        (n : ℕ) × (n ≤ pos_part (normalize_async_config cfg).retry_max_attempts)
        × Effect dialect print world es rs n db f.store f.ok
  unfolding flush_with_retry
  flush_with_retry-Effect cfg cancelled db stats =
      retry-Outcome dialect print world es rs ids some_batch cancelled _ _ 1 _ db stats
        (attempts_positive cfg)

  after_attempts-begun :
      (k : ℕ) (db : Db)
      → (after_attempts
          (audit_append dialect print world)
          (repository dialect print world)
          refl
          es
          rs
          k
          db).begun
        ≡ db.begun + k
  unfolding audit_append
  after_attempts-begun zero db = omega arith
  after_attempts-begun (suc k) db =
      omega (arith, after_attempts-begun k (audit_append dialect print world es rs db).0)

  commits-ok :
      (db : Db)
      → world.outcome db.begun ≡ commits
      → refuses dialect (prepare_rollup_models print (dated (world.reading db.begun) 0 rs)) ≡ false
      → (audit_append dialect print world es rs db).1 ≡ true
  unfolding audit_append
  commits-ok db h k =
      append_told dialect print (world.outcome db.begun) (drafts (world.reading db.begun) 0 es)
        (dated (world.reading db.begun) 0 rs) db.tables
        (not_empty dialect print world es rs ids some_batch (world.reading db.begun))
      ∙ rw h (rw k refl)

  -- If the transaction of one of the attempts that are allowed commits and is acknowledged, its rollups
  -- are not refused, and the context is not done before that attempt, then the flush returns nil, the
  -- events of the batch are in the table, and its rollups are counted at least once. An event or a
  -- rollup is there, and each event has its id; the configuration is normalised.
  pub flush_with_retry_recovers :
      (cfg : AsyncConfig) (cancelled : ℕ → Bool) (k : ℕ) (db : Db) (stats : RecorderStats)
      → k < pos_part (normalize_async_config cfg).retry_max_attempts
      → world.outcome (db.begun + k) ≡ commits
      → refuses dialect (prepare_rollup_models print (dated (world.reading (db.begun + k)) 0 rs))
        ≡ false
      → ((m : ℕ) → m ≤ k → cancelled m ≡ false)
      → let f =
          flush_with_retry
            (repository dialect print world)
            es
            rs
            (normalize_async_config cfg)
            cancelled
            db
            stats in
        (f.ok ≡ true)
        × All (Holds f.store.tables.events) (ids_of es)
        × (sum_counts db.tables.rollups + batch_count rs ≤ sum_counts f.store.tables.rollups)
  flush_with_retry_recovers cfg cancelled k db stats l h k' c =
      let repo = repository dialect print world in
      let there = after_attempts (audit_append dialect print world) repo refl es rs k db in
      let begun = after_attempts-begun k db in
      let ok =
        flush_with_retry-ok (audit_append dialect print world) repo refl es rs cfg cancelled k db
          stats l (commits-ok there (rw begun h) (rw begun k')) c in
      let (n, few, (sums, keeps, none_written, holds, told)) =
        flush_with_retry-Effect cfg cancelled db stats in
      (ok, holds (told ok), at_least_once _ _ n (batch_count rs) (told ok) sums)
    where
      at_least_once : (a b n c : ℕ) → 0 < n → b ≡ a + n * c → a + c ≤ b
      at_least_once a b zero c p e = absurd (omega arith)
      at_least_once a b (suc n) c p e = omega arith

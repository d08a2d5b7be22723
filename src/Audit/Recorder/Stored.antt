-- ===== src/Audit/Recorder/Stored.antt =====
-- internal/audit/recorder.go with internal/audit/storage/bunrepo/repository.go: the repository that the
-- recorders write to, on its tables.
pub mod Attempts
pub mod Flush
use turnstile_appcheck_gatew.Prelude.{ℕ, suc, String, Bool, List, [], ◌∷◌, some}
use turnstile_appcheck_gatew.Audit.Event.{Event, MetricRollup, Time}
use turnstile_appcheck_gatew.Store.Tables.{
  Tables, Tx, Dialect, Draft, append_batch, append_metric_rollups, append_audit_batch,
}
use turnstile_appcheck_gatew.Audit.Recorder.{Repository}

-- the tables, and how many writes have been tried
pub record Db : Type 0 where
  pub tables : Tables
  pub begun : ℕ

-- What the program meets: what becomes of the transaction of each write, and the times and random ids
-- that are read while its batch is prepared, one after the other.
pub record Surroundings : Type 0 where
  pub outcome : ℕ → Tx
  pub reading : ℕ → ℕ → Time × String

abbrev pub drafts : (ℕ → Time × String) → ℕ → List Event → List Draft
drafts read n [] = []
drafts read n (e ∷ es) = (e, (read n).0, (read n).1) ∷ drafts read (suc n) es

abbrev pub dated : (ℕ → Time × String) → ℕ → List MetricRollup → List (MetricRollup × Time)
dated read n [] = []
dated read n (r ∷ rs) = (r, (read n).0) ∷ dated read (suc n) rs

abbrev pub ids_of : List Event → List String
ids_of [] = []
ids_of (e ∷ es) = e.id ∷ ids_of es

abbrev pub begin : Db → Tables × Bool → Db × Bool
begin db (t, ok) = (record { tables = t; begun = suc db.begun }, ok)

module _ (dialect : Dialect) (print : Time → String) (world : Surroundings) where
  unfoldable pub audit_append : List Event → List MetricRollup → Db → Db × Bool
  audit_append es rs db =
      let read = world.reading db.begun in
      begin db (
        append_audit_batch dialect print (world.outcome db.begun) (drafts read 0 es)
          (dated read 0 rs) db.tables)

  -- the repository, which is an AtomicBatchRepository
  abbrev pub repository : Repository Db
  repository = record {
    append_batch = λ es db.
        begin db
          (append_batch (world.outcome db.begun) (drafts (world.reading db.begun) 0 es) db.tables);
    append_metric_rollups = λ rs db. begin db (
        append_metric_rollups dialect print (world.outcome db.begun)
          (dated (world.reading db.begun) 0 rs) db.tables);
    atomic = some audit_append;
  }

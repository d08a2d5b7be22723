-- ===== src/Audit/Recorder/Async/Stored.antt =====
-- internal/audit/recorder.go with internal/audit/storage/bunrepo/repository.go: what the asynchronous
-- recorder leaves in the tables, whatever becomes of the transactions.
use turnstile_appcheck_gatew.Prelude.{String, Option, All}
use turnstile_appcheck_gatew.Audit.Event.{Event, Time}
use turnstile_appcheck_gatew.Audit.Policy.{PolicyConfig}
use turnstile_appcheck_gatew.Store.Tables.{Dialect}
use turnstile_appcheck_gatew.Store.Tables.Replay.{HasId, Holds}
use turnstile_appcheck_gatew.Audit.Recorder.{Repository, AsyncConfig}
use turnstile_appcheck_gatew.Audit.Recorder.Async.{AsyncRecorder}
use turnstile_appcheck_gatew.Audit.Recorder.Async.Log.{Logged, logged}
use turnstile_appcheck_gatew.Audit.Recorder.Stored.{Db, Surroundings, ids_of, repository}

module _ (dialect : Dialect) (print : Time → String) (world : Surroundings)
    (policy : Option PolicyConfig) (cfg : AsyncConfig) where
  abbrev repo : Repository (Logged Db)
  repo = logged (repository dialect print world)

  -- each event that was acknowledged is in the table
  abbrev pub IsInTable : Logged Db → Type 0
  IsInTable l = All (Holds l.store.tables.events) (ids_of l.events)

  -- and those of the batch have their ids
  abbrev pub IsStored : AsyncRecorder (Logged Db) → Type 0
  IsStored r = All HasId (ids_of r.events) × IsInTable r.store

-- ===== src/Audit/Recorder/Sync/Tables.antt =====
-- internal/audit/recorder.go with internal/audit/storage/bunrepo/repository.go: what the synchronous
-- recorder writes to the tables.
use turnstile_appcheck_gatew.Prelude.{ℕ, ◌≤◌, String, Bool, List}
use turnstile_appcheck_gatew.Audit.Event.{Event, MetricRollup, Time}
use turnstile_appcheck_gatew.Store.Tables.{Tables, Dialect}
use turnstile_appcheck_gatew.Audit.Recorder.Stored.{Db, Surroundings}
use turnstile_appcheck_gatew.Audit.Recorder.Stored.Attempts.{Effect}

module _ (dialect : Dialect) (print : Time → String) (world : Surroundings) where
  -- at most one write took effect
  abbrev pub AtMostOnce : List Event → List MetricRollup → Db → Db × Bool → Type 0
  AtMostOnce es rs db (db', ok) = (n : ℕ) × (n ≤ 1) × Effect dialect print world es rs n db db' ok

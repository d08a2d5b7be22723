-- ===== src/Audit/Recorder/Async/Log.antt =====
-- internal/audit/recorder.go: a log of the batches that a repository has acknowledged by returning nil.
use turnstile_appcheck_gatew.Prelude.{
  Bool, List, [], ◌++◌, Option, none, some, ◌≡◌, refl, ap, if◌then◌else◌,
}
use turnstile_appcheck_gatew.Audit.Event.{Event, MetricRollup}
use turnstile_appcheck_gatew.Audit.Recorder.{Repository}
use turnstile_appcheck_gatew.Audit.Recorder.Retry.{IsLogged}

-- a store, and what has been acknowledged to the recorder
pub record Logged (S : Type 0) : Type 0 where
  pub store : S
  pub events : List Event
  pub rollups : List MetricRollup

-- Any append, with a log: it acts on the store as it does, and a batch for which it returns nil is noted.
unfoldable pub log_append :
    {S : Type 0}
    → (List Event → List MetricRollup → S → S × Bool)
    → List Event
    → List MetricRollup
    → Logged S
    → Logged S × Bool
log_append append es rs l =
    let (s', ok) = append es rs l.store in
    (
      record {
        store = s';
        events = if ok then l.events ++ es else l.events;
        rollups = if ok then l.rollups ++ rs else l.rollups;
      },
      ok,
    )

unfoldable pub log_atomic :
    {S : Type 0}
    → Option (List Event → List MetricRollup → S → S × Bool)
    → Option (List Event → List MetricRollup → Logged S → Logged S × Bool)
log_atomic none = none
log_atomic (some append) = some (log_append append)

unfoldable pub logged : {S : Type 0} → Repository S → Repository (Logged S)
unfolding log_atomic
logged repo = record {
  append_batch = λ es. log_append (λ es' rs s. repo.append_batch es' s) es [];
  append_metric_rollups = log_append (λ es rs s. repo.append_metric_rollups rs s) [];
  atomic = log_atomic repo.atomic;
}

unfoldable pub log-IsLogged :
    {S : Type 0} (append : List Event → List MetricRollup → S → S × Bool)
    → IsLogged (log_append append)
unfolding log_append
log-IsLogged append = record {
  stored = λ l. l.events;
  counted = λ l. l.rollups;
  stored_if = λ es rs l. refl;
  counted_if = λ es rs l. refl;
}

module _ {S : Type 0} (repo : Repository S) (append : List Event → List MetricRollup → S → S × Bool)
    (atomic : repo.atomic ≡ some append) where
  pub logged-atomic : (logged repo).atomic ≡ some (log_append append)
  unfolding logged log_atomic
  logged-atomic = ap log_atomic atomic

-- ===== src/Audit/Recorder/Async/Keeps.antt =====
-- internal/audit/recorder.go: what the attempts of a flush do not change, and the ids of the events in a
-- batch.
use turnstile_appcheck_gatew.Prelude.{
  ℕ, zero, suc, ◌+◌, String, Bool, true, false, List, [], ◌∷◌, ◌++◌, All, ◌==◌, eqb, ℤ, ◌≡◌,
  Bool-cases, inl, inr,
}
use turnstile_appcheck_gatew.Audit.Event.{Event, MetricRollup}
use turnstile_appcheck_gatew.Store.Tables.{has_id}
use turnstile_appcheck_gatew.Store.Tables.Replay.{HasId, Holds}
use turnstile_appcheck_gatew.Audit.Recorder.{
  Repository, RecorderStats, Flushed, flush_once, retry_from, settle,
}
use turnstile_appcheck_gatew.Audit.Recorder.Async.{AsyncItem, event_of}
use turnstile_appcheck_gatew.Audit.Recorder.Stored.{ids_of}

-- What an append of the batch preserves, a flush of it preserves.
module _ {S : Type 0} (repo : Repository S) (P : S → Type 0) (events : List Event)
    (rollups : List MetricRollup)
    (once : (s : S) (stats : RecorderStats)
      → P s
      → P (flush_once repo events rollups s stats).store) where
  settle-keeps :
      (last cancelled : Bool) (backoff : ℤ) (first more : Flushed S)
      → P first.store
      → P more.store
      → P (settle last cancelled backoff first more).store
  unfolding settle
  settle-keeps last cancelled backoff first more h k = elim (Bool-cases first.ok) [
    | inl e ↦ rw e h
    | inr e ↦ rw e (failed last cancelled)
  ]
    where
      failed :
          (last cancelled : Bool)
          → P (settle last cancelled backoff (record first { ok = false }) more).store
      failed true cancelled = h
      failed false true = h
      failed false false = k

  pub retry-keeps :
      (cancelled : ℕ → Bool) (max : ℤ) (left n : ℕ) (backoff : ℤ) (s : S) (stats : RecorderStats)
      → P s
      → P (retry_from repo events rollups cancelled max left n backoff s stats).store
  unfolding retry_from
  retry-keeps cancelled max zero n backoff s stats h = h
  retry-keeps cancelled max (suc left) n backoff s stats h =
      let first = once s stats h in
      settle-keeps (eqb left 0) (cancelled n) backoff _ _ first
        (retry-keeps cancelled max left (n + 1) _ _ _ first)

pub ids_of-append :
    (P : String → Type 0) (es es' : List Event)
    → All P (ids_of es)
    → All P (ids_of es')
    → All P (ids_of (es ++ es'))
ids_of-append P [] es' h k = k
ids_of-append P (e ∷ es) es' h k = (h.0, ids_of-append P es es' h.1 k)

pub event_of-HasId : (i : AsyncItem) → All HasId (ids_of (event_of i))
event_of-HasId i = elim (Bool-cases (i.event.id == "")) [ inl e ↦ rw e tt | inr e ↦ rw e (e, tt) ]

pub kept :
    (rows rows' : List Event) (events : List Event)
    → ((id : String) → has_id id rows ≡ true → has_id id rows' ≡ true)
    → All (Holds rows) (ids_of events)
    → All (Holds rows') (ids_of events)
kept rows rows' [] keeps h = tt
kept rows rows' (e ∷ es) keeps h = (keeps e.id h.0, kept rows rows' es keeps h.1)

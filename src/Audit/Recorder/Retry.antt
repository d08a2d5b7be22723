-- ===== src/Audit/Recorder/Retry.antt =====
-- What the retries of a flush do.
use turnstile_appcheck_gatew.Prelude.{
  ℕ, zero, suc, ◌+◌, ◌<◌, Bool, true, false, List, ◌++◌, some, if◌then◌else◌, eqb, ℤ, leb_ℤ, ◌≡◌,
  refl, arith, All, length, Bool-cases, inl, inr,
}
use turnstile_appcheck_gatew.Prelude.Int.{pos_part}
use turnstile_appcheck_gatew.Audit.Event.{Event, MetricRollup}
use turnstile_appcheck_gatew.Audit.Recorder.{
  Repository, RecorderStats, Flushed, flush_once, retry_from, next_backoff, settle, AsyncConfig,
  normalize_async_config, flush_with_retry, count_retry,
}

-- A log that an append keeps: one that returns nil adds the batch to it, and one that fails does not.
-- Async.Log gives every append such a log.
pub record IsLogged {S : Type 0} (append : List Event → List MetricRollup → S → S × Bool)
    : Type 0 where
  pub stored : S → List Event
  pub counted : S → List MetricRollup
  pub stored_if :
      (es : List Event) (rs : List MetricRollup) (s : S)
      → stored (append es rs s).0 ≡ (if (append es rs s).1 then stored s ++ es else stored s)
  pub counted_if :
      (es : List Event) (rs : List MetricRollup) (s : S)
      → counted (append es rs s).0 ≡ (if (append es rs s).1 then counted s ++ rs else counted s)

pub attempts_positive :
    (cfg : AsyncConfig) → 0 < pos_part (normalize_async_config cfg).retry_max_attempts
unfolding normalize_async_config
attempts_positive cfg = ground arith

module _ {S : Type 0} (append : List Event → List MetricRollup → S → S × Bool)
    (laws : IsLogged append) (repo : Repository S) (atomic : repo.atomic ≡ some append)
    (events : List Event) (rollups : List MetricRollup) where
  abbrev pub Outcome : S → Flushed S → Type 0
  Outcome s f =
      (laws.stored f.store ≡ (if f.ok then laws.stored s ++ events else laws.stored s))
      × (laws.counted f.store ≡ (if f.ok then laws.counted s ++ rollups else laws.counted s))

  once-Outcome :
      (s : S) (stats : RecorderStats) → Outcome s (flush_once repo events rollups s stats)
  unfolding flush_once
  once-Outcome s stats =
      rw atomic (laws.stored_if events rollups s, laws.counted_if events rollups s)

  settle-Outcome :
      (s : S) (last cancelled : Bool) (backoff : ℤ) (once more : Flushed S)
      → Outcome s once
      → (last ≡ false → Outcome once.store more)
      → Outcome s (settle last cancelled backoff once more)
  unfolding settle
  settle-Outcome s last cancelled backoff once more h k = elim (Bool-cases once.ok) [
    | inl e ↦ rw e (rw e at h)
    | inr e ↦ rw e (failed last cancelled (rw e at h) k)
  ]
    where
      failed :
          (last cancelled : Bool)
          → (laws.stored once.store ≡ laws.stored s) × (laws.counted once.store ≡ laws.counted s)
          → (last ≡ false → Outcome once.store more)
          → Outcome s (settle last cancelled backoff (record once { ok = false }) more)
      failed true cancelled h k = h
      failed false true h k = h
      failed false false h k = (rw (← h.0) (k refl).0, rw (← h.1) (k refl).1)

  retry-Outcome :
      (cancelled : ℕ → Bool) (max : ℤ) (left n : ℕ) (backoff : ℤ) (s : S) (stats : RecorderStats)
      → 0 < left
      → Outcome s (retry_from repo events rollups cancelled max left n backoff s stats)
  unfolding retry_from
  retry-Outcome cancelled max zero n backoff s stats p = absurd (omega arith)
  retry-Outcome cancelled max (suc left) n backoff s stats p =
      settle-Outcome s (eqb left 0) (cancelled n) backoff _ _ (once-Outcome s stats)
        λ more. retry-Outcome cancelled max left (n + 1) _ _ _ (ground arith)

  -- With an atomic repository that keeps a log, and a configuration as NewAsyncRecorder normalises
  -- it, a flush that returns nil has stored and counted its batch once, after what was there, however
  -- many attempts failed before; one that returns an error has changed nothing.
  pub flush_with_retry-Outcome :
      (cfg : AsyncConfig) (cancelled : ℕ → Bool) (s : S) (stats : RecorderStats)
      → Outcome s
          (flush_with_retry repo events rollups (normalize_async_config cfg) cancelled s stats)
  unfolding flush_with_retry
  flush_with_retry-Outcome cfg cancelled s stats =
      retry-Outcome cancelled _ _ 1 _ s stats (attempts_positive cfg)

abbrev pub AtMost : ℤ → ℤ → Type 0
AtMost bound w = leb_ℤ w bound ≡ true

AtMost-trans : (a b c : ℤ) → AtMost b a → AtMost c b → AtMost c a
AtMost-trans a b c h k = ground arith

AtMost-refl : (a : ℤ) → AtMost a a
AtMost-refl a = ground arith

next_backoff-AtMost : (backoff max : ℤ) → AtMost max (next_backoff backoff max)
unfolding next_backoff
next_backoff-AtMost backoff max = ground arith

settle_waits :
    {S : Type 0} (bound : ℤ) (left : ℕ) (cancelled : Bool) (backoff : ℤ) (once more : Flushed S)
    → AtMost bound backoff
    → All (AtMost bound) more.waits
    → (0 < left → length more.waits < left)
    → All (AtMost bound) (settle (eqb left 0) cancelled backoff once more).waits
      × (length (settle (eqb left 0) cancelled backoff once more).waits < suc left)
unfolding settle
settle_waits bound left cancelled backoff once more h k l = ground arith

module _ {S : Type 0} (repo : Repository S) (events : List Event)
    (rollups : List MetricRollup) where
  retry_waits :
      (cancelled : ℕ → Bool) (max bound : ℤ) (left n : ℕ) (backoff : ℤ) (s : S)
      (stats : RecorderStats)
      → AtMost bound backoff
      → leb_ℤ max bound ≡ true
      → All
          (AtMost bound)
          (retry_from repo events rollups cancelled max left n backoff s stats).waits
        × (0 < left
            → length (retry_from repo events rollups cancelled max left n backoff s stats).waits
              < left)
  unfolding retry_from
  retry_waits cancelled max bound zero n backoff s stats h m = (tt, λ p. absurd (omega arith))
  retry_waits cancelled max bound (suc left) n backoff s stats h m =
      let (small, few) =
        retry_waits cancelled max bound left (n + 1) (next_backoff backoff max)
          (flush_once repo events rollups s stats).store
          (count_retry (flush_once repo events rollups s stats).stats)
          (AtMost-trans (next_backoff backoff max) max bound (next_backoff-AtMost backoff max) m)
          m in
      let (a, b) = settle_waits bound left (cancelled n) backoff _ _ h small few in (a, λ p. b)

  -- A flush waits fewer times than it may attempt, and never longer than the maximum of the normalised
  -- configuration, if the initial wait is not longer; doubling in int64 does not break this.
  pub flush_with_retry_waits :
      (cfg : AsyncConfig) (cancelled : ℕ → Bool) (s : S) (stats : RecorderStats)
      → AtMost
          (normalize_async_config cfg).retry_max_backoff
          (normalize_async_config cfg).retry_initial_backoff
      → let f =
          flush_with_retry repo events rollups (normalize_async_config cfg) cancelled s stats in
        All (AtMost (normalize_async_config cfg).retry_max_backoff) f.waits
        × (length f.waits < pos_part (normalize_async_config cfg).retry_max_attempts)
  unfolding flush_with_retry
  flush_with_retry_waits cfg cancelled s stats h =
      let (small, few) =
        retry_waits cancelled _ (normalize_async_config cfg).retry_max_backoff _ 1 _ s stats h
          (AtMost-refl (normalize_async_config cfg).retry_max_backoff) in
      (small, few (attempts_positive cfg))

-- ===== src/Audit/Recorder/Recovery.antt =====
-- internal/audit/recorder.go: a flush outlasts an outage that is shorter than its retries.
use turnstile_appcheck_gatew.Prelude.{
  ℕ, zero, suc, ◌+◌, ◌≤◌, ◌<◌, Bool, true, false, List, some, eqb, ℤ, ◌≡◌, refl, ◌∙◌, arith,
  Bool-cases, inl, inr,
}
use turnstile_appcheck_gatew.Prelude.Int.{pos_part}
use turnstile_appcheck_gatew.Audit.Event.{Event, MetricRollup}
use turnstile_appcheck_gatew.Audit.Recorder.{
  Repository, RecorderStats, Flushed, flush_once, retry_from, settle, AsyncConfig,
  normalize_async_config, flush_with_retry,
}

settle_done :
    {S : Type 0} (last cancelled : Bool) (backoff : ℤ) (once more : Flushed S)
    → once.ok ≡ true
    → (settle last cancelled backoff once more).ok ≡ true
unfolding settle
settle_done last cancelled backoff once more h = rw h refl

settle_again :
    {S : Type 0} (last cancelled : Bool) (backoff : ℤ) (once more : Flushed S)
    → last ≡ false
    → cancelled ≡ false
    → once.ok ≡ false
    → (settle last cancelled backoff once more).ok ≡ more.ok
unfolding settle
settle_again last cancelled backoff once more l c h = rw h (rw l (rw c refl))

not_last : (k left : ℕ) → suc k < suc left → eqb left 0 ≡ false
not_last k left h = ground arith

module _ {S : Type 0} (append : List Event → List MetricRollup → S → S × Bool) (repo : Repository S)
    (atomic : repo.atomic ≡ some append) (events : List Event) (rollups : List MetricRollup) where
  -- the store after this many attempts
  abbrev pub after_attempts : ℕ → S → S
  after_attempts zero s = s
  after_attempts (suc k) s = after_attempts k (append events rollups s).0

  once-is :
      (s : S) (stats : RecorderStats)
      → ((flush_once repo events rollups s stats).ok ≡ (append events rollups s).1)
        × ((flush_once repo events rollups s stats).store ≡ (append events rollups s).0)
  unfolding flush_once
  once-is s stats = rw atomic (refl, refl)

  retry_recovers :
      (cancelled : ℕ → Bool) (max : ℤ) (k left n : ℕ) (backoff : ℤ) (s : S) (stats : RecorderStats)
      → k < left
      → (append events rollups (after_attempts k s)).1 ≡ true
      → ((m : ℕ) → m < n + k → cancelled m ≡ false)
      → (retry_from repo events rollups cancelled max left n backoff s stats).ok ≡ true
  unfolding retry_from
  retry_recovers cancelled max k zero n backoff s stats l a c = absurd (omega arith)
  retry_recovers cancelled max zero (suc left) n backoff s stats l a c =
      settle_done (eqb left 0) (cancelled n) backoff _ _ (rw ((once-is s stats).0) a)
  retry_recovers cancelled max (suc k) (suc left) n backoff s stats l a c =
      elim (Bool-cases (flush_once repo events rollups s stats).ok) [
        | inl e ↦ settle_done (eqb left 0) (cancelled n) backoff _ _ e
        | inr e ↦
            settle_again (eqb left 0) (cancelled n) backoff _ _ (not_last k left l)
              (c n (omega arith)) e
            ∙ retry_recovers cancelled max k left (n + 1) _ _ _ (omega arith)
                (rw ((once-is s stats).1) a) (λ m h. c m (omega arith))
      ]

  -- If the repository accepts the batch at one of the attempts that the normalised configuration allows,
  -- and the context is not done before that attempt, then the flush returns nil.
  pub flush_with_retry-ok :
      (cfg : AsyncConfig) (cancelled : ℕ → Bool) (k : ℕ) (s : S) (stats : RecorderStats)
      → k < pos_part (normalize_async_config cfg).retry_max_attempts
      → (append events rollups (after_attempts k s)).1 ≡ true
      → ((m : ℕ) → m ≤ k → cancelled m ≡ false)
      → (flush_with_retry repo events rollups (normalize_async_config cfg) cancelled s stats).ok
        ≡ true
  unfolding flush_with_retry
  flush_with_retry-ok cfg cancelled k s stats l a c =
      retry_recovers cancelled (normalize_async_config cfg).retry_max_backoff k
        (pos_part (normalize_async_config cfg).retry_max_attempts) 1
        (normalize_async_config cfg).retry_initial_backoff s stats l a (λ m h. c m (omega arith))

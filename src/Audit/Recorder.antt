-- ===== src/Audit/Recorder.antt =====
-- internal/audit/recorder.go: the parts that both recorders share, and the flush of a batch.
pub mod Retry
pub mod Recovery
pub mod Async
pub mod Sync
pub mod Stored
use turnstile_appcheck_gatew.Prelude.{
  ℕ, zero, suc, ◌+◌, ◌-◌, ◌*◌, ◌^◌, String, Bool, true, false, not, ◌&&◌, List, [], ◌∷◌, Option,
  none, some, if◌then◌else◌, eqb, is_empty, ℤ, pos, negsuc, ltb_ℤ, leb_ℤ, wrap_64,
}
use turnstile_appcheck_gatew.Prelude.Int.{pos_part}
use turnstile_appcheck_gatew.Audit.Event.{Event, MetricRollup}

-- The part of `Repository` that a recorder writes to. `S` is the state of the store and of all that
-- decides whether it fails; the Boolean is true if no error is returned. `atomic` is there if the
-- repository is an AtomicBatchRepository.
pub record Repository (S : Type 0) : Type 0 where
  pub append_batch : List Event → S → S × Bool
  pub append_metric_rollups : List MetricRollup → S → S × Bool
  pub atomic : Option (List Event → List MetricRollup → S → S × Bool)

pub record RecorderStats : Type 0 where
  pub enqueue_total : ℕ
  pub enqueue_error_total : ℕ
  pub dropped_total : ℕ
  pub channel_full_total : ℕ
  pub flush_total : ℕ
  pub flush_error_total : ℕ
  pub retry_total : ℕ
  pub retry_exhausted_total : ℕ
  pub policy_skipped_total : ℕ
  pub sampled_out_total : ℕ
  pub rollup_flush_total : ℕ
  pub rollup_flush_error : ℕ

abbrev pub no_stats : RecorderStats
no_stats = record {
  enqueue_total = 0;
  enqueue_error_total = 0;
  dropped_total = 0;
  channel_full_total = 0;
  flush_total = 0;
  flush_error_total = 0;
  retry_total = 0;
  retry_exhausted_total = 0;
  policy_skipped_total = 0;
  sampled_out_total = 0;
  rollup_flush_total = 0;
  rollup_flush_error = 0;
}

-- `if len(l) > 0 { counter.Add(1) }`
abbrev pub bump_if_any {ℓ} : {A : Type ℓ} → List A → ℕ → ℕ
bump_if_any l n = if is_empty l then n else n + 1

abbrev pub bump_if : Bool → ℕ → ℕ
bump_if b n = if b then n + 1 else n

-- AsyncConfig, with durations in nanoseconds
pub record AsyncConfig : Type 0 where
  pub channel_size : ℤ
  pub batch_size : ℤ
  pub flush_interval : ℤ
  pub shutdown_flush_timeout : ℤ
  pub drop_on_full : Bool
  pub enqueue_timeout : ℤ
  pub critical_enqueue_timeout : ℤ
  pub retry_max_attempts : ℤ
  pub retry_initial_backoff : ℤ
  pub retry_max_backoff : ℤ

abbrev pub default_async_config : AsyncConfig
default_async_config = record {
  channel_size = pos 50000;
  batch_size = pos 1000;
  flush_interval = pos 100000000;
  shutdown_flush_timeout = pos 5000000000;
  drop_on_full = true;
  enqueue_timeout = pos 5000000;
  critical_enqueue_timeout = pos 50000000;
  retry_max_attempts = pos 3;
  retry_initial_backoff = pos 100000000;
  retry_max_backoff = pos 2000000000;
}

-- `if value <= 0 { value = fallback }`
abbrev pub or_positive : ℤ → ℤ → ℤ
or_positive value fallback = if leb_ℤ value (pos 0) then fallback else value

-- the first part of NewAsyncRecorder
unfoldable pub normalize_async_config : AsyncConfig → AsyncConfig
normalize_async_config cfg =
    let d = default_async_config in
    record {
      channel_size = or_positive cfg.channel_size d.channel_size;
      batch_size = or_positive cfg.batch_size d.batch_size;
      flush_interval = or_positive cfg.flush_interval d.flush_interval;
      shutdown_flush_timeout = or_positive cfg.shutdown_flush_timeout d.shutdown_flush_timeout;
      drop_on_full = cfg.drop_on_full;
      enqueue_timeout = or_positive cfg.enqueue_timeout d.enqueue_timeout;
      critical_enqueue_timeout =
          or_positive cfg.critical_enqueue_timeout d.critical_enqueue_timeout;
      retry_max_attempts = or_positive cfg.retry_max_attempts d.retry_max_attempts;
      retry_initial_backoff = or_positive cfg.retry_initial_backoff d.retry_initial_backoff;
      retry_max_backoff = or_positive cfg.retry_max_backoff d.retry_max_backoff;
    }

-- `backoff *= 2`, in int64
unfoldable pub double : ℤ → ℤ
double (pos n) = wrap_64 (2 * n)
double (negsuc n) = wrap_64 (2 ^ 65 - 2 * suc n)

unfoldable pub next_backoff : ℤ → ℤ → ℤ
next_backoff backoff max = let d = double backoff in if ltb_ℤ max d then max else d

-- what a flush leaves: the store, the counters, whether it returned nil, and the waits it made
pub record Flushed (S : Type 0) : Type 0 where
  pub store : S
  pub stats : RecorderStats
  pub ok : Bool
  pub waits : List ℤ

-- RetryTotal.Add(1)
abbrev pub count_retry : RecorderStats → RecorderStats
count_retry stats = record stats { retry_total = stats.retry_total + 1 }

-- One round of the loop of flushWithRetry, after the attempt `once`: `more` is what the further
-- rounds come to.
pub settle : {S : Type 0} → Bool → Bool → ℤ → Flushed S → Flushed S → Flushed S
settle last cancelled backoff once more =
    if once.ok
    then record { store = once.store; stats = once.stats; ok = true; waits = [] }
    else if last
    then record {
      store = once.store;
      stats = record (count_retry once.stats) {
        retry_exhausted_total = once.stats.retry_exhausted_total + 1;
      };
      ok = false;
      waits = [];
    }
    else if cancelled
    then record {
      store = once.store;
      stats = count_retry once.stats;
      ok = false;
      waits = backoff ∷ [];
    }
    else record more { waits = backoff ∷ more.waits }

module _ {S : Type 0} (repo : Repository S) (events : List Event)
    (rollups : List MetricRollup) where
  -- the part of flushOnce for the metrics of a repository that is not atomic
  flush_rollups : S → RecorderStats → Flushed S
  flush_rollups s stats =
      let (s', ok) = repo.append_metric_rollups rollups s in
      if is_empty rollups
      then record { store = s; stats = stats; ok = true; waits = [] }
      else record {
        store = s';
        stats =
            if ok
            then record stats { rollup_flush_total = stats.rollup_flush_total + 1 }
            else record stats { rollup_flush_error = stats.rollup_flush_error + 1 };
        ok = ok;
        waits = [];
      }

  flush_parts : S → RecorderStats → Flushed S
  unfolding flush_rollups
  flush_parts s stats =
      let (s', ok) = repo.append_batch events s in
      if is_empty events
      then flush_rollups s stats
      else if ok
      then flush_rollups s' (record stats { flush_total = stats.flush_total + 1 })
      else record {
        store = s';
        stats = record stats { flush_error_total = stats.flush_error_total + 1 };
        ok = false;
        waits = [];
      }

  -- the part of flushOnce for an atomic repository
  flush_atomic : (List Event → List MetricRollup → S → S × Bool) → S → RecorderStats → Flushed S
  flush_atomic append s stats =
      let (s', ok) = append events rollups s in
      record {
        store = s';
        stats =
            if ok
            then record stats {
              flush_total = bump_if_any events stats.flush_total;
              rollup_flush_total = bump_if_any rollups stats.rollup_flush_total;
            }
            else record stats {
              flush_error_total = bump_if_any events stats.flush_error_total;
              rollup_flush_error = bump_if_any rollups stats.rollup_flush_error;
            };
        ok = ok;
        waits = [];
      }

  unfoldable pub flush_once : S → RecorderStats → Flushed S
  unfolding flush_atomic flush_parts
  flush_once s stats = elim repo.atomic [
    | some append ↦ flush_atomic append s stats
    | none ↦ flush_parts s stats
  ]

  -- The loop of flushWithRetry with `left` attempts to make, of which this is number `n`;
  -- `cancelled n` says that the context is done before the wait after attempt n is over.
  unfoldable pub retry_from : (ℕ → Bool) → ℤ → ℕ → ℕ → ℤ → S → RecorderStats → Flushed S
  retry_from cancelled max zero n backoff s stats = record {
    store = s;
    stats = record stats { retry_exhausted_total = stats.retry_exhausted_total + 1 };
    ok = true;
    waits = [];
  }
  retry_from cancelled max (suc left) n backoff s stats =
      let once = flush_once s stats in
      let more =
        retry_from cancelled max left (n + 1) (next_backoff backoff max) once.store
          (count_retry once.stats) in
      settle (eqb left 0) (cancelled n) backoff once more

  -- flushWithRetry
  unfoldable pub flush_with_retry : AsyncConfig → (ℕ → Bool) → S → RecorderStats → Flushed S
  flush_with_retry cfg cancelled s stats =
      retry_from cancelled cfg.retry_max_backoff (pos_part cfg.retry_max_attempts) 1
        cfg.retry_initial_backoff s stats

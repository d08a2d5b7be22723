-- ===== src/Audit/Recorder/Async/Stopped.antt =====
-- internal/audit/recorder.go: how the asynchronous recorder's writer ends.
use turnstile_appcheck_gatew.Prelude.{
  ℕ, Bool, true, false, ◌&&◌, List, [], ◌∷◌, ◌++◌, Option, some, ◌≡◌, refl, if◌then◌else◌, is_empty,
  append-nil, arith, Bool-cases, inl, inr,
}
use turnstile_appcheck_gatew.Audit.Event.{Event, MetricRollup}
use turnstile_appcheck_gatew.Audit.Policy.{PolicyConfig}
use turnstile_appcheck_gatew.Audit.Recorder.{
  Repository, AsyncConfig, normalize_async_config, flush_with_retry,
}
use turnstile_appcheck_gatew.Audit.Recorder.Retry.{IsLogged}
use turnstile_appcheck_gatew.Audit.Recorder.Async.{
  AsyncItem, AsyncRecorder, shut_down, add, drain_from, flush, shut_down_with, act,
}
use turnstile_appcheck_gatew.Audit.Recorder.Async.Order.{events_of, rollups_of, flush_drained-Gains}

module _ {S : Type 0} (repo : Repository S) (policy : Option PolicyConfig) (cfg : AsyncConfig) where
  pub items-drain_from :
      (is : List AsyncItem) (r : AsyncRecorder S) → (drain_from repo policy cfg is r).items ≡ []
  unfolding drain_from
  items-drain_from [] r = refl
  items-drain_from (i ∷ is) r = items-drain_from is (add repo policy cfg i r)

  abbrev Empty : AsyncRecorder S → Type 0
  Empty r = (r.items ≡ []) × (r.events ≡ []) × (r.rollups ≡ [])

  flush-Empty :
      (cancelled : ℕ → Bool) (r : AsyncRecorder S)
      → r.items ≡ []
      → (flush repo policy cfg cancelled r).1 ≡ true
      → Empty (flush repo policy cfg cancelled r).0
  unfolding flush
  flush-Empty cancelled r h k =
      let f = flush_with_retry repo r.events r.rollups cfg cancelled r.store r.stats in
      elim (Bool-cases (is_empty r.events && is_empty r.rollups)) [
        | inl e ↦ rw e (h, ground arith, ground arith)
        | inr e ↦ elim (Bool-cases f.ok) [
          | inl o ↦ rw e (rw o (h, refl, refl))
          | inr o ↦ let k' = rw e at k in let k'' = rw o at k' in cc
        ]
      ]

module _ {S : Type 0} (append : List Event → List MetricRollup → S → S × Bool)
    (laws : IsLogged append) (repo : Repository S) (atomic : repo.atomic ≡ some append)
    (policy : Option PolicyConfig) (config : AsyncConfig) where
  abbrev cfg : AsyncConfig
  cfg = normalize_async_config config

  -- what a shutdown leaves
  pub shut_down-Stores :
      (cancelled : ℕ → Bool) (r : AsyncRecorder S)
      → r.running ≡ true
      → r.closed ≡ true
      → let r' = act repo policy cfg (shut_down cancelled) r in
        (r'.running ≡ false)
        × (r'.result ≡ some true
            → (laws.stored r'.store ≡ events_of append laws repo atomic policy config r)
              × (laws.counted r'.store ≡ rollups_of append laws repo atomic policy config r))
  unfolding act shut_down_with
  shut_down-Stores cancelled r h k = on (r.running && r.closed) (rw h k) (
    refl,
    λ done.
        stored_all (drain_from repo policy cfg r.items r)
          (flush_drained-Gains append laws repo atomic policy config cancelled r)
          (items-drain_from repo policy cfg r.items r) done,
  )
    where
      Done : AsyncRecorder S → Type 0
      Done r' =
          (r'.running ≡ false)
          × (r'.result ≡ some true
              → (laws.stored r'.store ≡ events_of append laws repo atomic policy config r)
                × (laws.counted r'.store ≡ rollups_of append laws repo atomic policy config r))

      on :
          (b : Bool)
          → b ≡ true
          → Done (shut_down_with repo policy cfg cancelled r)
          → Done (if b then shut_down_with repo policy cfg cancelled r else r)
      on true e d = d
      on false e d = cc

      stored_all :
          (d : AsyncRecorder S)
          → (events_of append laws repo atomic policy config (flush repo policy cfg cancelled d).0
              ≡ events_of append laws repo atomic policy config r ++ [])
            × (rollups_of append laws repo atomic policy config
                  (flush repo policy cfg cancelled d).0
                ≡ rollups_of append laws repo atomic policy config r ++ [])
          → d.items ≡ []
          → some (flush repo policy cfg cancelled d).1 ≡ some true
          → (laws.stored (flush repo policy cfg cancelled d).0.store
              ≡ events_of append laws repo atomic policy config r)
            × (laws.counted (flush repo policy cfg cancelled d).0.store
                ≡ rollups_of append laws repo atomic policy config r)
      stored_all d (a, b) e done =
          let (no_items, no_events, no_rollups) = flush-Empty repo policy cfg cancelled d e cc in
          (
            simp (no_events, no_items, append-nil) at a,
            simp (no_rollups, no_items, append-nil) at b,
          )

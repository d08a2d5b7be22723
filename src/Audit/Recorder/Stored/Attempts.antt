-- ===== src/Audit/Recorder/Stored/Attempts.antt =====
-- internal/audit/recorder.go with internal/audit/storage/bunrepo/repository.go: what the flush of a batch
-- does to the tables, whatever becomes of the transactions.
use turnstile_appcheck_gatew.Prelude.{
  ℕ, zero, suc, ◌+◌, ◌*◌, ◌≤◌, ◌<◌, String, Bool, true, false, ◌&&◌, List, [], ◌∷◌, All, is_empty,
  eqb, ℤ, ◌≡◌, refl, ap, sym, ◌∙◌, subst, arith, Bool-cases, inl, inr,
}
use turnstile_appcheck_gatew.Audit.Event.{Event, MetricRollup, Time}
use turnstile_appcheck_gatew.Store.Rollups.{prepare_rollup_models}
use turnstile_appcheck_gatew.Store.Rollups.Sums.{sum_counts, batch_count, undated, prepared-sum}
use turnstile_appcheck_gatew.Store.Tables.{
  Tables, Dialect, has_id, insert_event_models, prepare_event_models,
}
use turnstile_appcheck_gatew.Store.Tables.Replay.{
  draft_ids, HasId, Holds, prepared_ids, insert_event_models-keeps, insert_event_models-rollups,
  append_told, acknowledged-is_written, insert_event_models-Holds, upsert_all-sum, is_written,
  written, append_effect,
}
use turnstile_appcheck_gatew.Audit.Recorder.{RecorderStats, Flushed, flush_once, retry_from, settle}
use turnstile_appcheck_gatew.Audit.Recorder.Stored.{
  Db, Surroundings, drafts, dated, ids_of, audit_append, repository,
}

drafts-ids :
    (read : ℕ → Time × String) (n : ℕ) (es : List Event) → draft_ids (drafts read n es) ≡ ids_of es
drafts-ids read n [] = refl
drafts-ids read n (e ∷ es) = ap (λ ids. e.id ∷ ids) (drafts-ids read (suc n) es)

dated-undated :
    (read : ℕ → Time × String) (n : ℕ) (rs : List MetricRollup) → undated (dated read n rs) ≡ rs
dated-undated read n [] = refl
dated-undated read n (r ∷ rs) = ap (λ l. r ∷ l) (dated-undated read (suc n) rs)

module _ (dialect : Dialect) (print : Time → String) (world : Surroundings) where
  abbrev pub Keeps : Tables → Tables → Type 0
  Keeps t t' = (id : String) → has_id id t.events ≡ true → has_id id t'.events ≡ true

  -- What some attempts to write a batch, `n` of which are written, lead to; `ok` if one was
  -- acknowledged.
  abbrev pub Effect : List Event → List MetricRollup → ℕ → Db → Db → Bool → Type 0
  Effect es rs n db db' ok =
      (sum_counts db'.tables.rollups ≡ sum_counts db.tables.rollups + n * batch_count rs)
      × Keeps db.tables db'.tables
      × (n ≡ 0 → db'.tables ≡ db.tables)
      × (0 < n → All (Holds db'.tables.events) (ids_of es))
      × (ok ≡ true → 0 < n)

  module _ (es : List Event) (rs : List MetricRollup) (ids : All HasId (ids_of es))
      (some_batch : (is_empty es && is_empty rs) ≡ false) where
    written-Effect :
        (read : ℕ → Time × String) (t : Tables)
        → let t' = written dialect print (drafts read 0 es) (dated read 0 rs) t in
          (sum_counts t'.rollups ≡ sum_counts t.rollups + batch_count rs)
          × Keeps t t'
          × All (Holds t'.events) (ids_of es)
    written-Effect read t =
        let ds = drafts read 0 es in
        let models = prepare_event_models ds in
        let there = prepared_ids ds (subst (All HasId) (sym (drafts-ids read 0 es)) ids) in
        (
          upsert_all-sum (prepare_rollup_models print (dated read 0 rs))
                (insert_event_models models t).rollups
              ∙ rw (insert_event_models-rollups models t)
                  (rw (prepared-sum print (dated read 0 rs)) (rw (dated-undated read 0 rs) refl)),
          insert_event_models-keeps models t,
          subst (All (Holds (insert_event_models models t).events)) (there ∙ drafts-ids read 0 es)
              (insert_event_models-Holds models t),
        )

    pub not_empty :
        (read : ℕ → Time × String)
        → (is_empty (drafts read 0 es) && is_empty (dated read 0 rs)) ≡ false
    not_empty read = same es rs some_batch
      where
        same :
            (es : List Event) (rs : List MetricRollup)
            → (is_empty es && is_empty rs) ≡ false
            → (is_empty (drafts read 0 es) && is_empty (dated read 0 rs)) ≡ false
        same [] [] h = h
        same [] (r ∷ rs) h = refl
        same (e ∷ es) rs h = refl

    -- one attempt
    pub append-Effect :
        (db : Db)
        → let r = audit_append dialect print world es rs db in
          (n : ℕ) × (n ≤ 1) × Effect es rs n db r.0 r.1
    unfolding audit_append
    append-Effect db =
        let read = world.reading db.begun in
        let tx = world.outcome db.begun in
        let ds = drafts read 0 es in
        let rs' = dated read 0 rs in
        let told = append_told dialect print tx ds rs' db.tables (not_empty read) in
        let (sums, keeps, holds) = written-Effect read db.tables in
        elim (Bool-cases (is_written dialect print tx rs')) [
          | inl k ↦ rw (append_effect dialect print tx ds rs' db.tables) (
              rw k (
                1,
                omega arith,
                (
                  omega (arith, sums),
                  keeps,
                  (λ h. absurd (omega arith)),
                  (λ h. holds),
                  λ h. omega arith,
                ),
              ))
          | inr k ↦ rw (append_effect dialect print tx ds rs' db.tables) (
              rw k (
                0,
                omega arith,
                (
                  omega arith,
                  (λ id h. h),
                  (λ h. refl),
                  (λ h. absurd (omega arith)),
                  λ h. let yes = acknowledged-is_written dialect print tx rs' (sym told ∙ h) in cc,
                ),
              ))
        ]

    chain :
        (n m : ℕ) (db db' db'' : Db) (ok : Bool)
        → Effect es rs n db db' false
        → Effect es rs m db' db'' ok
        → Effect es rs (n + m) db db'' ok
    chain n zero db db' db'' ok (a, b, c, d, e) (a', b', c', d', e') = (
      omega (arith, a, a'),
      (λ id h. b' id (b id h)),
      (λ h. c' refl ∙ c (omega arith)),
      (λ h. rw (c' refl) (d (omega arith))),
      λ h. absurd (omega (arith, e' h)),
    )
    chain n (suc m) db db' db'' ok (a, b, c, d, e) (a', b', c', d', e') = (
      omega (arith, a, a'),
      (λ id h. b' id (b id h)),
      (λ h. absurd (omega arith)),
      (λ h. d' (omega arith)),
      λ h. omega arith,
    )

    -- At most so many attempts are written, and they have their effect.
    abbrev pub Outcome : ℕ → Db → Flushed Db → Type 0
    Outcome attempts db f = (n : ℕ) × (n ≤ attempts) × Effect es rs n db f.store f.ok

    once-Outcome :
        (db : Db) (stats : RecorderStats)
        → Outcome 1 db (flush_once (repository dialect print world) es rs db stats)
    unfolding flush_once
    once-Outcome db stats = append-Effect db

    settle-Outcome :
        (left : ℕ) (db : Db) (last cancelled : Bool) (backoff : ℤ) (once more : Flushed Db)
        → Outcome 1 db once
        → (last ≡ false → Outcome left once.store more)
        → Outcome (suc left) db (settle last cancelled backoff once more)
    unfolding settle
    settle-Outcome left db last cancelled backoff once more (n, l, h) k =
        elim (Bool-cases once.ok) [
          | inl e ↦ rw e (n, omega arith, rw e at h)
          | inr e ↦ rw e (failed last cancelled (rw e at h) k)
        ]
      where
        failed :
            (last cancelled : Bool)
            → Effect es rs n db once.store false
            → (last ≡ false → Outcome left once.store more)
            → Outcome
                (suc left)
                db
                (settle last cancelled backoff (record once { ok = false }) more)
        failed true cancelled h k = (n, omega arith, h)
        failed false true h k = (n, omega arith, h)
        failed false false h k =
            let (m, l', h') = k refl in
            (n + m, omega arith, chain n m db once.store more.store more.ok h h')

    pub retry-Outcome :
        (cancelled : ℕ → Bool) (max : ℤ) (left n : ℕ) (backoff : ℤ) (db : Db)
        (stats : RecorderStats)
        → 0 < left
        → Outcome left db (
            retry_from (repository dialect print world) es rs cancelled max left n backoff db stats)
    unfolding retry_from
    retry-Outcome cancelled max zero n backoff db stats p = absurd (omega arith)
    retry-Outcome cancelled max (suc left) n backoff db stats p =
        settle-Outcome left db (eqb left 0) (cancelled n) backoff _ _ (once-Outcome db stats)
          λ more. retry-Outcome cancelled max left (n + 1) _ _ _ (ground arith)

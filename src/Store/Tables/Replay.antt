-- ===== src/Store/Tables/Replay.antt =====
-- internal/audit/storage/bunrepo/repository.go: a batch that is written again, since its commit was not
-- acknowledged.
use turnstile_appcheck_gatew.Prelude.{
  ◌+◌, String, Bool, true, false, is_empty, not, ◌&&◌, none, some, List, [], ◌∷◌, All, ◌==◌,
  eq_refl, if◌then◌else◌, ◌≡◌, refl, sym, ap, subst, ◌∙◌, arith, Bool-cases, inl, inr,
}
use turnstile_appcheck_gatew.Audit.Event.{Time, Event, MetricRollup, prepare_event}
use turnstile_appcheck_gatew.Store.Rollups.{prepare_rollup_models, merge_rollups, merge_into}
use turnstile_appcheck_gatew.Store.Rollups.Sums.{sum_counts}
use turnstile_appcheck_gatew.Store.Tables.{
  Tables, Tx, commits, rolled_back, unacknowledged, took_effect, acknowledged, Dialect, refuses,
  finish, run_in_tx, to_event_model, has_id, insert_event, insert_event_models,
  prepare_event_models, Draft, upsert_rollup, upsert_all, upsert_rollup_models, write_batch,
  append_audit_batch,
}

-- the ids that the recorder has given
abbrev pub draft_ids : List Draft → List String
draft_ids [] = []
draft_ids ((e, now, random) ∷ more) = e.id ∷ draft_ids more

abbrev pub HasId : String → Type 0
HasId id = (id == "") ≡ false

abbrev pub model_ids : List Event → List String
model_ids [] = []
model_ids (e ∷ es) = e.id ∷ model_ids es

abbrev pub Holds : List Event → String → Type 0
Holds rows id = has_id id rows ≡ true

pub prepared_ids :
    (drafts : List Draft)
    → All HasId (draft_ids drafts)
    → model_ids (prepare_event_models drafts) ≡ draft_ids drafts
unfolding prepare_event_models prepare_event to_event_model
prepared_ids [] h = refl
prepared_ids ((e, now, random) ∷ more) h = rw h.0 (ap (λ ids. e.id ∷ ids) (prepared_ids more h.1))

insert_event-has_id : (e : Event) (t : Tables) → has_id e.id (insert_event e t).events ≡ true
unfolding insert_event
insert_event-has_id e t = elim (Bool-cases (has_id e.id t.events)) [
  | inl k ↦ rw k k
  | inr k ↦ rw k (rw (eq_refl e.id) refl)
]

insert_event-keeps :
    (e : Event) (t : Tables) (id : String)
    → has_id id t.events ≡ true
    → has_id id (insert_event e t).events ≡ true
unfolding insert_event
insert_event-keeps e t id h = elim (Bool-cases (has_id e.id t.events)) [
  | inl k ↦ rw k h
  | inr k ↦ rw k (rw h (ground arith))
]

pub insert_event_models-keeps :
    (es : List Event) (t : Tables) (id : String)
    → has_id id t.events ≡ true
    → has_id id (insert_event_models es t).events ≡ true
unfolding insert_event_models
insert_event_models-keeps [] t id h = h
insert_event_models-keeps (e ∷ es) t id h =
    insert_event_models-keeps es (insert_event e t) id (insert_event-keeps e t id h)

pub insert_event_models-Holds :
    (es : List Event) (t : Tables) → All (Holds (insert_event_models es t).events) (model_ids es)
unfolding insert_event_models
insert_event_models-Holds [] t = tt
insert_event_models-Holds (e ∷ es) t = (
  insert_event_models-keeps es (insert_event e t) e.id (insert_event-has_id e t),
  insert_event_models-Holds es (insert_event e t),
)

insert_again :
    (es : List Event) (t : Tables)
    → All (Holds t.events) (model_ids es)
    → insert_event_models es t ≡ t
unfolding insert_event_models insert_event
insert_again [] t h = refl
insert_again (e ∷ es) t h = rw h.0 (insert_again es t h.1)

insert_event-rollups : (e : Event) (t : Tables) → (insert_event e t).rollups ≡ t.rollups
unfolding insert_event
insert_event-rollups e t = elim (Bool-cases (has_id e.id t.events)) [
  | inl k ↦ rw k refl
  | inr k ↦ rw k refl
]

pub insert_event_models-rollups :
    (es : List Event) (t : Tables) → (insert_event_models es t).rollups ≡ t.rollups
unfolding insert_event_models
insert_event_models-rollups [] t = refl
insert_event_models-rollups (e ∷ es) t =
    insert_event_models-rollups es (insert_event e t) ∙ insert_event-rollups e t

upsert_rollup-sum :
    (r : MetricRollup) (rows : List MetricRollup)
    → sum_counts (upsert_rollup r rows) ≡ sum_counts rows + r.count
unfolding upsert_rollup
upsert_rollup-sum r [] = omega arith
upsert_rollup-sum r (q ∷ rows) = ground (arith, upsert_rollup-sum r rows)

pub upsert_all-sum :
    (rs rows : List MetricRollup)
    → sum_counts (upsert_all rs rows) ≡ sum_counts rows + sum_counts rs
unfolding upsert_all
upsert_all-sum [] rows = omega arith
upsert_all-sum (r ∷ rs) rows =
    omega (arith, upsert_all-sum rs (upsert_rollup r rows), upsert_rollup-sum r rows)

module _ (dialect : Dialect) (print : Time → String) where
  -- whether a batch is written: its transaction takes effect, and the dialect does not refuse its
  -- rollups
  abbrev pub is_written : Tx → List (MetricRollup × Time) → Bool
  is_written tx rs = took_effect tx && not (refuses dialect (prepare_rollup_models print rs))

  -- what a batch that is written leaves
  abbrev pub written : List Draft → List (MetricRollup × Time) → Tables → Tables
  written es rs t =
      let t' = insert_event_models (prepare_event_models es) t in
      record t' { rollups = upsert_all (prepare_rollup_models print rs) t'.rollups }

  -- a batch of nothing is written as well as not
  write_nothing : (t : Tables) → written [] [] t ≡ t
  unfolding upsert_all prepare_rollup_models merge_rollups merge_into insert_event_models
      prepare_event_models
  write_nothing t = refl

  finish_effect :
      (refused : Bool) (tx : Tx) (t' t : Tables)
      → (finish tx (if refused then none else some t') t).0
        ≡ (if took_effect tx && not refused then t' else t)
  unfolding finish
  finish_effect true commits t' t = refl
  finish_effect true rolled_back t' t = refl
  finish_effect true unacknowledged t' t = refl
  finish_effect false commits t' t = refl
  finish_effect false rolled_back t' t = refl
  finish_effect false unacknowledged t' t = refl

  run_effect :
      (tx : Tx) (es : List Draft) (rs : List (MetricRollup × Time)) (t : Tables)
      → (run_in_tx tx (write_batch dialect print es rs) t).0
        ≡ (if is_written tx rs then written es rs t else t)
  unfolding run_in_tx write_batch upsert_rollup_models
  run_effect tx es rs t =
      finish_effect (refuses dialect (prepare_rollup_models print rs)) tx (written es rs t) t

  pub append_effect :
      (tx : Tx) (es : List Draft) (rs : List (MetricRollup × Time)) (t : Tables)
      → (append_audit_batch dialect print tx es rs t).0
        ≡ (if is_written tx rs then written es rs t else t)
  unfolding append_audit_batch
  append_effect tx [] [] t = rw (write_nothing t) (same (is_written tx []))
    where
      same : (b : Bool) → t ≡ (if b then t else t)
      same true = refl
      same false = refl
  append_effect tx [] (r ∷ rs) t = run_effect tx [] (r ∷ rs) t
  append_effect tx (e ∷ es) rs t = run_effect tx (e ∷ es) rs t

  finish_told :
      (refused : Bool) (tx : Tx) (t' t : Tables)
      → (finish tx (if refused then none else some t') t).1 ≡ (acknowledged tx && not refused)
  unfolding finish
  finish_told true commits t' t = refl
  finish_told true rolled_back t' t = refl
  finish_told true unacknowledged t' t = refl
  finish_told false commits t' t = refl
  finish_told false rolled_back t' t = refl
  finish_told false unacknowledged t' t = refl

  -- what the caller is told of a batch that is not empty
  pub append_told :
      (tx : Tx) (es : List Draft) (rs : List (MetricRollup × Time)) (t : Tables)
      → (is_empty es && is_empty rs) ≡ false
      → (append_audit_batch dialect print tx es rs t).1
        ≡ (acknowledged tx && not (refuses dialect (prepare_rollup_models print rs)))
  unfolding append_audit_batch run_in_tx write_batch upsert_rollup_models
  append_told tx es rs t h =
      rw h (finish_told (refuses dialect (prepare_rollup_models print rs)) tx (written es rs t) t)

  pub acknowledged-is_written :
      (tx : Tx) (rs : List (MetricRollup × Time))
      → (acknowledged tx && not (refuses dialect (prepare_rollup_models print rs))) ≡ true
      → is_written tx rs ≡ true
  acknowledged-is_written commits rs h = h
  acknowledged-is_written rolled_back rs h = cc
  acknowledged-is_written unacknowledged rs h = cc

  -- a batch whose events are there
  write_again :
      (es : List Draft) (rs : List (MetricRollup × Time)) (t : Tables)
      → All (Holds t.events) (model_ids (prepare_event_models es))
      → ((written es rs t).events ≡ t.events)
        × (sum_counts (written es rs t).rollups
            ≡ sum_counts t.rollups + sum_counts (prepare_rollup_models print rs))
  write_again es rs t h =
      rw (insert_again (prepare_event_models es) t h)
        (refl, upsert_all-sum (prepare_rollup_models print rs) t.rollups)

  -- A batch that was written, acknowledged or not, and is written again, with whatever outcome: the rows
  -- of its events stay as they are, each there once, while the rollups that come with it are counted
  -- once more if the second transaction takes effect too and, in PostgreSQL, no two of its rollups have
  -- one key. The first had no such two either, and the events have their ids, which the recorder gives
  -- them.
  pub append_replayed :
      (tx tx' : Tx) (es es' : List Draft) (rs rs' : List (MetricRollup × Time)) (t : Tables)
      → is_written tx rs ≡ true
      → draft_ids es' ≡ draft_ids es
      → All HasId (draft_ids es)
      → let t1 = (append_audit_batch dialect print tx es rs t).0 in
        let t2 = (append_audit_batch dialect print tx' es' rs' t1).0 in
        (t2.events ≡ t1.events)
        × (sum_counts t2.rollups
            ≡ sum_counts t1.rollups
              + (if is_written tx' rs' then sum_counts (prepare_rollup_models print rs') else 0))
  append_replayed tx tx' es es' rs rs' t effect same ids =
      let t1 = written es rs t in
      let ids' = subst (All HasId) (sym same) ids in
      let models = prepared_ids es ids ∙ (sym same ∙ sym (prepared_ids es' ids')) in
      let there =
        subst (All (Holds t1.events)) models
          (insert_event_models-Holds (prepare_event_models es) t) in
      rw (append_effect tx es rs t) (
        rw effect (
          rw (append_effect tx' es' rs' t1) (elim (Bool-cases (is_written tx' rs')) [
            | inl k ↦ rw k (write_again es' rs' t1 there)
            | inr k ↦ rw k (refl, omega arith)
          ])))

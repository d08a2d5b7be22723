-- ===== src/Store/Tables/Sound.antt =====
-- internal/audit/storage/bunrepo/repository.go: the rows of the audit trail keep their order and their
-- ids.
use turnstile_appcheck_gatew.Prelude.{
  ℕ, ◌≤◌, ◌<◌, String, Bool, true, false, ◌&&◌, List, [], ◌∷◌, keep_if, is_empty, Option, none,
  some, if◌then◌else◌, ◌≡◌, refl, arith, Bool-cases, inl, inr, pos, leb_ℤ, ◌-◌, ◌*◌,
}
use turnstile_appcheck_gatew.Audit.Event.{Time, Event, MetricRollup, minute}
use turnstile_appcheck_gatew.Prelude.Int.{pos_part}
use turnstile_appcheck_gatew.Store.Rollups.{prepare_rollup_models}
use turnstile_appcheck_gatew.Store.Tables.{
  Tables, Tx, commits, rolled_back, unacknowledged, Dialect, refuses, upsert_all, finish, run_in_tx,
  has_id, insert_event, insert_event_models, prepare_event_models, upsert_rollup_models,
  append_batch, append_metric_rollups, append_audit_batch, write_batch, write_reset, reset,
  write_prune, prune_retention, Write, events_only, rollups_only, batch, reset_to, prune, apply,
  run,
}

-- The sequence numbers fall from `n` and are positive, and no id stands twice.
abbrev pub IsSequence : ℕ → List Event → Type 0
IsSequence n [] = Unit
IsSequence n (e ∷ es) = (e.seq < n) × (0 < e.seq) × (has_id e.id es ≡ false) × IsSequence e.seq es

abbrev pub IsSound : Tables → Type 0
IsSound t = (0 < t.next_seq) × IsSequence t.next_seq t.events

IsSequence-le : (m n : ℕ) (rows : List Event) → m ≤ n → IsSequence m rows → IsSequence n rows
IsSequence-le m n [] h s = tt
IsSequence-le m n (e ∷ es) h (a, b, c, d) = (omega arith, b, c, d)

has_id-keep_if :
    (p : Event → Bool) (id : String) (rows : List Event)
    → has_id id rows ≡ false
    → has_id id (keep_if p rows) ≡ false
has_id-keep_if p id [] h = refl
has_id-keep_if p id (e ∷ es) h = ground (arith, has_id-keep_if p id es)

keep_if-IsSequence :
    (p : Event → Bool) (n : ℕ) (rows : List Event)
    → IsSequence n rows
    → IsSequence n (keep_if p rows)
keep_if-IsSequence p n [] s = tt
keep_if-IsSequence p n (e ∷ es) (a, b, c, d) = elim (Bool-cases (p e)) [
  | inl k ↦ rw k (a, b, has_id-keep_if p e.id es c, keep_if-IsSequence p e.seq es d)
  | inr k ↦ rw k (keep_if-IsSequence p n es (IsSequence-le e.seq n es (omega arith) d))
]

insert_event-IsSound : (e : Event) (t : Tables) → IsSound t → IsSound (insert_event e t)
unfolding insert_event
insert_event-IsSound e t s = elim (Bool-cases (has_id e.id t.events)) [
  | inl k ↦ rw k s
  | inr k ↦ rw k (omega arith, (omega arith, s.0, k, s.1))
]

insert_event_models-IsSound :
    (es : List Event) (t : Tables) → IsSound t → IsSound (insert_event_models es t)
unfolding insert_event_models
insert_event_models-IsSound [] t s = s
insert_event_models-IsSound (e ∷ es) t s =
    insert_event_models-IsSound es (insert_event e t) (insert_event-IsSound e t s)

-- what the statements of a transaction leave, if they do not fail
abbrev SoundIf : Option Tables → Type 0
SoundIf none = Unit
SoundIf (some t) = IsSound t

finish-IsSound :
    (tx : Tx) (done : Option Tables) (t : Tables)
    → SoundIf done
    → IsSound t
    → IsSound (finish tx done t).0
unfolding finish
finish-IsSound commits none t s' s = s
finish-IsSound rolled_back none t s' s = s
finish-IsSound unacknowledged none t s' s = s
finish-IsSound commits (some t') t s' s = s'
finish-IsSound rolled_back (some t') t s' s = s
finish-IsSound unacknowledged (some t') t s' s = s'

upsert_rollup_models-SoundIf :
    (dialect : Dialect) (models : List MetricRollup) (t : Tables)
    → IsSound t
    → SoundIf (upsert_rollup_models dialect models t)
unfolding upsert_rollup_models
upsert_rollup_models-SoundIf dialect models t s = unless_refused (refuses dialect models)
  where
    unless_refused :
        (b : Bool)
        → SoundIf (if b then none else some (record t { rollups = upsert_all models t.rollups }))
    unless_refused true = tt
    unless_refused false = s

run_in_tx-IsSound :
    (tx : Tx) (body : Tables → Option Tables) (t : Tables)
    → IsSound t
    → SoundIf (body t)
    → IsSound (run_in_tx tx body t).0
unfolding run_in_tx
run_in_tx-IsSound tx body t s b = finish-IsSound tx (body t) t b s

-- a write that a test leaves out
unless-IsSound :
    (skip : Bool) (tx : Tx) (body : Tables → Option Tables) (t : Tables)
    → IsSound t
    → SoundIf (body t)
    → IsSound (if skip then (t, true) else run_in_tx tx body t).0
unless-IsSound true tx body t s k = s
unless-IsSound false tx body t s k = run_in_tx-IsSound tx body t s k

apply-IsSound :
    (dialect : Dialect) (print : Time → String) (tx : Tx) (w : Write) (t : Tables)
    → IsSound t
    → IsSound (apply dialect print tx w t).0
unfolding apply append_batch append_metric_rollups append_audit_batch write_batch reset write_reset
    prune_retention write_prune
apply-IsSound dialect print tx (events_only es) t s =
    unless-IsSound (is_empty es) tx (λ u. some (insert_event_models (prepare_event_models es) u)) t
      s (insert_event_models-IsSound (prepare_event_models es) t s)
apply-IsSound dialect print tx (rollups_only rs) t s =
    let models = prepare_rollup_models print rs in
    unless-IsSound (is_empty models) tx (upsert_rollup_models dialect models) t s
      (upsert_rollup_models-SoundIf dialect models t s)
apply-IsSound dialect print tx (batch es rs) t s =
    unless-IsSound (is_empty es && is_empty rs) tx (write_batch dialect print es rs) t s (
      upsert_rollup_models-SoundIf dialect (prepare_rollup_models print rs)
        (insert_event_models (prepare_event_models es) t)
        (insert_event_models-IsSound (prepare_event_models es) t s))
apply-IsSound dialect print tx (reset_to marker) t s =
    run_in_tx-IsSound tx (λ u. some (write_reset marker u)) t s
      (insert_event_models-IsSound (prepare_event_models (marker ∷ []))
        (record t { events = []; rollups = [] }) (s.0, tt))
apply-IsSound dialect print tx (prune days now) t s =
    unless-IsSound (leb_ℤ days (pos 0)) tx
      (λ u. some (write_prune (now - pos_part days * 24 * 60 * minute) u)) t s
      (s.0, keep_if-IsSequence _ t.next_seq t.events s.1)

-- Whatever the repository writes, in whatever order, and whichever of the transactions fail or are not
-- acknowledged, in each of the dialects: no id stands twice, and the sequence numbers are positive and rise in the order in which
-- the rows came.
pub run-IsSound :
    (dialect : Dialect) (print : Time → String) (writes : List (Tx × Write)) (t : Tables)
    → IsSound t
    → IsSound (run dialect print writes t)
unfolding run
run-IsSound dialect print [] t s = s
run-IsSound dialect print ((tx, w) ∷ more) t s =
    run-IsSound dialect print more (apply dialect print tx w t).0
      (apply-IsSound dialect print tx w t s)

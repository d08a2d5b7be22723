-- ===== src/Store/Tables.antt =====
-- internal/audit/storage/bunrepo/repository.go: the two tables and the transactions that write them. The
-- statements are those of SQL; what becomes of a transaction is chosen by the database.
pub mod Sound
pub mod Replay
use turnstile_appcheck_gatew.Prelude.{
  ℕ, suc, ◌+◌, ◌-◌, ◌*◌, String, Bool, true, false, not, ◌&&◌, ◌||◌, List, [], ◌∷◌, Option, none,
  some, any, keep_if, is_empty, ◌==◌, if◌then◌else◌, ltb, eqb, ℤ, pos, leb_ℤ,
}
use turnstile_appcheck_gatew.Prelude.Int.{pos_part}
use turnstile_appcheck_gatew.Audit.Event.{
  Time, Event, MetricRollup, minute, prepare_event, truncate,
}
use turnstile_appcheck_gatew.Store.Rollups.{prepare_rollup_models}

-- The rows, the latest first; `next_seq` is the next value of the sequence. The gaps that some databases
-- leave in it are not shown.
pub record Tables : Type 0 where
  pub events : List Event
  pub rollups : List MetricRollup
  pub next_seq : ℕ

-- What becomes of a transaction: it commits, or it fails and is rolled back, or it commits and the
-- caller, whose connection is lost, is told that it failed.
pub data Tx : Type 0 where
  commits : Tx
  rolled_back : Tx
  unacknowledged : Tx

abbrev pub took_effect : Tx → Bool
took_effect commits = true
took_effect rolled_back = false
took_effect unacknowledged = true

abbrev pub acknowledged : Tx → Bool
acknowledged commits = true
acknowledged rolled_back = false
acknowledged unacknowledged = false

-- the dialects of dialect.go
pub data Dialect : Type 0 where
  sqlite postgres mysql : Dialect

-- what becomes of a transaction on `t` whose statements fail or lead to `t'`, with what the caller is
-- told
unfoldable pub finish : Tx → Option Tables → Tables → Tables × Bool
finish tx none t = (t, false)
finish commits (some t') t = (t', true)
finish rolled_back (some t') t = (t, false)
finish unacknowledged (some t') t = (t', false)

-- db.RunInTx; a body that fails is rolled back, and its error is returned
unfoldable pub run_in_tx : Tx → (Tables → Option Tables) → Tables → Tables × Bool
unfolding finish
run_in_tx tx body t = finish tx (body t) t

-- toEventModel, with the metadata as they are
unfoldable pub to_event_model : Event → Event
to_event_model e = record e {
  user_agent = truncate e.user_agent 512;
  message = truncate e.message 512;
}

-- prepareEventModels, with the time and the random id that PrepareEvent reads for each event
unfoldable pub prepare_event_models : List (Event × Time × String) → List Event
unfolding to_event_model
prepare_event_models [] = []
prepare_event_models ((e, now, random) ∷ more) =
    to_event_model (prepare_event now random e) ∷ prepare_event_models more

abbrev pub has_id : String → List Event → Bool
has_id id rows = any (λ (e : Event). e.id == id) rows

-- a row of `INSERT … ON CONFLICT (id) DO NOTHING`
unfoldable pub insert_event : Event → Tables → Tables
insert_event e t =
    if has_id e.id t.events
    then t
    else record t { events = record e { seq = t.next_seq } ∷ t.events; next_seq = suc t.next_seq }

unfoldable pub insert_event_models : List Event → Tables → Tables
unfolding insert_event
insert_event_models [] t = t
insert_event_models (e ∷ es) t = insert_event_models es (insert_event e t)

-- the primary key of the rollups
same_rollup : MetricRollup → MetricRollup → Bool
same_rollup r q =
    eqb r.bucket_start q.bucket_start
    && (eqb r.bucket_size q.bucket_size
        && ((r.endpoint == q.endpoint)
            && ((r.method == q.method)
                && ((r.action == q.action)
                    && ((r.result == q.result)
                        && ((r.status_class == q.status_class)
                            && eqb r.status_code q.status_code))))))

-- a row of `INSERT … ON CONFLICT … DO UPDATE SET count = count + excluded.count`
unfoldable pub upsert_rollup : MetricRollup → List MetricRollup → List MetricRollup
unfolding same_rollup
upsert_rollup r [] = r ∷ []
upsert_rollup r (q ∷ rows) =
    let rest = upsert_rollup r rows in
    if same_rollup r q then record q { count = q.count + r.count } ∷ rows else q ∷ rest

unfoldable pub upsert_all : List MetricRollup → List MetricRollup → List MetricRollup
unfolding upsert_rollup
upsert_all [] rows = rows
upsert_all (r ∷ rs) rows = upsert_all rs (upsert_rollup r rows)

-- two rows with one key
unfoldable pub repeats_key : List MetricRollup → Bool
unfolding same_rollup
repeats_key [] = false
repeats_key (r ∷ rs) = let rest = repeats_key rs in any (same_rollup r) rs || rest

-- PostgreSQL refuses a statement that would update a row twice.
unfoldable pub refuses : Dialect → List MetricRollup → Bool
unfolding repeats_key
refuses sqlite models = false
refuses postgres models = repeats_key models
refuses mysql models = false

-- upsertRollupModels: one statement for all the rows, which is nothing if it fails
unfoldable pub upsert_rollup_models : Dialect → List MetricRollup → Tables → Option Tables
unfolding upsert_all
upsert_rollup_models dialect models t =
    if refuses dialect models
    then none
    else some (record t { rollups = upsert_all models t.rollups })

abbrev pub Draft : Type 0
Draft = Event × Time × String

unfoldable pub append_batch : Tx → List Draft → Tables → Tables × Bool
unfolding run_in_tx insert_event_models prepare_event_models
append_batch tx events t =
    if is_empty events
    then (t, true)
    else run_in_tx tx (λ u. some (insert_event_models (prepare_event_models events) u)) t

module _ (dialect : Dialect) (print : Time → String) where
  unfoldable pub append_metric_rollups : Tx → List (MetricRollup × Time) → Tables → Tables × Bool
  unfolding run_in_tx upsert_rollup_models
  append_metric_rollups tx rollups t =
      let models = prepare_rollup_models print rollups in
      if is_empty models then (t, true) else run_in_tx tx (upsert_rollup_models dialect models) t

  -- the body of the transaction of AppendAuditBatch
  unfoldable pub write_batch : List Draft → List (MetricRollup × Time) → Tables → Option Tables
  unfolding insert_event_models prepare_event_models upsert_rollup_models
  write_batch events rollups t =
      upsert_rollup_models dialect (prepare_rollup_models print rollups)
        (insert_event_models (prepare_event_models events) t)

  unfoldable pub append_audit_batch :
      Tx → List Draft → List (MetricRollup × Time) → Tables → Tables × Bool
  unfolding run_in_tx write_batch
  append_audit_batch tx events rollups t =
      if is_empty events && is_empty rollups
      then (t, true)
      else run_in_tx tx (write_batch events rollups) t

-- Repository.Get
unfoldable pub get : String → List Event → Option Event
get id [] = none
get id (e ∷ rows) = if e.id == id then some e else get id rows

-- the body of the transaction of Reset; in a table without rows the marker's id is not taken
unfoldable pub write_reset : Draft → Tables → Tables
unfolding prepare_event_models
write_reset marker t =
    insert_event_models (prepare_event_models (marker ∷ []))
      (record t { events = []; rollups = [] })

unfoldable pub reset : Tx → Draft → Tables → Tables × Bool
unfolding run_in_tx write_reset
reset tx marker t = run_in_tx tx (λ u. some (write_reset marker u)) t

-- the body of the transaction of PruneRetention
unfoldable pub write_prune : Time → Tables → Tables
write_prune cutoff t = record t {
  events = keep_if (λ (e : Event). not (ltb e.timestamp cutoff)) t.events;
  rollups = keep_if (λ (r : MetricRollup). not (ltb r.bucket_start cutoff)) t.rollups;
}

-- PruneRetention; days are of 24 hours, as `now` is in UTC
unfoldable pub prune_retention : Tx → ℤ → Time → Tables → Tables × Bool
unfolding run_in_tx write_prune
prune_retention tx days now t =
    if leb_ℤ days (pos 0)
    then (t, true)
    else run_in_tx tx (λ u. some (write_prune (now - pos_part days * 24 * 60 * minute) u)) t

-- a write of the repository
pub data Write : Type 0 where
  events_only : List Draft → Write
  rollups_only : List (MetricRollup × Time) → Write
  batch : List Draft → List (MetricRollup × Time) → Write
  reset_to : Draft → Write
  prune : ℤ → Time → Write

unfoldable pub apply : Dialect → (Time → String) → Tx → Write → Tables → Tables × Bool
unfolding append_batch append_metric_rollups append_audit_batch reset prune_retention
apply dialect print tx (events_only es) t = append_batch tx es t
apply dialect print tx (rollups_only rs) t = append_metric_rollups dialect print tx rs t
apply dialect print tx (batch es rs) t = append_audit_batch dialect print tx es rs t
apply dialect print tx (reset_to marker) t = reset tx marker t
apply dialect print tx (prune days now) t = prune_retention tx days now t

-- the tables after a sequence of writes
unfoldable pub run : Dialect → (Time → String) → List (Tx × Write) → Tables → Tables
unfolding apply
run dialect print [] t = t
run dialect print ((tx, w) ∷ more) t = run dialect print more (apply dialect print tx w t).0

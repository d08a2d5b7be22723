-- ===== src/Audit/Recorder/Async/Erased.antt =====
-- internal/audit/recorder.go: the log of what a repository has acknowledged only watches. Without it, the
-- asynchronous recorder does the same.
use turnstile_appcheck_gatew.Prelude.{
  ℕ, zero, suc, ◌+◌, Bool, true, false, not, ◌&&◌, List, [], ◌∷◌, Option, none, some, is_empty, eqb,
  ltb, leb, length, ℤ, if◌then◌else◌, ◌≡◌, refl, ap, ap₂, ◌∙◌, Bool-cases, inl, inr,
}
use turnstile_appcheck_gatew.Prelude.Int.{pos_part}
use turnstile_appcheck_gatew.Audit.Event.{Event, MetricRollup, prepare_event}
use turnstile_appcheck_gatew.Audit.Policy.{PolicyConfig, decide}
use turnstile_appcheck_gatew.Audit.Recorder.{
  Repository, RecorderStats, Flushed, flush_once, retry_from, next_backoff, settle, AsyncConfig,
  flush_with_retry, count_retry,
}
use turnstile_appcheck_gatew.Audit.Recorder.Async.{
  AsyncItem, AsyncRecorder, Draws, is_critical, Action, submit, send, resume, receive,
  flush_request, tick, shut_down, close, Wait, sent, context_done, timed_out, item_at, without,
  enqueue, record_event, resume_with, add, drain_from, flush, never, receive_item, shut_down_with,
  act, run,
}
use turnstile_appcheck_gatew.Audit.Recorder.Async.Log.{Logged, log_append, log_atomic, logged}

abbrev unlogged : {S : Type 0} → Flushed (Logged S) → Flushed S
unlogged f = record { store = f.store.store; stats = f.stats; ok = f.ok; waits = f.waits }

-- the recorder without the log
abbrev pub erase : {S : Type 0} → AsyncRecorder (Logged S) → AsyncRecorder S
erase r = record {
  items = r.items;
  pending = r.pending;
  blocked = r.blocked;
  events = r.events;
  rollups = r.rollups;
  closed = r.closed;
  running = r.running;
  result = r.result;
  stats = r.stats;
  store = r.store.store;
}

settle-unlogged :
    {S : Type 0} (last cancelled : Bool) (backoff : ℤ) (once more : Flushed (Logged S))
    → unlogged (settle last cancelled backoff once more)
      ≡ settle last cancelled backoff (unlogged once) (unlogged more)
unfolding settle
settle-unlogged last cancelled backoff once more = elim (Bool-cases once.ok) [
  | inl e ↦ rw e refl
  | inr e ↦ rw e (failed last cancelled)
]
  where
    failed :
        (last cancelled : Bool)
        → unlogged (settle last cancelled backoff (record once { ok = false }) more)
          ≡ settle last cancelled backoff (record (unlogged once) { ok = false }) (unlogged more)
    failed true cancelled = refl
    failed false true = refl
    failed false false = refl

module _ {S : Type 0} (repo : Repository S) (append : List Event → List MetricRollup → S → S × Bool)
    (atomic : repo.atomic ≡ some append) where
  once-unlogged :
      (es : List Event) (rs : List MetricRollup) (l : Logged S) (stats : RecorderStats)
      → unlogged (flush_once (logged repo) es rs l stats) ≡ flush_once repo es rs l.store stats
  unfolding flush_once logged log_atomic log_append
  once-unlogged es rs l stats = rw atomic refl

  retry-unlogged :
      (es : List Event) (rs : List MetricRollup) (cancelled : ℕ → Bool) (max : ℤ) (left n : ℕ)
      (backoff : ℤ) (l : Logged S) (stats : RecorderStats)
      → unlogged (retry_from (logged repo) es rs cancelled max left n backoff l stats)
        ≡ retry_from repo es rs cancelled max left n backoff l.store stats
  unfolding retry_from
  retry-unlogged es rs cancelled max zero n backoff l stats = refl
  retry-unlogged es rs cancelled max (suc left) n backoff l stats =
      let same = once-unlogged es rs l stats in
      let once = flush_once (logged repo) es rs l stats in
      let rest =
        retry-unlogged es rs cancelled max left (n + 1) (next_backoff backoff max) once.store
          (count_retry once.stats) in
      settle-unlogged (eqb left 0) (cancelled n) backoff once _
      ∙ ap₂ (settle (eqb left 0) (cancelled n) backoff) same (
          rest
          ∙ ap
              (λ (f : Flushed S).
                retry_from repo es rs cancelled max left (n + 1) (next_backoff backoff max) f.store
                  (count_retry f.stats))
              same)

  module _ (policy : Option PolicyConfig) (cfg : AsyncConfig) where
    after_flush : (r : AsyncRecorder S) → Flushed S → AsyncRecorder S × Bool
    after_flush r f =
        if f.ok
        then (record r { events = []; rollups = []; store = f.store; stats = f.stats }, true)
        else (record r { store = f.store; stats = f.stats }, false)

    abbrev erased : AsyncRecorder (Logged S) × Bool → AsyncRecorder S × Bool
    erased (r, ok) = (erase r, ok)

    pushed :
        (r : AsyncRecorder (Logged S)) (f : Flushed (Logged S))
        → erased (
            if◌then◌else◌ {A = AsyncRecorder (Logged S) × Bool} f.ok
              (record r { events = []; rollups = []; store = f.store; stats = f.stats }, true)
              (record r { store = f.store; stats = f.stats }, false))
          ≡ after_flush (erase r) (unlogged f)
    unfolding after_flush
    pushed r f = elim (Bool-cases f.ok) [ inl e ↦ rw e refl | inr e ↦ rw e refl ]

    flush-erase :
        (cancelled : ℕ → Bool) (r : AsyncRecorder (Logged S))
        → erased (flush (logged repo) policy cfg cancelled r)
          ≡ flush repo policy cfg cancelled (erase r)
    unfolding flush flush_with_retry after_flush
    flush-erase cancelled r =
        let f =
          retry_from (logged repo) r.events r.rollups cancelled cfg.retry_max_backoff
            (pos_part cfg.retry_max_attempts) 1 cfg.retry_initial_backoff r.store r.stats in
        elim (Bool-cases (is_empty r.events && is_empty r.rollups)) [
          | inl e ↦ rw e refl
          | inr e ↦ rw e (
              pushed r f
              ∙ ap (after_flush (erase r)) (
                  retry-unlogged r.events r.rollups cancelled cfg.retry_max_backoff
                    (pos_part cfg.retry_max_attempts) 1 cfg.retry_initial_backoff r.store r.stats))
        ]

    if-erase :
        (b : Bool) (r r' : AsyncRecorder (Logged S)) (q q' : AsyncRecorder S)
        → erase r ≡ q
        → erase r' ≡ q'
        → erase (if b then r else r') ≡ (if b then q else q')
    if-erase true r r' q q' h k = h
    if-erase false r r' q q' h k = k

    drain_from-erase :
        (is : List AsyncItem) (r : AsyncRecorder (Logged S))
        → erase (drain_from (logged repo) policy cfg is r) ≡ drain_from repo policy cfg is (erase r)
    unfolding drain_from add
    drain_from-erase [] r = refl
    drain_from-erase (i ∷ is) r = drain_from-erase is (add (logged repo) policy cfg i r)

    flush_drained-erase :
        (cancelled : ℕ → Bool) (r : AsyncRecorder (Logged S))
        → erased (
            flush
              (logged repo)
              policy
              cfg
              cancelled
              (drain_from (logged repo) policy cfg r.items r))
          ≡ flush repo policy cfg cancelled (drain_from repo policy cfg r.items (erase r))
    flush_drained-erase cancelled r =
        flush-erase cancelled (drain_from (logged repo) policy cfg r.items r)
        ∙ ap (flush repo policy cfg cancelled) (drain_from-erase r.items r)

    submit-erase :
        (event : Event) (draws : Draws) (r : AsyncRecorder (Logged S))
        → erase (record_event (logged repo) policy cfg event draws r)
          ≡ record_event repo policy cfg event draws (erase r)
    unfolding record_event
    submit-erase event draws r =
        let e = prepare_event draws.now draws.id event in
        let d = decide policy draws.draw e in
        if-erase r.closed r _ (erase r) _ refl
          (if-erase (not d.persist && not d.count_metric) _ _ _ _ refl refl)

    enqueue-erase :
        (i : AsyncItem) (r : AsyncRecorder (Logged S))
        → erase (enqueue (logged repo) policy cfg i r) ≡ enqueue repo policy cfg i (erase r)
    unfolding enqueue
    enqueue-erase i r =
        if-erase (ltb (length r.items) (pos_part cfg.channel_size)) _ _ _ _ refl
          (if-erase (not (is_critical i.priority) && cfg.drop_on_full) _ _ _ _ refl refl)

    send-erase :
        (n : ℕ) (r : AsyncRecorder (Logged S)) (found : Option AsyncItem)
        → erase (elim found [
          | none ↦ r
          | some i ↦ enqueue (logged repo) policy cfg i (record r { pending = without n r.pending })
        ])
          ≡ (elim found [
            | none ↦ erase r
            | some i ↦
                enqueue repo policy cfg i (record (erase r) { pending = without n r.pending })
          ])
    send-erase n r none = refl
    send-erase n r (some i) = enqueue-erase i (record r { pending = without n r.pending })

    resume-erase :
        (n : ℕ) (wait : Wait) (r : AsyncRecorder (Logged S)) (found : Option AsyncItem)
        → erase (elim found [
          | none ↦ r
          | some i ↦ resume_with (logged repo) policy cfg wait i (without n r.blocked) r
        ])
          ≡ (elim found [
            | none ↦ erase r
            | some i ↦ resume_with repo policy cfg wait i (without n r.blocked) (erase r)
          ])
    unfolding resume_with
    resume-erase n wait r none = refl
    resume-erase n sent r (some i) =
        if-erase (ltb (length r.items) (pos_part cfg.channel_size)) _ r _ (erase r) refl refl
    resume-erase n context_done r (some i) = refl
    resume-erase n timed_out r (some i) = refl

    receive-erase :
        (l : List AsyncItem) (r : AsyncRecorder (Logged S))
        → erase (elim l [ [] ↦ r | i ∷ rest ↦ receive_item (logged repo) policy cfg i rest r ])
          ≡ (elim l [ [] ↦ erase r | i ∷ rest ↦ receive_item repo policy cfg i rest (erase r) ])
    unfolding receive_item add
    receive-erase [] r = refl
    receive-erase (i ∷ rest) r =
        let taken = add (logged repo) policy cfg i (record r { items = rest }) in
        if-erase (leb (pos_part cfg.batch_size) (length taken.events + length taken.rollups)) _
          taken _ (erase taken)
          (ap (λ (p : AsyncRecorder S × Bool). p.0)
            (flush-erase (never (logged repo) policy cfg) taken))
          refl

    shut_down-erase :
        (cancelled : ℕ → Bool) (r : AsyncRecorder (Logged S))
        → erase (shut_down_with (logged repo) policy cfg cancelled r)
          ≡ shut_down_with repo policy cfg cancelled (erase r)
    unfolding shut_down_with
    shut_down-erase cancelled r =
        ap (λ (p : AsyncRecorder S × Bool). record (p.0) { running = false; result = some p.1 })
          (flush_drained-erase cancelled r)

    act-erase :
        (a : Action) (r : AsyncRecorder (Logged S))
        → erase (act (logged repo) policy cfg a r) ≡ act repo policy cfg a (erase r)
    unfolding act
    act-erase (submit event draws) r = submit-erase event draws r
    act-erase (send n) r = send-erase n r (item_at n r.pending)
    act-erase (resume n wait) r = resume-erase n wait r (item_at n r.blocked)
    act-erase receive r = if-erase r.running _ r _ (erase r) (receive-erase r.items r) refl
    act-erase flush_request r =
        if-erase r.running _ r _ (erase r)
          (ap (λ (p : AsyncRecorder S × Bool). p.0)
            (flush_drained-erase (never (logged repo) policy cfg) r))
          refl
    act-erase tick r =
        if-erase r.running _ r _ (erase r)
          (ap (λ (p : AsyncRecorder S × Bool). p.0)
            (flush-erase (never (logged repo) policy cfg) r))
          refl
    act-erase (shut_down cancelled) r =
        if-erase (r.running && r.closed) _ r _ (erase r) (shut_down-erase cancelled r) refl
    act-erase close r = refl

    -- The recorder over any atomic repository does the same with the log of what was acknowledged as
    -- without it: its channel, its producers, its batch, its counters, its end and its store.
    pub run-erase :
        (actions : List Action) (r : AsyncRecorder (Logged S))
        → erase (run (logged repo) policy cfg actions r) ≡ run repo policy cfg actions (erase r)
    unfolding run
    run-erase [] r = refl
    run-erase (a ∷ more) r =
        run-erase more (act (logged repo) policy cfg a r)
        ∙ ap (run repo policy cfg more) (act-erase a r)

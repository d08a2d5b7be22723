-- ===== src/Middleware/RateLimit/Window.antt =====
-- The limiter implements a fixed window for each key: dropping old entries is never seen.
use turnstile_appcheck_gatew.Prelude.{
  ℕ, ◌+◌, ◌*◌, ◌^◌, ◌≤◌, ◌<◌, String, Bool, true, false, List, [], ◌∷◌, Option, none, some,
  if◌then◌else◌, leb, ◌≡◌, refl, ◌⊎◌, inl, inr, arith, ◌==◌, eq_iff, Bool-cases, ap₂, ◌∙◌, ap,
}
use turnstile_appcheck_gatew.Prelude.Int.{wrap_64_small}
use turnstile_appcheck_gatew.Dict.{
  Dict, lookup, insert, HasUniqueKeys, insert-HasUniqueKeys, retain-HasUniqueKeys, lookup-insert,
  lookup-retain, only_if,
}
use turnstile_appcheck_gatew.Audit.Event.{Time}
use turnstile_appcheck_gatew.Middleware.RateLimit.{
  RateEntry, zero_entry, FixedWindowLimiter, or_zero, entry_at, is_over, is_recent, prune_locked,
  allow,
}

-- The specification: an entry for every key, forever.
abbrev pub Windows : Type 0
Windows = String → RateEntry

unfoldable pub put : Windows → String → RateEntry → Windows
put ws key e k = if key == k then e else ws k

-- one call: a window that is over begins anew; within a window at most `max` calls are allowed
unfoldable pub admit : ℕ → ℕ → Time → RateEntry → RateEntry × Bool
admit window max now e =
    if is_over window now e
    then (record { window_start = now; count = 1 }, true)
    else if leb max e.count
    then (e, false)
    else (record e { count = e.count + 1 }, true)

-- a sequence of calls, each with its key and the time that it read
abbrev pub Calls : Type 0
Calls = List (String × Time)

unfoldable pub answers : FixedWindowLimiter → ℕ → Calls → List Bool
answers l max [] = []
answers l max ((key, now) ∷ cs) = let (l', b) = allow l key max now in b ∷ answers l' max cs

unfoldable pub spec_answers : ℕ → ℕ → Windows → Calls → List Bool
spec_answers window max ws [] = []
spec_answers window max ws ((key, now) ∷ cs) =
    let (e, b) = admit window max now (ws key) in b ∷ spec_answers window max (put ws key e) cs

-- times do not go back, from `t` on
abbrev pub IsOrdered : Time → Calls → Type 0
IsOrdered t [] = Unit
IsOrdered t ((key, now) ∷ cs) = (t ≤ now) × IsOrdered now cs

-- Seen at any time from `t` on, the limiter's entry is that of the specification, or both are over.
record Agrees (window : ℕ) (t : Time) (e s : RateEntry) : Type 0 where
  same : (e ≡ s) ⊎ ((e ≡ zero_entry) × (s.window_start + window ≤ t))

-- the state of the limiter stands for the specification's
record Simulates (t : Time) (l : FixedWindowLimiter) (ws : Windows) : Type 0 where
  unique : HasUniqueKeys l.entries
  agrees : (k : String) → Agrees l.window t (entry_at l k) (ws k)

Agrees-later :
    {window : ℕ} (t u : Time) {e s : RateEntry} → t ≤ u → Agrees window t e s → Agrees window u e s
Agrees-later t u h a = record { same = ground (arith, a.same) }

-- pruning at a time `now`
Agrees-prune :
    (window now : ℕ) (o : Option RateEntry) (s : RateEntry)
    → 2 * window < 2 ^ 63
    → Agrees window now (or_zero o) s
    → Agrees window now (or_zero (only_if (is_recent window now) o)) s
unfolding is_recent
Agrees-prune window now none s fits a = a
Agrees-prune window now (some e) s fits a = record {
  same = rw (wrap_64_small (2 * window) fits) (ground (arith, a.same));
}

admit-Agrees :
    (window max now : ℕ) (e s : RateEntry)
    → Agrees window now e s
    → is_over window now e ≡ is_over window now s
unfolding is_over
admit-Agrees window max now e s a = ground (arith, a.same)

within_same :
    {window now : ℕ} (e s : RateEntry)
    → Agrees window now e s
    → is_over window now s ≡ false
    → e ≡ s
unfolding is_over
within_same e s a h = ground (arith, a.same)

Agrees-insert :
    (window now : ℕ) (key k : String) (f : RateEntry) (m : Dict RateEntry) (ws : Windows)
    → Agrees window now (or_zero (lookup k m)) (ws k)
    → Agrees window now (or_zero (lookup k (insert key f m))) (put ws key f k)
unfolding put
Agrees-insert window now key k f m ws a = elim (Bool-cases (key == k)) [
  | inl e ↦ rw (lookup-insert, e) (record { same = inl refl })
  | inr e ↦ rw (lookup-insert, e) a
]

module _ (l : FixedWindowLimiter) (ws : Windows) (key : String) (max t now : ℕ)
    (fits : 2 * l.window < 2 ^ 63) (ordered : t ≤ now) (sim : Simulates t l ws) where
  now-Agrees : (k : String) → Agrees l.window now (entry_at l k) (ws k)
  now-Agrees k = Agrees-later t now ordered (sim.agrees k)

  abbrev after_spec : RateEntry × Bool
  after_spec = admit l.window max now (ws key)

  fresh_Simulates :
      (f : RateEntry)
      → Simulates now
          (prune_locked (record l { entries = insert key f l.entries }) now)
          (put ws key f)
  unfolding prune_locked entry_at
  fresh_Simulates f = record {
    unique = retain-HasUniqueKeys _ _ (insert-HasUniqueKeys key f l.entries sim.unique);
    agrees = λ k.
        rw
          (lookup-retain (is_recent l.window now) k (insert key f l.entries)
            (insert-HasUniqueKeys key f l.entries sim.unique))
          (Agrees-prune l.window now (lookup k (insert key f l.entries)) _ fits
            (Agrees-insert l.window now key k f l.entries ws (now-Agrees k)));
  }

  count_Simulates :
      (f : RateEntry) → Simulates now (record l { entries = insert key f l.entries }) (put ws key f)
  unfolding entry_at
  count_Simulates f = record {
    unique = insert-HasUniqueKeys key f l.entries sim.unique;
    agrees = λ k. Agrees-insert l.window now key k f l.entries ws (now-Agrees k);
  }

  put_same : (k : String) → put ws key (ws key) k ≡ ws k
  unfolding put
  put_same k = ground (arith, eq_iff key k)

  same_Simulates : Simulates now l (put ws key (ws key))
  same_Simulates = record { unique = sim.unique; agrees = λ k. rw put_same (now-Agrees k) }

  -- one call of the limiter answers as the specification, and still stands for it
  allow-Simulates :
      ((allow l key max now).1 ≡ after_spec.1)
      × ((allow l key max now).0.window ≡ l.window)
      × Simulates now (allow l key max now).0 (put ws key after_spec.0)
  unfolding allow admit prune_locked
  allow-Simulates = elim (Bool-cases (is_over l.window now (ws key))) [
    | inl over ↦
        rw (admit-Agrees l.window max now (entry_at l key) (ws key) (now-Agrees key), over)
          (refl, refl, fresh_Simulates _)
    | inr within ↦
        let same = within_same (entry_at l key) (ws key) (now-Agrees key) within in
        rw (same, within)
          (elim (Bool-cases (leb max (ws key).count)) [
            | inl full ↦ rw full (refl, refl, same_Simulates)
            | inr room ↦ rw room (refl, refl, count_Simulates _)
          ])
  ]

-- From agreeing states, the limiter gives the specification's answers to every sequence of calls.
answers-spec_answers :
    (l : FixedWindowLimiter) (max : ℕ) (ws : Windows) (t : ℕ) (cs : Calls)
    → 2 * l.window < 2 ^ 63
    → Simulates t l ws
    → IsOrdered t cs
    → answers l max cs ≡ spec_answers l.window max ws cs
unfolding answers spec_answers
answers-spec_answers l max ws t [] fits sim ordered = refl
answers-spec_answers l max ws t ((key, now) ∷ cs) fits sim (le, ordered) =
    let (same, window, sim') = allow-Simulates l ws key max t now fits le sim in
    ap₂ ◌∷◌ same (
      answers-spec_answers (allow l key max now).0 max _ now cs (rw window fits) sim' ordered
      ∙ ap (λ w. spec_answers w max (put ws key (admit l.window max now (ws key)).0) cs) window)

empty_Simulates :
    (window : ℕ) → Simulates 0 (record { window = window; entries = [] }) (λ key. zero_entry)
unfolding entry_at lookup
empty_Simulates window = record { unique = tt; agrees = λ k. record { same = inl refl } }

-- A limiter with no entries, whose window is below 2 ^ 62 nanoseconds, answers every sequence of
-- calls at times that do not go back as a fixed window for each key, in which nothing is ever
-- dropped: the entries that pruning deletes are never missed.
pub prune_transparent :
    (window max : ℕ) (cs : Calls)
    → window < 2 ^ 62
    → IsOrdered 0 cs
    → answers (record { window = window; entries = [] }) max cs
      ≡ spec_answers window max (λ key. zero_entry) cs
prune_transparent window max cs fits ordered =
    answers-spec_answers _ max _ 0 cs (omega arith) (empty_Simulates window) ordered

-- ===== src/Middleware/RateLimit/Bound.antt =====
-- How many calls of one key the limiter lets through.
use turnstile_appcheck_gatew.Prelude.{
  ℕ, ◌+◌, ◌-◌, ◌*◌, ◌^◌, ◌≤◌, ◌<◌, String, Bool, false, List, [], ◌∷◌, if◌then◌else◌, leb, leb→le,
  ◌≡◌, inl, inr, arith, ◌==◌, eq_iff, Bool-cases,
}
use turnstile_appcheck_gatew.Audit.Event.{Time}
use turnstile_appcheck_gatew.Middleware.RateLimit.{zero_entry, is_over}
use turnstile_appcheck_gatew.Middleware.RateLimit.Window.{
  Windows, put, admit, Calls, answers, spec_answers, IsOrdered, prune_transparent,
}

-- the calls of a key from the time `t` on that were allowed
abbrev pub allowed_from : String → Time → Calls → List Bool → ℕ
allowed_from k t [] bs = 0
allowed_from k t (c ∷ cs) [] = 0
allowed_from k t ((key, now) ∷ cs) (b ∷ bs) =
    let rest = allowed_from k t cs bs in
    if key == k then if leb t now then if b then rest + 1 else rest else rest else rest

abbrev pub AllBefore : Time → Calls → Type 0
AllBefore u [] = Unit
AllBefore u ((key, now) ∷ cs) = (now < u) × AllBefore u cs

IsOrdered-zero : (cs : Calls) → IsOrdered 1 cs → IsOrdered 0 cs
IsOrdered-zero [] o = tt
IsOrdered-zero (c ∷ cs) (le, o) = (omega arith, o)

module _ (k : String) (window max t : ℕ) (some_allowed : 0 < max) where
  -- once a window has begun in the span, only its rest is left
  begun :
      (ws : Windows) (cs : Calls)
      → AllBefore (t + window) cs
      → t ≤ (ws k).window_start
      → 0 < (ws k).window_start
      → (ws k).count ≤ max
      → allowed_from k t cs (spec_answers window max ws cs) ≤ max - (ws k).count
  unfolding spec_answers admit is_over put
  begun ws [] before h p c = omega arith
  begun ws ((key, now) ∷ cs) (b, before) h p c =
      ground (arith, eq_iff key k, begun (put ws key (admit window max now (ws key)).0) cs before)

  -- before a window begins in the span, the old one may still be used up
  spanned :
      (ws : Windows) (s : Time) (cs : Calls)
      → AllBefore (t + window) cs
      → IsOrdered s cs
      → t ≤ s
      → 0 < s
      → (ws k).count ≤ max
      → allowed_from k t cs (spec_answers window max ws cs) ≤ max - (ws k).count + max
  unfolding spec_answers admit is_over put
  spanned ws s [] before o q p c = omega arith
  spanned ws s ((key, now) ∷ cs) (b, before) (le, o) q p c = ground (
    arith,
    eq_iff key k,
    spanned (put ws key (admit window max now (ws key)).0) now cs before o,
    begun (put ws key (admit window max now (ws key)).0) cs before,
  )

  keeps_count :
      (ws : Windows) (key : String) (now : Time)
      → (ws k).count ≤ max
      → (put ws key (admit window max now (ws key)).0 k).count ≤ max
  unfolding admit put
  keeps_count ws key now c = ground (arith, eq_iff key k)

  skip_early :
      (ws : Windows) (key : String) (now : Time) (cs : Calls)
      → leb t now ≡ false
      → allowed_from k t cs
          (spec_answers window max (put ws key (admit window max now (ws key)).0) cs)
        ≤ 2 * max
      → allowed_from k t ((key, now) ∷ cs) (spec_answers window max ws ((key, now) ∷ cs)) ≤ 2 * max
  unfolding spec_answers
  skip_early ws key now cs early ih = elim (Bool-cases (key == k)) [
    | inl e ↦ rw (e, early) ih
    | inr e ↦ rw e ih
  ]

  -- calls before the span count for nothing
  from_start :
      (ws : Windows) (s : Time) (cs : Calls)
      → AllBefore (t + window) cs
      → IsOrdered s cs
      → 0 < s
      → (ws k).count ≤ max
      → allowed_from k t cs (spec_answers window max ws cs) ≤ 2 * max
  from_start ws s [] before o p c = omega arith
  from_start ws s ((key, now) ∷ cs) (b, before) (le, o) p c = elim (Bool-cases (leb t now)) [
    | inl within ↦ omega (
      arith,
      spanned ws now ((key, now) ∷ cs) (b, before) (omega arith, o) (leb→le t now within)
          (omega arith) c,
    )
    | inr early ↦ skip_early ws key now cs early (
        from_start (put ws key (admit window max now (ws key)).0) now cs before o (omega arith)
          (keeps_count ws key now c))
  ]

-- A limiter with no entries and a positive maximum, called at positive times that do not go back,
-- lets at most twice the maximum of calls of one key through in any span of the length of its
-- window, below 2 ^ 62 nanoseconds: all that are made from `t` on and before `t + window`.
pub allowed_bound :
    (k : String) (window max t : ℕ) (cs : Calls)
    → window < 2 ^ 62
    → 0 < max
    → IsOrdered 1 cs
    → AllBefore (t + window) cs
    → allowed_from k t cs (answers (record { window = window; entries = [] }) max cs) ≤ 2 * max
allowed_bound k window max t cs fits p o before =
    rw (prune_transparent window max cs fits (IsOrdered-zero cs o))
      (from_start k window max t p (λ key. zero_entry) 1 cs before o (omega arith) (omega arith))

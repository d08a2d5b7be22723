-- ===== src/Httpserver/Served/Limited.antt =====
-- internal/httpserver/server.go: how often the public handlers are run for one client.
use turnstile_appcheck_gatew.Prelude.{
  ℕ, ◌+◌, ◌*◌, ◌^◌, ◌≤◌, ◌<◌, String, Bool, true, false, List, [], ◌∷◌, ◌==◌, if◌then◌else◌, leb,
  pos, leb_ℤ, ◌≡◌, subst, inl, inr, arith,
}
use turnstile_appcheck_gatew.Prelude.Int.{pos_part}
use turnstile_appcheck_gatew.Audit.Event.{Time}
use turnstile_appcheck_gatew.Http.{Request}
use turnstile_appcheck_gatew.Middleware.RateLimit.{FixedWindowLimiter, allow, new_limiter}
use turnstile_appcheck_gatew.Middleware.RateLimit.Window.{Calls, answers, IsOrdered}
use turnstile_appcheck_gatew.Middleware.RateLimit.Bound.{allowed_from, AllBefore, allowed_bound}
use turnstile_appcheck_gatew.Config.{Config, Parsers}
use turnstile_appcheck_gatew.Httpserver.Served.{serve}
use turnstile_appcheck_gatew.Httpserver.Served.Counted.{
  is_public, limiter_key, Quiet, Asked, serve-Counted,
}

abbrev pub Arrivals : Type 0
Arrivals = List (Request × Time)

-- times do not go back, from `s` on
abbrev pub IsInOrder : Time → Arrivals → Type 0
IsInOrder s [] = Unit
IsInOrder s ((r, now) ∷ rs) = (s ≤ now) × IsInOrder now rs

abbrev pub AllArriveBefore : Time → Arrivals → Type 0
AllArriveBefore u [] = Unit
AllArriveBefore u ((r, now) ∷ rs) = (now < u) × AllArriveBefore u rs

IsOrdered-earlier : (s t : Time) (cs : Calls) → s ≤ t → IsOrdered t cs → IsOrdered s cs
IsOrdered-earlier s t [] h o = tt
IsOrdered-earlier s t (c ∷ cs) h (a, b) = (omega arith, b)

module _ (go : Parsers) (cfg : Config) (recording : Bool) (join : String → String → String) where
  -- how often a public handler is run for a key from the time `t` on
  abbrev pub runs_from : String → Time → FixedWindowLimiter → Arrivals → ℕ
  runs_from k t l [] = 0
  runs_from k t l ((r, now) ∷ rs) =
      let rest = runs_from k t (serve go cfg recording join l r now).0 rs in
      if is_public (serve go cfg recording join l r now).1
      then if limiter_key r == k then if leb t now then rest + 1 else rest else rest
      else rest

  module _ (on : cfg.rate_limit.enabled ≡ true)
      (p : leb_ℤ cfg.rate_limit.requests_per_window (pos 0) ≡ false) where
    abbrev max : ℕ
    max = pos_part cfg.rate_limit.requests_per_window

    one_more :
        (k : String) (t : Time) (l : FixedWindowLimiter) (r : Request) (now : Time) (rs : Arrivals)
        (cs : Calls)
        → runs_from k t (serve go cfg recording join l r now).0 rs
          ≤ allowed_from k t cs (answers (allow l (limiter_key r) max now).0 max cs)
        → (is_public (serve go cfg recording join l r now).1 ≡ true
            → (allow l (limiter_key r) max now).1 ≡ true)
        → runs_from k t l ((r, now) ∷ rs)
          ≤ allowed_from k t ((limiter_key r, now) ∷ cs) (answers l max ((limiter_key r, now) ∷ cs))
    unfolding answers
    one_more k t l r now rs cs n only = ground arith

    -- the calls of the limiter that the arrivals make
    abbrev Traced : String → Time → Time → Time → FixedWindowLimiter → Arrivals → Type 0
    Traced k t u s l rs =
        (cs : Calls) × IsOrdered s cs
        × AllBefore u cs
        × (runs_from k t l rs ≤ allowed_from k t cs (answers l max cs))

    Quiet-step :
        (k : String) (t u s : Time) (l : FixedWindowLimiter) (r : Request) (now : Time)
        (rs : Arrivals)
        → s ≤ now
        → Quiet l (serve go cfg recording join l r now)
        → Traced k t u now l rs
        → Traced k t u s l ((r, now) ∷ rs)
    Quiet-step k t u s l r now rs h (same, hidden) (cs, o, b, n) =
        (cs, IsOrdered-earlier s now cs h o, b, rw (hidden, same) n)

    Asked-step :
        (k : String) (t u s : Time) (l : FixedWindowLimiter) (r : Request) (now : Time)
        (rs : Arrivals)
        → s ≤ now
        → now < u
        → Asked max l r now (serve go cfg recording join l r now)
        → Traced k t u now (serve go cfg recording join l r now).0 rs
        → Traced k t u s l ((r, now) ∷ rs)
    unfolding answers
    Asked-step k t u s l r now rs h m (same, only) (cs, o, b, n) = (
      (limiter_key r, now) ∷ cs,
      (h, o),
      (m, b),
      one_more k t l r now rs cs
          (subst
            (λ l'.
              runs_from k t (serve go cfg recording join l r now).0 rs
              ≤ allowed_from k t cs (answers l' max cs))
            same n)
          only,
    )

    traced :
        (k : String) (t u s : Time) (l : FixedWindowLimiter) (rs : Arrivals)
        → IsInOrder s rs
        → AllArriveBefore u rs
        → Traced k t u s l rs
    traced k t u s l [] o b = ([], tt, tt, omega arith)
    traced k t u s l ((r, now) ∷ rs) (h, o) (m, b) =
        let rest = traced k t u now (serve go cfg recording join l r now).0 rs o b in
        elim (serve-Counted go cfg recording join on p l r now) [
          | inl q ↦
              Quiet-step k t u s l r now rs h q (subst (λ l'. Traced k t u now l' rs) q.0 rest)
          | inr a ↦ Asked-step k t u s l r now rs h m a rest
        ]

  -- With the rate limit on, a positive maximum and a window below 2 ^ 62 nanoseconds: of the requests of one
  -- client to one route that arrive in a span of the length of the window, whatever else the server is
  -- asked, the exchange and verify handlers are run for at most twice the maximum.
  pub public_bound :
      (k : String) (t : Time) (rs : Arrivals)
      → cfg.rate_limit.enabled ≡ true
      → leb_ℤ cfg.rate_limit.requests_per_window (pos 0) ≡ false
      → (new_limiter cfg.rate_limit).window < 2 ^ 62
      → IsInOrder 1 rs
      → AllArriveBefore (t + (new_limiter cfg.rate_limit).window) rs
      → runs_from k t (new_limiter cfg.rate_limit) rs
        ≤ 2 * pos_part cfg.rate_limit.requests_per_window
  unfolding new_limiter
  public_bound k t rs on p w o b =
      let (cs, ordered, before, few) =
        traced on p k t (t + (new_limiter cfg.rate_limit).window) 1 (new_limiter cfg.rate_limit) rs
          o b in
      let most =
        allowed_bound k (new_limiter cfg.rate_limit).window
          (pos_part cfg.rate_limit.requests_per_window) t cs w (ground arith) ordered before in
      omega arith

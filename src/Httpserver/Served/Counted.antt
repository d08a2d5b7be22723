-- ===== src/Httpserver/Served/Counted.antt =====
-- internal/httpserver/server.go: what a request does to the rate limiter, whatever its route.
use Prim.Native.String.{◌++◌}
use turnstile_appcheck_gatew.Prelude.{
  All-if, ℕ, String, Bool, true, false, ◌&&◌, List, [], ◌∷◌, Option, none, some, any, ◌==◌,
  if◌then◌else◌, pos, leb_ℤ, All, ◌≡◌, refl, ◌⊎◌, inl, inr, Bool-cases,
}
use turnstile_appcheck_gatew.Prelude.Int.{pos_part}
use turnstile_appcheck_gatew.Audit.Event.{Time}
use turnstile_appcheck_gatew.Http.{Request, Call}
use turnstile_appcheck_gatew.Middleware.RateLimit.{
  FixedWindowLimiter, RateLimitConfig, allow, rate_limit,
}
use turnstile_appcheck_gatew.Admin.Auth.{required}
use turnstile_appcheck_gatew.Config.{Config, Parsers}
use turnstile_appcheck_gatew.Httpserver.Router.{
  Layer, recovery_layer, logger_layer, cors_layer, limiter_layer, required_layer, dashboard_layer,
  Endpoint, get_healthz, get_readyz, options_exchange, post_exchange, any_verify, get_me,
  get_request_metrics, get_audit_options, get_audit_events, get_audit_event, post_audit_reset,
  get_dashboard, get_dashboard_file, Route, new_router, register_admin, register_ui,
}
use turnstile_appcheck_gatew.Httpserver.Served.{
  passes, find_route, layer_calls, reach, serve_by, serve,
}
use turnstile_appcheck_gatew.Httpserver.Served.Guarded.{cors_calls}

-- the handlers behind the rate limiter
abbrev pub is_public : Option Endpoint → Bool
is_public (some post_exchange) = true
is_public (some any_verify) = true
is_public _ = false

-- the key of the limiter
abbrev pub limiter_key : Request → String
limiter_key r = r.client_ip ++ ("|" ++ r.full_path)

-- a request that the limiter does not see, and one that it answers
abbrev pub Quiet : FixedWindowLimiter → FixedWindowLimiter × Option Endpoint → Type 0
Quiet l (l', e) = (l' ≡ l) × (is_public e ≡ false)

abbrev pub Asked :
    ℕ → FixedWindowLimiter → Request → Time → FixedWindowLimiter × Option Endpoint → Type 0
Asked max l r now (l', e) =
    (l' ≡ (allow l (limiter_key r) max now).0)
    × (is_public e ≡ true → (allow l (limiter_key r) max now).1 ≡ true)

abbrev pub Counted :
    ℕ → FixedWindowLimiter → Request → Time → FixedWindowLimiter × Option Endpoint → Type 0
Counted max l r now x = Quiet l x ⊎ Asked max l r now x

module _ (c : RateLimitConfig) (on : c.enabled ≡ true)
    (p : leb_ℤ c.requests_per_window (pos 0) ≡ false) (l : FixedWindowLimiter) (r : Request)
    (now : Time) where
  limiter-answers :
      let a = allow l (limiter_key r) (pos_part c.requests_per_window) now in
      ((rate_limit c l r now).0 ≡ a.0) × (passes (rate_limit c l r now).1 ≡ a.1)
  unfolding rate_limit
  limiter-answers =
      elim (Bool-cases (allow l (limiter_key r) (pos_part c.requests_per_window) now).1) [
        | inl k ↦ simp (on, p, k) (refl, refl)
        | inr k ↦ simp (on, p, k) (refl, refl)
      ]

pass_on :
    (x : FixedWindowLimiter × List Call) (y : FixedWindowLimiter × Bool)
    → x.0 ≡ y.0
    → passes x.1 ≡ y.1
    → (if passes x.1 then (x.0, true) else (x.0, false)) ≡ y
pass_on x (l', b) h k = rw (k, h) (pick b)
  where
    pick :
        (b : Bool)
        → ◌≡◌ {A = FixedWindowLimiter × Bool} (if b then (l', true) else (l', false)) (l', b)
    pick true = refl
    pick false = refl

shown : (b : Bool) (e : Endpoint) → is_public (if b then some e else none) ≡ true → b ≡ true
shown true e h = refl
shown false e h = cc

module _ (go : Parsers) (cfg : Config) (recording : Bool) (join : String → String → String) where
  module _ (on : cfg.rate_limit.enabled ≡ true)
      (p : leb_ℤ cfg.rate_limit.requests_per_window (pos 0) ≡ false) where
    abbrev max : ℕ
    max = pos_part cfg.rate_limit.requests_per_window

    module _ (l : FixedWindowLimiter) (r : Request) (now : Time) where
      abbrev Fits : Route → Type 0
      Fits route = Counted max l r now (serve_by go cfg recording l r now (some route))

      private_route :
          (path : String) (methods : List String) (more : List Layer) (e : Endpoint)
          → (reach go cfg recording more l r now).0 ≡ l
          → is_public (some e) ≡ false
          → Fits (record { methods = methods; path = path; layers = more; endpoint = e })
      unfolding serve_by
      private_route path methods more e h q =
          inl (h, hidden (reach go cfg recording more l r now).1)
        where
          hidden : (b : Bool) → is_public (if b then some e else none) ≡ false
          hidden true = q
          hidden false = refl

      admin_keeps :
          (more : List Layer)
          → (reach go cfg recording more l r now).0 ≡ l
          → (reach go cfg recording
              (recovery_layer ∷ logger_layer ∷ required_layer ∷ more)
              l
              r
              now).0
            ≡ l
      unfolding reach layer_calls
      admin_keeps more h = elim (Bool-cases (passes (required recording cfg.auth r []).1)) [
        | inl k ↦ rw k h
        | inr k ↦ rw k refl
      ]

      limiter_reach :
          reach go cfg recording (recovery_layer ∷ logger_layer ∷ limiter_layer ∷ []) l r now
          ≡ allow l (limiter_key r) max now
      unfolding reach layer_calls
      limiter_reach =
          let (a, b) = limiter-answers cfg.rate_limit on p l r now in
          pass_on (rate_limit cfg.rate_limit l r now) (allow l (limiter_key r) max now) a b

      exchange_reach :
          passes (cors_calls go cfg recording l r now) ≡ true
          → reach go cfg recording
              (recovery_layer ∷ logger_layer ∷ cors_layer ∷ limiter_layer ∷ [])
              l
              r
              now
            ≡ allow l (limiter_key r) max now
      unfolding reach layer_calls
      exchange_reach k = rw k (
          let (a, b) = limiter-answers cfg.rate_limit on p l r now in
          pass_on (rate_limit cfg.rate_limit l r now) (allow l (limiter_key r) max now) a b)

      cors_stops :
          passes (cors_calls go cfg recording l r now) ≡ false
          → (more : List Layer)
          → reach go cfg recording (recovery_layer ∷ logger_layer ∷ cors_layer ∷ more) l r now
            ≡ (l, false)
      unfolding reach layer_calls
      cors_stops k more = rw k refl

      cors_keeps :
          (reach go cfg recording (recovery_layer ∷ logger_layer ∷ cors_layer ∷ []) l r now).0 ≡ l
      unfolding reach layer_calls
      cors_keeps = elim (Bool-cases (passes (cors_calls go cfg recording l r now))) [
        | inl k ↦ rw k refl
        | inr k ↦ rw k refl
      ]

      asked_route :
          (path : String) (methods : List String) (layers : List Layer) (e : Endpoint)
          → reach go cfg recording layers l r now ≡ allow l (limiter_key r) max now
          → Fits (record { methods = methods; path = path; layers = layers; endpoint = e })
      unfolding serve_by
      asked_route path methods layers e h =
          rw h (inr (refl, shown (allow l (limiter_key r) max now).1 e))

      stopped_route :
          (path : String) (methods : List String) (layers : List Layer) (e : Endpoint)
          → reach go cfg recording layers l r now ≡ (l, false)
          → Fits (record { methods = methods; path = path; layers = layers; endpoint = e })
      unfolding serve_by
      stopped_route path methods layers e h = rw h (inl (refl, refl))

      exchange_route :
          (path : String) (methods : List String)
          → Fits (record {
            methods = methods;
            path = path;
            layers = recovery_layer ∷ logger_layer ∷ cors_layer ∷ limiter_layer ∷ [];
            endpoint = post_exchange;
          })
      exchange_route path methods =
          elim (Bool-cases (passes (cors_calls go cfg recording l r now))) [
            | inl k ↦ asked_route path methods _ post_exchange (exchange_reach k)
            | inr k ↦ stopped_route path methods _ post_exchange (cors_stops k (limiter_layer ∷ []))
          ]

      -- the layers that pass every request on
      nothing_left : (reach go cfg recording (recovery_layer ∷ logger_layer ∷ []) l r now).0 ≡ l
      unfolding reach layer_calls
      nothing_left = refl

      view_left : (reach go cfg recording (dashboard_layer ∷ []) l r now).0 ≡ l
      unfolding reach layer_calls
      view_left = refl

      none_left : (reach go cfg recording [] l r now).0 ≡ l
      unfolding reach
      none_left = refl

      admin-Fits :
          (base : String)
          → All Fits (
              register_admin join
                (record { base_path = base; layers = recovery_layer ∷ logger_layer ∷ [] })
                cfg)
      unfolding register_admin register_ui
      admin-Fits base = All-if Fits cfg.dashboard.enabled _ (λ on.
          let api = λ (path : String) (methods : List String) (e : Endpoint).
            private_route path methods _ e (admin_keeps [] none_left) in
          let ui = λ (path : String) (methods : List String) (e : Endpoint).
            private_route path methods _ e (admin_keeps (dashboard_layer ∷ []) view_left) in
          (
            api _ _ get_me refl,
            (
              api _ _ get_request_metrics refl,
              (
                api _ _ get_audit_options refl,
                (
                  api _ _ get_audit_events refl,
                  (
                    api _ _ get_audit_event refl,
                    (
                      api _ _ post_audit_reset refl,
                      (ui _ _ get_dashboard refl, (ui _ _ get_dashboard_file refl, tt)),
                    ),
                  ),
                ),
              ),
            ),
          ))

      routes-Fit : All Fits (new_router join cfg)
      unfolding new_router
      routes-Fit = (
        private_route _ _ _ get_healthz nothing_left refl,
        (
          private_route _ _ _ get_readyz nothing_left refl,
          (
            private_route _ _ _ options_exchange cors_keeps refl,
            (
              exchange_route _ _,
              (
                asked_route _ _ _ any_verify limiter_reach,
                admin-Fits (join "/" cfg.app_check_subpath),
              ),
            ),
          ),
        ),
      )

      find_route-Fits :
          (routes : List Route) (o : Option Route)
          → All Fits routes
          → find_route r routes ≡ o
          → Counted max l r now (serve_by go cfg recording l r now o)
      unfolding find_route serve_by
      find_route-Fits [] o a e = rw (← e) (inl (refl, refl))
      find_route-Fits (first ∷ routes) o a e =
          elim (Bool-cases
            (any (λ m. m == r.method) first.methods && (first.path == r.full_path))) [
              | inl k ↦ rw (← (rw k at e)) a.0
              | inr k ↦ find_route-Fits routes o a.1 (rw k at e)
            ]

      pub serve-Counted : Counted max l r now (serve go cfg recording join l r now)
      unfolding serve
      serve-Counted = find_route-Fits (new_router join cfg) _ routes-Fit refl

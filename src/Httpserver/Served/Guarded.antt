-- ===== src/Httpserver/Served/Guarded.antt =====
-- internal/httpserver/server.go: what a request has passed when its handler is run.
use turnstile_appcheck_gatew.Prelude.{
  All-if, String, Bool, true, ◌&&◌, List, [], ◌∷◌, Option, none, some, any, ◌==◌, All, ◌≡◌, refl,
  subst, Bool-cases, inl, inr, arith,
}
use turnstile_appcheck_gatew.Audit.Event.{Time}
use turnstile_appcheck_gatew.Http.{Request, Call}
use turnstile_appcheck_gatew.Middleware.RateLimit.{FixedWindowLimiter, rate_limit}
use turnstile_appcheck_gatew.Middleware.Cors.{exchange_cors}
use turnstile_appcheck_gatew.Admin.Auth.{required, answer_identity}
use turnstile_appcheck_gatew.Admin.Auth.Access.{is_admitted, identity-is_admitted}
use turnstile_appcheck_gatew.Config.{Config, Parsers}
use turnstile_appcheck_gatew.Config.Values.{is_exchange_origin_allowed}
use turnstile_appcheck_gatew.Httpserver.Router.{
  Layer, recovery_layer, logger_layer, cors_layer, limiter_layer, required_layer, dashboard_layer,
  Endpoint, get_healthz, get_readyz, options_exchange, post_exchange, any_verify, get_me,
  get_request_metrics, get_audit_options, get_audit_events, get_audit_event, post_audit_reset,
  get_dashboard, get_dashboard_file, Route, new_router, register_admin, register_ui,
}
use turnstile_appcheck_gatew.Httpserver.Served.{
  passes, find_route, layer_calls, reach, serve_by, serve,
}

required-passes :
    (recording : Bool) (cfg : Config) (r : Request)
    → passes (required recording cfg.auth r []).1 ≡ true
    → is_admitted cfg.auth r ≡ true
unfolding required answer_identity
required-passes recording cfg r h = rw (← identity-is_admitted cfg.auth r) (ground arith)

module _ (go : Parsers) (cfg : Config) (recording : Bool) (l : FixedWindowLimiter) (r : Request)
    (now : Time) where
  -- what ExchangeCORS does
  abbrev pub cors_calls : List Call
  cors_calls =
      (exchange_cors (some (is_exchange_origin_allowed go cfg.allowed_exchange_origins)) r []).1

  -- the dashboard is on and the administrator is admitted
  abbrev pub IsForAdmin : Type 0
  IsForAdmin = (cfg.dashboard.enabled ≡ true) × (is_admitted cfg.auth r ≡ true)

  -- the limiter lets the request through
  abbrev pub IsLimited : Type 0
  IsLimited = passes (rate_limit cfg.rate_limit l r now).1 ≡ true

  -- what has to hold for a handler to be run
  abbrev pub Guarded : Endpoint → Type 0
  Guarded get_healthz = Unit
  Guarded get_readyz = Unit
  Guarded options_exchange = passes cors_calls ≡ true
  Guarded post_exchange = (passes cors_calls ≡ true) × IsLimited
  Guarded any_verify = IsLimited
  Guarded get_me = IsForAdmin
  Guarded get_request_metrics = IsForAdmin
  Guarded get_audit_options = IsForAdmin
  Guarded get_audit_events = IsForAdmin
  Guarded get_audit_event = IsForAdmin
  Guarded post_audit_reset = IsForAdmin
  Guarded get_dashboard = IsForAdmin
  Guarded get_dashboard_file = IsForAdmin

  abbrev Safe : Route → Type 0
  Safe route = (reach go cfg recording route.layers l r now).1 ≡ true → Guarded route.endpoint

  find_route-Safe :
      (routes : List Route) (route : Route)
      → All Safe routes
      → find_route r routes ≡ some route
      → Safe route
  unfolding find_route
  find_route-Safe [] route a e = cc
  find_route-Safe (first ∷ routes) route a e =
      elim (Bool-cases (any (λ m. m == r.method) first.methods && (first.path == r.full_path))) [
        | inl k ↦ subst Safe {x = first} {y = route} (cc (rw k at e)) a.0
        | inr k ↦ find_route-Safe routes route a.1 (rw k at e)
      ]

  admin_chain :
      (more : List Layer)
      → (reach go cfg recording (recovery_layer ∷ logger_layer ∷ required_layer ∷ more) l r now).1
        ≡ true
      → is_admitted cfg.auth r ≡ true
  unfolding reach layer_calls
  admin_chain more h = elim (Bool-cases (passes (required recording cfg.auth r []).1)) [
    | inl k ↦ required-passes recording cfg r k
    | inr k ↦ cc (rw k at h)
  ]

  cors_chain :
      (reach go cfg recording (recovery_layer ∷ logger_layer ∷ cors_layer ∷ []) l r now).1 ≡ true
      → passes cors_calls ≡ true
  unfolding reach layer_calls
  cors_chain h = elim (Bool-cases (passes cors_calls)) [ inl k ↦ k | inr k ↦ cc (rw k at h) ]

  limiter_chain :
      (reach go cfg recording (recovery_layer ∷ logger_layer ∷ limiter_layer ∷ []) l r now).1 ≡ true
      → IsLimited
  unfolding reach layer_calls
  limiter_chain h = elim (Bool-cases (passes (rate_limit cfg.rate_limit l r now).1)) [
    | inl k ↦ k
    | inr k ↦ cc (rw k at h)
  ]

  exchange_chain :
      (reach go cfg recording
          (recovery_layer ∷ logger_layer ∷ cors_layer ∷ limiter_layer ∷ [])
          l
          r
          now).1
        ≡ true
      → (passes cors_calls ≡ true) × IsLimited
  unfolding reach layer_calls
  exchange_chain h = elim (Bool-cases (passes cors_calls)) [
    | inl k ↦ elim (Bool-cases (passes (rate_limit cfg.rate_limit l r now).1)) [
      | inl m ↦ (k, m)
      | inr m ↦ cc (rw (k, m) at h)
    ]
    | inr k ↦ cc (rw k at h)
  ]

  for_admin :
      cfg.dashboard.enabled ≡ true
      → (more : List Layer)
      → (reach go cfg recording (recovery_layer ∷ logger_layer ∷ required_layer ∷ more) l r now).1
        ≡ true
      → IsForAdmin
  for_admin on more h = (on, admin_chain more h)

  admin-Safe :
      (join : String → String → String) (base : String)
      → All Safe (
          register_admin join
            (record { base_path = base; layers = recovery_layer ∷ logger_layer ∷ [] })
            cfg)
  unfolding register_admin register_ui
  admin-Safe join base = All-if Safe cfg.dashboard.enabled _ (λ on.
      let api = for_admin on [] in
      let ui = for_admin on (dashboard_layer ∷ []) in
      (api, (api, (api, (api, (api, (api, (ui, (ui, tt)))))))))

  routes-Safe : (join : String → String → String) → All Safe (new_router join cfg)
  unfolding new_router
  routes-Safe join = (
    (λ h. tt),
    (
      (λ h. tt),
      (
        cors_chain,
        (exchange_chain, (limiter_chain, admin-Safe join (join "/" cfg.app_check_subpath))),
      ),
    ),
  )

  serve_by-Guarded :
      (o : Option Route) (e : Endpoint)
      → ((route : Route) → o ≡ some route → Safe route)
      → (serve_by go cfg recording l r now o).1 ≡ some e
      → Guarded e
  unfolding serve_by
  serve_by-Guarded none e safe h = cc
  serve_by-Guarded (some route) e safe h =
      elim (Bool-cases (reach go cfg recording route.layers l r now).1) [
        | inl k ↦ subst Guarded {x = route.endpoint} {y = e} (cc (rw k at h)) (safe route refl k)
        | inr k ↦ cc (rw k at h)
      ]

  -- A handler is run only for a request that has passed the middleware of its route: the handlers and pages
  -- of the administration only if the dashboard is on and the administrator is admitted; the exchange
  -- only if ExchangeCORS and the rate limiter let the request through; the verification only if the
  -- limiter does.
  pub serve-Guarded :
      (join : String → String → String) (e : Endpoint)
      → (serve go cfg recording join l r now).1 ≡ some e
      → Guarded e
  unfolding serve
  serve-Guarded join e h =
      serve_by-Guarded (find_route r (new_router join cfg)) e
        (λ route f. find_route-Safe (new_router join cfg) route (routes-Safe join) f) h

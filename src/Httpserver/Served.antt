-- ===== src/Httpserver/Served.antt =====
-- internal/httpserver/server.go: a request on its way through the middleware of its route.
pub mod Guarded
pub mod Counted
pub mod Limited
use turnstile_appcheck_gatew.Prelude.{
  String, Bool, true, false, ◌&&◌, List, [], ◌∷◌, Option, none, some, any, ◌==◌, if◌then◌else◌,
}
use turnstile_appcheck_gatew.Audit.Event.{Time}
use turnstile_appcheck_gatew.Http.{Request, Call, next}
use turnstile_appcheck_gatew.Middleware.RateLimit.{FixedWindowLimiter, rate_limit}
use turnstile_appcheck_gatew.Middleware.Cors.{exchange_cors}
use turnstile_appcheck_gatew.Admin.Auth.{required}
use turnstile_appcheck_gatew.Config.{Config, Parsers}
use turnstile_appcheck_gatew.Config.Values.{is_exchange_origin_allowed}
use turnstile_appcheck_gatew.Httpserver.Router.{
  Layer, recovery_layer, logger_layer, cors_layer, limiter_layer, required_layer, dashboard_layer,
  Endpoint, Route, new_router,
}

-- the middleware has called c.Next
abbrev pub passes : List Call → Bool
passes (next ∷ calls) = true
passes _ = false

-- gin's choice of the route, by the method and by the pattern that it matched
unfoldable pub find_route : Request → List Route → Option Route
find_route r [] = none
find_route r (route ∷ routes) =
    let rest = find_route r routes in
    if any (λ m. m == r.method) route.methods && (route.path == r.full_path)
    then some route
    else rest

module _ (go : Parsers) (cfg : Config) (recording : Bool) where
  -- what a middleware does before the handlers behind it; Recovery, RequestLogger and dashboardAccess
  -- pass every request on
  unfoldable pub layer_calls :
      Layer → FixedWindowLimiter → Request → Time → FixedWindowLimiter × List Call
  layer_calls cors_layer l r now = (
    l,
    (exchange_cors (some (is_exchange_origin_allowed go cfg.allowed_exchange_origins)) r []).1,
  )
  layer_calls limiter_layer l r now = rate_limit cfg.rate_limit l r now
  layer_calls required_layer l r now = (l, (required recording cfg.auth r []).1)
  layer_calls recovery_layer l r now = (l, next ∷ [])
  layer_calls logger_layer l r now = (l, next ∷ [])
  layer_calls dashboard_layer l r now = (l, next ∷ [])

  -- the limiter after the request, and whether its handler is run
  unfoldable pub reach :
      List Layer → FixedWindowLimiter → Request → Time → FixedWindowLimiter × Bool
  unfolding layer_calls
  reach [] l r now = (l, true)
  reach (layer ∷ layers) l r now =
      let (l', calls) = layer_calls layer l r now in
      let rest = reach layers l' r now in if passes calls then rest else (l', false)

  -- with the route that gin chose, if there is one
  unfoldable pub serve_by :
      FixedWindowLimiter → Request → Time → Option Route → FixedWindowLimiter × Option Endpoint
  unfolding reach
  serve_by l r now none = (l, none)
  serve_by l r now (some route) =
      let (l', reached) = reach route.layers l r now in
      (l', if reached then some route.endpoint else none)

  -- the limiter after the request, and the handler that is run
  unfoldable pub serve :
      (String → String → String)
      → FixedWindowLimiter
      → Request
      → Time
      → FixedWindowLimiter × Option Endpoint
  unfolding find_route serve_by
  serve join l r now = serve_by l r now (find_route r (new_router join cfg))

-- ===== src/Httpserver/Router.antt =====
-- internal/httpserver/server.go, and the Register of internal/admin/handler.go and of
-- internal/adminui/embed.go: the routes, each with the middleware before its handler. How gin joins a path to
-- that of a group is a parameter.
use Prim.Native.String.{◌++◌}
use turnstile_appcheck_gatew.Prelude.{String, List, [], ◌∷◌, ◌++◌ as append, if◌then◌else◌}
use turnstile_appcheck_gatew.GoStrings.{trim_space, trim_left_byte, trim_right_byte}
use turnstile_appcheck_gatew.Config.{Config}

-- the middleware: Recovery, RequestLogger, ExchangeCORS, NewRateLimiter, Handler.required and
-- Handler.dashboardAccess
pub data Layer : Type 0 where
  recovery_layer : Layer
  logger_layer : Layer
  cors_layer : Layer
  limiter_layer : Layer
  required_layer : Layer
  dashboard_layer : Layer

-- the handlers
pub data Endpoint : Type 0 where
  get_healthz : Endpoint
  get_readyz : Endpoint
  options_exchange : Endpoint
  post_exchange : Endpoint
  any_verify : Endpoint
  get_me : Endpoint
  get_request_metrics : Endpoint
  get_audit_options : Endpoint
  get_audit_events : Endpoint
  get_audit_event : Endpoint
  post_audit_reset : Endpoint
  get_dashboard : Endpoint
  get_dashboard_file : Endpoint

pub record Route : Type 0 where
  pub methods : List String
  pub path : String
  pub layers : List Layer
  pub endpoint : Endpoint

-- gin.RouterGroup
pub record RouterGroup : Type 0 where
  pub base_path : String
  pub layers : List Layer

-- the methods that Any registers
abbrev pub any_method : List String
any_method =
    "GET" ∷ "POST" ∷ "PUT" ∷ "PATCH" ∷ "HEAD" ∷ "OPTIONS" ∷ "DELETE" ∷ "CONNECT" ∷ "TRACE" ∷ []

module _ (join : String → String → String) where
  abbrev pub group : RouterGroup → String → List Layer → RouterGroup
  group g path layers = record {
    base_path = join g.base_path path;
    layers = append g.layers layers;
  }

  abbrev pub handle : RouterGroup → List String → String → List Layer → Endpoint → Route
  handle g methods path layers endpoint = record {
    methods = methods;
    path = join g.base_path path;
    layers = append g.layers layers;
    endpoint = endpoint;
  }

  -- adminui.Register
  unfoldable pub register_ui : RouterGroup → String → List Layer → List Route
  register_ui root base layers =
      let path = "/" ++ trim_right_byte b'/' (trim_left_byte b'/' (trim_space base)) in
      let ui = group root path layers in
      handle ui ("GET" ∷ []) "" [] get_dashboard
      ∷ handle ui ("GET" ∷ []) "/*filepath" [] get_dashboard_file
      ∷ []

  -- admin.Register
  unfoldable pub register_admin : RouterGroup → Config → List Route
  unfolding register_ui
  register_admin root cfg =
      let api = group root "/_admin/api/v1" (required_layer ∷ []) in
      if cfg.dashboard.enabled
      then (handle api ("GET" ∷ []) "/me" [] get_me
          ∷ handle api ("GET" ∷ []) "/request-metrics" [] get_request_metrics
          ∷ handle api ("GET" ∷ []) "/audit-options" [] get_audit_options
          ∷ handle api ("GET" ∷ []) "/audit-events" [] get_audit_events
          ∷ handle api ("GET" ∷ []) "/audit-events/:id" [] get_audit_event
          ∷ handle api ("POST" ∷ []) "/audit-events/reset" [] post_audit_reset
          ∷ register_ui root cfg.dashboard.base_path (required_layer ∷ dashboard_layer ∷ []))
      else []

  -- the engine after `r.Use`
  abbrev pub engine : RouterGroup
  engine = record { base_path = "/"; layers = recovery_layer ∷ logger_layer ∷ [] }

  -- the routes of NewRouter
  unfoldable pub new_router : Config → List Route
  unfolding register_admin
  new_router cfg =
      let api = group engine cfg.app_check_subpath [] in
      let exchange = group api "/api/v1/exchange" (cors_layer ∷ []) in
      let public = group api "" (limiter_layer ∷ []) in
      handle engine ("GET" ∷ []) cfg.health_path [] get_healthz
      ∷ handle engine ("GET" ∷ []) cfg.ready_path [] get_readyz
      ∷ handle exchange ("OPTIONS" ∷ []) "" [] options_exchange
      ∷ handle exchange ("POST" ∷ []) "" (limiter_layer ∷ []) post_exchange
      ∷ handle public any_method "/api/v1/verify" [] any_verify
      ∷ register_admin api cfg

-- the proxies whose X-Forwarded-For NewRouter lets gin believe
unfoldable pub trusted_proxies : Config → List String
trusted_proxies cfg = if cfg.trust_proxy_headers then "0.0.0.0/0" ∷ "::/0" ∷ [] else []

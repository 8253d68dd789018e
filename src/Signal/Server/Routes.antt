-- ===== src/Signal/Server/Routes.antt =====
-- internal/signal/server.go and internal/api/device.go: what the signal server answers over HTTP. The
-- handler of WebSocket connections is an argument, since the upgrade is gorilla/websocket's; what it
-- does to the state is in Signal/Server.
pub mod Origin
pub mod Devices
mod Tests
use cloudbridge.Common.{
  ℕ, false, List, [], ◌∷◌, ◌++◌, String, string_eq, ◌==◌, Option, none, some, if◌then◌else◌,
}
use cloudbridge.Http.{
  Request, Header, Reply, Handler, Route, Segment, literal, wildcard, set_header, serve_mux,
  no_body, text, json,
}
use cloudbridge.Signal.Client.{Heap}
use cloudbridge.Signal.Hub.{Hub}
use cloudbridge.Signal.Sessions.{SessionManager}
use cloudbridge.Api.{Response, list_devices_handler, get_device, list_sessions_handler, get_stats}

pub record ServerConfig : Type 0 where
  pub addr : String
  pub path : List String
  -- In seconds.
  pub heartbeat_interval : ℕ

abbrev pub default_config : ServerConfig
default_config = record { addr = ":10980"; path = "signal" ∷ []; heartbeat_interval = 30 }

-- `NewServer` fills in an interval of zero.
abbrev pub with_interval : ServerConfig → ServerConfig
with_interval cfg = elim cfg.heartbeat_interval [
  | ℕ.zero ↦ record cfg { heartbeat_interval = 30 }
  | ℕ.suc n ↦ cfg
]

abbrev pub allow_origin : String
allow_origin = "Access-Control-Allow-Origin"

abbrev pub cors_header : Header → Header
cors_header hs = set_header "Access-Control-Allow-Headers" "Content-Type" (
    set_header "Access-Control-Allow-Methods" "GET, POST, OPTIONS" (set_header allow_origin "*" hs))

unfoldable pub cors_middleware : Handler → Handler
cors_middleware next r hs =
    let hs' = cors_header hs in
    if r.method == "OPTIONS"
    then record { header = hs'; status = 204; body = no_body }
    else next r hs'

-- `writeJSON` and `writeError`
abbrev pub write_response : Response → Header → Reply
write_response a hs = record {
  header = set_header "Content-Type" "application/json" hs;
  status = a.status;
  body = json a.body;
}

abbrev pub get : List Segment → (List String → Handler) → Route
get ss h = record { method = some "GET"; segments = ss; subtree = false; handler = h }

-- `r.PathValue("deviceId")`
abbrev pub path_value : List String → String
path_value [] = ""
path_value (v ∷ vs) = v

abbrev pub literals : List String → List Segment
literals [] = []
literals (s ∷ ss) = literal s ∷ literals ss

abbrev pub api_path : List Segment → List Segment
api_path ss = literal "api" ∷ literal "v1" ∷ ss

abbrev pub health : Handler
health r hs = record { header = hs; status = 200; body = text "ok" }

abbrev pub plain : List Segment → Handler → Route
plain ss k = record { method = none; segments = ss; subtree = false; handler = λ vs. k }

module _ (format : ℕ → String) (h : Heap) (u : Hub) (sm : SessionManager) where
  -- `RegisterRoutes`
  abbrev pub api_routes : List Route
  api_routes =
      get (api_path (literal "devices" ∷ []))
        (λ vs r. write_response (list_devices_handler format u))
      ∷ get (api_path (literal "devices" ∷ wildcard ∷ []))
          (λ vs r. write_response (get_device format (path_value vs) h u))
      ∷ get (api_path (literal "sessions" ∷ []))
          (λ vs r. write_response (list_sessions_handler format sm))
      ∷ get (api_path (literal "stats" ∷ [])) (λ vs r. write_response (get_stats u sm))
      ∷ []

  -- The handler that `Start` serves, with the routes of the API registered.
  unfoldable pub signal_handler : ServerConfig → Handler → Handler
  signal_handler cfg websocket = cors_middleware (
      serve_mux
        (plain (literals cfg.path) websocket ∷ plain (literal "health" ∷ []) health ∷ api_routes))

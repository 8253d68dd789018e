-- ===== src/Signal/Server/Routes/Devices.antt =====
-- server.go with device.go: the route of one device.
use cloudbridge.Common.{ℕ, ◌≡◌, ◌≢◌, [], ◌∷◌, String, string_eq, false, none, arith}
use cloudbridge.Http.{
  Request, Header, Handler, match_path, is_clean, needs_cleaning, find_route, names_subtree,
  match_method, serve_mux,
}
use cloudbridge.Signal.Client.{Heap}
use cloudbridge.Signal.Hub.{Hub}
use cloudbridge.Signal.Sessions.{SessionManager}
use cloudbridge.Api.{get_device}
use cloudbridge.Signal.Server.Routes.{
  ServerConfig, cors_header, cors_middleware, write_response, literals, signal_handler,
}

-- GET of a device.
abbrev pub device_request : String → String → Request
device_request host id = record {
  method = "GET";
  host = host;
  path = "api" ∷ "v1" ∷ "devices" ∷ id ∷ [];
}

pub device_request-clean :
    (host id : String) → id ≢ "." → id ≢ ".." → needs_cleaning (device_request host id) ≡ false
unfolding needs_cleaning is_clean
device_request-clean host id n m =
    ground (arith, string_eq.beq_iff id ".", string_eq.beq_iff id "..")

pub signal_handler-get_device :
    (format : ℕ → String) (h : Heap) (u : Hub) (sm : SessionManager) (cfg : ServerConfig)
    (websocket : Handler) (host id : String) (hs : Header)
    → id ≢ ""
    → id ≢ "."
    → id ≢ ".."
    → match_path (literals cfg.path) false (device_request host id).path ≡ none
    → signal_handler format h u sm cfg websocket (device_request host id) hs
      ≡ write_response (get_device format id h u) (cors_header hs)
unfolding signal_handler cors_middleware serve_mux names_subtree find_route match_path match_method
signal_handler-get_device format h u sm cfg websocket host id hs ne dot dots other =
    ground (arith, device_request-clean host id dot dots, other, string_eq.beq_iff id "")

-- ===== src/Signal/Server/Routes/Tests.antt =====
-- The signal server over HTTP at concrete inputs, and the theorem at an input that meets its
-- hypotheses.
use cloudbridge.Common.{ℕ, ◌≡◌, refl, true, false, none, [], ◌∷◌, String}
use cloudbridge.Http.{
  Request, Handler, text, is_clean, needs_cleaning, serve_mux, names_subtree, find_route,
  match_path, match_method,
}
use cloudbridge.Signal.Client.{Heap}
use cloudbridge.Signal.Hub.{new_hub}
use cloudbridge.Signal.Sessions.{Session, closed, new_session_manager}
use cloudbridge.Signal.Server.Routes.{
  default_config, with_interval, cors_middleware, signal_handler,
}

abbrev clients : Heap
clients p = record { id = "cl-1"; is_agent = true; device_id = ""; send = []; closed = false }

abbrev no_sessions : ℕ → Session
no_sessions s = record {
  id = "";
  initiator = 0;
  responder = none;
  device_id = "";
  protocols = none;
  created_at = 0;
  status = closed;
}

abbrev noon : ℕ → String
noon t = "noon"

abbrev upgrades : Handler
upgrades r hs = record { header = hs; status = 101; body = text "" }

abbrev fresh_server : Handler
fresh_server =
    signal_handler noon clients new_hub (new_session_manager no_sessions) default_config upgrades

abbrev ask : String → String → Request
ask method path = record { method = method; host = "host"; path = path ∷ [] }

answers_health : (fresh_server (ask "GET" "health") []).body ≡ text "ok"
unfolding signal_handler cors_middleware serve_mux needs_cleaning is_clean names_subtree find_route
    match_path match_method
answers_health = refl

answers_options : (fresh_server (ask "OPTIONS" "health") []).status ≡ 204
unfolding signal_handler cors_middleware
answers_options = refl

upgrades_signal : (fresh_server (ask "GET" "signal") []).status ≡ 101
unfolding signal_handler cors_middleware serve_mux needs_cleaning is_clean names_subtree find_route
    match_path match_method
upgrades_signal = refl

knows_no_method :
    (fresh_server
      (record { method = "POST"; host = ""; path = "api" ∷ "v1" ∷ "stats" ∷ [] })
      []).status
    ≡ 405
unfolding signal_handler cors_middleware serve_mux needs_cleaning is_clean names_subtree find_route
    match_path match_method
knows_no_method = refl

-- A wildcard matches no empty segment.
knows_no_empty_id :
    (fresh_server
      (record { method = "GET"; host = ""; path = "api" ∷ "v1" ∷ "devices" ∷ "" ∷ [] })
      []).status
    ≡ 404
unfolding signal_handler cors_middleware serve_mux needs_cleaning is_clean names_subtree find_route
    match_path match_method
knows_no_empty_id = refl

fills_interval : with_interval (record default_config { heartbeat_interval = 0 }) ≡ default_config
fills_interval = refl

-- ===== src/Programs/Gateway/Tests.antt =====
-- The gateway at concrete inputs, and the theorems at inputs that meet their hypotheses.
use cloudbridge.Common.{
  ℕ, ◌≡◌, refl, true, false, none, some, Option, [], ◌∷◌, String, string_eq, ne_of_beq,
}
use cloudbridge.Common.Map.{lookup}
use cloudbridge.Http.{
  Request, Handler, is_clean, needs_cleaning, moved_permanently, serve_mux, text, json, match_path,
}
use cloudbridge.Signal.Client.{Heap}
use cloudbridge.Signal.Hub.{new_hub}
use cloudbridge.Signal.Hub.Invariant.{new_hub-IsWellFormed}
use cloudbridge.Signal.Sessions.{Session, SessionManager, closed, new_session_manager}
use cloudbridge.Api.{device_not_found}
use cloudbridge.Signal.Server.Routes.{default_config, signal_handler}
use cloudbridge.Signal.Server.Routes.Devices.{device_request}
use cloudbridge.Programs.Gateway.{env_or, gateway_header, signal_proxy, gateway}
use cloudbridge.Programs.Gateway.Targets.{gateway_lem}
use cloudbridge.Programs.Gateway.Cors.{gateway-get_device}

abbrev clients : Heap
clients p = record { id = "cl-1"; is_agent = true; device_id = ""; send = []; closed = false }

abbrev no_sessions : ℕ → Session
no_sessions s = record {
  id = "";
  initiator = 0;
  responder = none;
  device_id = "";
  protocols = none;
  created_at = 0;
  status = closed;
}

abbrev noon : ℕ → String
noon t = "noon"

abbrev upgrades : Handler
upgrades r hs = record { header = hs; status = 101; body = text "" }

abbrev files : Handler
files r hs = record { header = hs; status = 200; body = text "index" }

abbrev manager : SessionManager
manager = new_session_manager no_sessions

abbrev signals : Handler
signals = signal_handler noon clients new_hub manager default_config upgrades

abbrev front : Handler
front = gateway "localhost" signals files

abbrev stats : Request
stats = record { method = "GET"; host = "web"; path = "api" ∷ "v1" ∷ "stats" ∷ [] }

abbrev environment : String → Option String
environment key = some ""

abbrev dots : Request
dots = record { method = "GET"; host = "web"; path = "api" ∷ ".." ∷ "x" ∷ [] }

-- Without the header that the gateway sets.
cleans : front dots [] ≡ moved_permanently []
unfolding gateway serve_mux needs_cleaning is_clean
cleans = refl

default_address : env_or environment "ADDR" ":10990" ≡ ":10990"
default_address = refl

gateway_lem_example : front stats [] ≡ signal_proxy "localhost" signals stats (gateway_header [])
unfolding needs_cleaning is_clean
gateway_lem_example =
    gateway_lem "localhost" signals files stats "api" ("v1" ∷ "stats" ∷ []) [] refl

gateway-get_device_example :
    let reply = front (device_request "web" "dev-1") [] in
    (reply.status ≡ 404) × (reply.body ≡ json (device_not_found "dev-1").body)
unfolding match_path lookup
gateway-get_device_example =
    gateway-get_device noon clients new_hub manager default_config upgrades files "localhost" "web"
      "dev-1" [] (ne_of_beq "dev-1" "" refl) (ne_of_beq "dev-1" "." refl)
      (ne_of_beq "dev-1" ".." refl) refl (new_hub-IsWellFormed clients)

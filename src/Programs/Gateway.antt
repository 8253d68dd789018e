-- ===== src/Programs/Gateway.antt =====
-- cmd/webproxy/main.go: the web gateway.
pub mod Targets
pub mod Cors
mod Tests
use cloudbridge.Common.{
  true, false, List, [], ◌∷◌, String, string_eq, ◌==◌, Option, none, some, if◌then◌else◌,
}
use cloudbridge.Http.{
  Request, Header, Reply, Handler, Route, literal, set_header, serve_mux, reverse_proxy, no_body,
}

-- `envOr`: an empty variable counts as none.
abbrev pub env_or : (String → Option String) → String → String → String
env_or environment key fallback = elim (environment key) [
  | none ↦ fallback
  | some v ↦ if v == "" then fallback else v
]

abbrev pub gateway_header : Header → Header
gateway_header hs = set_header "Access-Control-Allow-Headers" "Content-Type, Authorization" (
    set_header "Access-Control-Allow-Methods" "GET, POST, OPTIONS, PUT, DELETE"
      (set_header "Access-Control-Allow-Origin" "*" hs))

unfoldable pub cors_handler : Handler → Handler
cors_handler next r hs =
    let hs' = gateway_header hs in
    if r.method == "OPTIONS"
    then record { header = hs'; status = 204; body = no_body }
    else next r hs'

-- The proxy to the signal server, whose address has no path, with the director that sets the host.
abbrev pub signal_proxy : String → Handler → Handler
signal_proxy signal_host upstream = reverse_proxy (λ r. record r { host = signal_host }) upstream

abbrev pub gateway_routes : String → Handler → Handler → List Route
gateway_routes signal_host upstream file_server =
    let proxy = cors_handler (signal_proxy signal_host upstream) in
    record { method = none; segments = literal "api" ∷ []; subtree = true; handler = λ vs. proxy }
    ∷ record {
      method = none;
      segments = literal "health" ∷ [];
      subtree = false;
      handler = λ vs. proxy;
    }
    ∷ record {
      method = none;
      segments = literal "signal" ∷ [];
      subtree = false;
      handler = λ vs. proxy;
    }
    ∷ record { method = none; segments = []; subtree = true; handler = λ vs. file_server }
    ∷ []

-- `main`: what the gateway serves, in front of the signal server at `upstream`.
unfoldable pub gateway : String → Handler → Handler → Handler
gateway signal_host upstream file_server =
    serve_mux (gateway_routes signal_host upstream file_server)

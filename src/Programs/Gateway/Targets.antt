-- ===== src/Programs/Gateway/Targets.antt =====
-- cmd/webproxy/main.go: where the gateway sends a request.
use cloudbridge.Common.{◌≡◌, List, [], ◌∷◌, String, string_eq, ◌==◌, if◌then◌else◌, arith}
use cloudbridge.Http.{
  Request, Header, Handler, needs_cleaning, moved_permanently, serve_mux, find_route, names_subtree,
  match_path, match_method, no_body,
}
use cloudbridge.Programs.Gateway.{gateway_header, cors_handler, signal_proxy, gateway}

-- What the gateway does with a path: it redirects, asks the signal server, or serves a file.
pub data Target : Type 0 where
  redirect signal_server file : Target

abbrev pub target : String → List String → Target
target x [] =
    if x == "api"
    then redirect
    else if x == "health"
    then signal_server
    else if x == "signal"
    then signal_server
    else file
target x (y ∷ ys) = if x == "api" then signal_server else file

module _ (signal_host : String) (upstream files : Handler) where
  -- The signal server is not asked for OPTIONS.
  abbrev pub answer : Target → Handler
  answer redirect r hs = moved_permanently hs
  answer signal_server r hs =
      if r.method == "OPTIONS"
      then record { header = gateway_header hs; status = 204; body = no_body }
      else signal_proxy signal_host upstream r (gateway_header hs)
  answer file r hs = files r hs

  -- For every request, whose path has a segment `x`, maybe empty, and then `xs`: the gateway
  -- redirects a path that is not clean, unless the method is CONNECT, and "/api" to "/api/"; it asks the signal server, or answers OPTIONS itself, for the paths
  -- under "/api/" and for "/health" and "/signal"; and it leaves all else to the file server.
  pub gateway_lem :
      (r : Request) (x : String) (xs : List String) (hs : Header)
      → r.path ≡ x ∷ xs
      → gateway signal_host upstream files r hs
        ≡ answer (if needs_cleaning r then redirect else target x xs) r hs
  unfolding gateway cors_handler serve_mux names_subtree find_route match_path match_method
  gateway_lem r x [] hs e = ground (arith, e)
  gateway_lem r x (y ∷ ys) hs e = ground (arith, e)

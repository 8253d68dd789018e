-- ===== src/Programs/Gateway/Cors.antt =====
-- cmd/webproxy/main.go with the signal server: what a browser gets through the gateway.
use cloudbridge.Common.{
  ℕ, ◌≡◌, ◌≢◌, refl, ◌∙◌, List, [], ◌∷◌, String, string_eq, ne_of_beq, false, none, arith,
}
use cloudbridge.Http.{Request, Header, Handler, needs_cleaning, match_path, reverse_proxy, json}
use cloudbridge.Common.Map.{lookup}
use cloudbridge.Signal.Client.{Heap}
use cloudbridge.Signal.Hub.{Hub}
use cloudbridge.Signal.Hub.Invariant.{IsWellFormed}
use cloudbridge.Signal.Sessions.{SessionManager}
use cloudbridge.Api.Device.{device_answer, get_device_lem}
use cloudbridge.Signal.Server.Routes.{ServerConfig, literals, signal_handler}
use cloudbridge.Signal.Server.Routes.Devices.{
  device_request, device_request-clean, signal_handler-get_device,
}
use cloudbridge.Programs.Gateway.Targets.{gateway_lem}
use cloudbridge.Programs.Gateway.{gateway_header, signal_proxy, gateway}

-- A request under "/api/" that is no OPTIONS is the signal server's to answer.
proxied :
    (signal_host : String) (upstream files : Handler) (r : Request) (x : String) (xs : List String)
    (hs : Header)
    → r.path ≡ "api" ∷ x ∷ xs
    → needs_cleaning r ≡ false
    → r.method ≢ "OPTIONS"
    → gateway signal_host upstream files r hs
      ≡ signal_proxy signal_host upstream r (gateway_header hs)
proxied signal_host upstream files r x xs hs e c n =
    gateway_lem signal_host upstream files r "api" (x ∷ xs) hs e
    ∙ ground (arith, c, string_eq.beq_iff r.method "OPTIONS")

module _ (format : ℕ → String) (h : Heap) (u : Hub) (sm : SessionManager) where
  -- A GET of a device through the gateway, on a well-formed hub, whose ID is neither empty nor "." or
  -- "..", and where the signal server's own path is not that device's: the answer is the hub's entry for the device with status 200, or 404 where it has none.
  pub gateway-get_device :
      (cfg : ServerConfig) (websocket files : Handler) (signal_host host id : String) (hs : Header)
      → id ≢ ""
      → id ≢ "."
      → id ≢ ".."
      → match_path (literals cfg.path) false (device_request host id).path ≡ none
      → IsWellFormed h u
      → let reply =
          gateway signal_host
            (signal_handler format h u sm cfg websocket)
            files
            (device_request host id)
            hs in
        let a = device_answer format id (lookup id u.devices) in
        (reply.status ≡ a.status) × (reply.body ≡ json a.body)
  unfolding reverse_proxy
  gateway-get_device cfg websocket files signal_host host id hs ne dot dots other w =
      let upstream = signal_handler format h u sm cfg websocket in
      let there =
        proxied signal_host upstream files (device_request host id) "v1" ("devices" ∷ id ∷ []) hs
          refl (device_request-clean host id dot dots) (ne_of_beq "GET" "OPTIONS" refl) in
      let here =
        signal_handler-get_device format h u sm cfg websocket signal_host id [] ne dot dots other in
      rw (there, here, get_device_lem format id h u w ne) (refl, refl)

-- ===== src/Signal/Hub/Tests.antt =====
-- hub.go at concrete inputs, and the theorems at inputs that meet their hypotheses.
use cloudbridge.Protocol.Json.{num}
use cloudbridge.Common.{
  ◌≡◌, ◌≢◌, refl, String, true, false, [], ◌∷◌, string_eq, ne_of_beq, err, ◌>>=◌, inl,
}
use cloudbridge.Common.Map.{lookup, insert}
use cloudbridge.Signal.Client.{Client, Heap, Message, send_on_closed_channel}
use cloudbridge.Signal.Hub.{
  DeviceInfo, Hub, new_hub, unregister_client, register_device, update_heartbeat, route_to_device,
  list_devices,
}
use cloudbridge.Signal.Hub.Invariant.{MayRegister}
use cloudbridge.Signal.Hub.Histories.{
  State, state, Reach, here, next, registers, beats, Reach-route_to_device,
}
use cloudbridge.Signal.Hub.Registry.{view, beat, enter, empty_registry, to_owner}
use cloudbridge.Signal.Hub.Refinement.{Reach-replay}
use cloudbridge.Signal.Hub.Stale.{register_device_twice-stale}

abbrev agent : Client
agent = record { id = "cl-1"; is_agent = true; device_id = ""; send = []; closed = false }

-- Every pointer leads to such an agent.
abbrev agents : Heap
agents p = agent

abbrev laptop : DeviceInfo
laptop = record {
  id = "dev-1";
  name = "laptop";
  platform = "linux";
  version = "0.1.0";
  public_key = "";
  registered = 0;
  last_seen = 0;
}

abbrev desktop : DeviceInfo
desktop = record laptop { id = "dev-2" }

may_register : MayRegister agents 4 laptop
may_register = record {
  agent = refl;
  connected = refl;
  same_device = inl refl;
  named = ne_of_beq "dev-1" "" refl;
}

-- A second registration keeps the time of the first.
register_again :
    list_devices
      (register_device 5 laptop 20 21 agents (register_device 4 laptop 10 11 agents new_hub).1).1
    ≡ record laptop { registered = 10; last_seen = 21 } ∷ []
unfolding list_devices register_device lookup insert
register_again = refl

Reach-route_to_device_example :
    route_to_device "dev-1"
      (num 7)
      (register_device 4 laptop 10 11 agents new_hub).0
      (register_device 4 laptop 10 11 agents new_hub).1
    ≢ err send_on_closed_channel
Reach-route_to_device_example =
    Reach-route_to_device agents "dev-1" (num 7) send_on_closed_channel
      (next here (registers 4 laptop 10 11 may_register))

-- The laptop is registered and seen again.
abbrev registered : State
registered = state (register_device 4 laptop 10 11 agents new_hub)

abbrev seen : State
seen = record registered { hub = update_heartbeat "dev-1" 30 registered.hub }

abbrev seen_reached : Reach (record { heap = agents; hub = new_hub }) seen
seen_reached = next (next here (registers 4 laptop 10 11 may_register)) (beats "dev-1" 30)

Reach-replay_example :
    (view seen.hub ≡ beat "dev-1" 30 (enter 4 laptop 10 11 empty_registry))
    × ((d : String) (msg : Message)
        → route_to_device d msg seen.heap seen.hub
          ≡ to_owner (beat "dev-1" 30 (enter 4 laptop 10 11 empty_registry) d) msg seen.heap)
Reach-replay_example = Reach-replay agents (λ p. refl) seen_reached

-- An agent that registered under the empty ID.
nameless : Hub
nameless = record new_hub { by_device = ("", 4) ∷ [] }

register_device_twice-stale_example :
    let (h1, u1) = register_device 4 laptop 10 11 agents new_hub in
    let (h2, u2) = register_device 4 desktop 10 11 h1 u1 in
    (unregister_client 4 h2 u2 >>= λ (h, u). route_to_device "dev-1" (num 7) h u)
    ≡ err send_on_closed_channel
register_device_twice-stale_example =
    register_device_twice-stale agents new_hub 4 laptop desktop 10 11 (num 7) refl
      (ne_of_beq "dev-1" "dev-2" refl)

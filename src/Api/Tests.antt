-- ===== src/Api/Tests.antt =====
-- device.go at concrete inputs, and the theorem at an input that meets its hypotheses.
use cloudbridge.Common.{
  ne_of_beq, ℕ, ◌≡◌, refl, true, false, [], ◌∷◌, String, string_eq, none, some, Result, ok, err,
}
use cloudbridge.Common.Map.{Map, lookup, insert}
use cloudbridge.Protocol.Json.{Json}
use cloudbridge.Protocol.Messages.{
  encode, unmarshal_envelope, marshal_register, unmarshal_register, marshal_register_ack,
}
use cloudbridge.Signal.Client.{Heap, Panic, try_send}
use cloudbridge.Signal.Hub.Registration.{first_registered}
use cloudbridge.Signal.Hub.{
  DeviceInfo, new_hub, register_client, register_device, prepare, release_device,
}
use cloudbridge.Signal.Sessions.{Session, closed}
use cloudbridge.Signal.Handler.{
  World, handle_message, dispatch, handle_register, note_device, reply,
}
use cloudbridge.Signal.Server.{
  ServerState, new_server, new_client, connected, Reach, connects, handles, here, next,
}
use cloudbridge.Api.Device.{get_device-second}
use cloudbridge.Api.{write_json, device_response, device_not_found, get_device}

abbrev clients : Heap
clients p = record { id = ""; is_agent = false; device_id = ""; send = []; closed = false }

abbrev cells : ℕ → Session
cells s = record {
  id = "";
  initiator = 0;
  responder = none;
  device_id = "";
  protocols = none;
  created_at = 0;
  status = closed;
}

abbrev noon : ℕ → String
noon t = "noon"

no_device : get_device noon "dev-1" clients new_hub ≡ device_not_found "dev-1"
unfolding get_device lookup
no_device = refl

abbrev registration : String → Json
registration id = encode "register" (
    marshal_register (record {
      device_id = id;
      device_name = "box";
      platform = "linux";
      version = "0.1.0";
      public_key = "";
    }))

abbrev or_same : World → Result Panic World → World
or_same w (ok w') = w'
or_same w (err x) = w

abbrev registered : ℕ → String → ServerState → ServerState
registered p id s = record s {
  world = or_same s.world (handle_message p (some (registration id)) 5 6 s.world);
}

-- Two agents, each with a device.
abbrev one : ServerState
one = registered 0 "dev-1" (connected 0 (new_client "1" true) (new_server clients cells))

abbrev two : ServerState
two = registered 1 "dev-2" (connected 1 (new_client "2" true) one)

two_reached : Reach (new_server clients cells) two
unfolding handle_message dispatch handle_register note_device reply try_send encode register_device
    prepare release_device unmarshal_envelope marshal_register unmarshal_register
    marshal_register_ack register_client lookup insert
two_reached =
    next
      (next
        (next (next here (connects 0 "1" true refl))
          (handles 0 (some (registration "dev-1")) 5 6 one.world refl refl))
        (connects 1 "2" true refl))
      (handles 1 (some (registration "dev-2")) 5 6 two.world refl refl)

abbrev device : String → DeviceInfo
device id = record {
  id = id;
  name = "box";
  platform = "linux";
  version = "0.1.0";
  public_key = "";
  registered = 5;
  last_seen = 6;
}

abbrev two_entries : Map String DeviceInfo
two_entries = ("dev-1", device "dev-1") ∷ ("dev-2", device "dev-2") ∷ []

two_devices : two.world.hub.devices ≡ two_entries
unfolding handle_message dispatch handle_register note_device reply try_send encode register_device
    prepare release_device unmarshal_envelope marshal_register unmarshal_register
    marshal_register_ack register_client lookup insert
two_devices = refl

get_device-second_example :
    let (h1, u1) = register_device 0 (device "dev-1") 1 2 clients new_hub in
    let (h2, u2) = register_device 0 (device "dev-2") 3 4 h1 u1 in
    get_device noon "dev-1" h2 u2
    ≡ write_json 200 (
        device_response noon (record (device "dev-2") {
          registered = first_registered (lookup "dev-2" u1.devices) 3;
          last_seen = 4;
        }))
get_device-second_example =
    get_device-second noon 0 (device "dev-1") (device "dev-2") 1 2 3 4 clients new_hub
      (ne_of_beq "dev-1" "dev-2" refl) (ne_of_beq "dev-1" "" refl) (ne_of_beq "dev-2" "" refl)

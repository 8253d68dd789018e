-- ===== src/Signal/Hub.antt =====
-- internal/signal/hub.go: the registry of clients and devices. A lock makes each method one step.
-- The time that a method reads is an argument.
pub mod Invariant
pub mod Histories
pub mod Registration
pub mod Stale
pub mod Registry
pub mod Owners
pub mod Refinement
mod Tests
use cloudbridge.Common.{
  ℕ, ◌≡◌, Bool, true, false, List, [], ◌∷◌, String, ◌==◌, string_eq, not, ◌&&◌, if◌then◌else◌,
  Option, none, some, map, Result, ok, err, ◌>>=◌,
}
use cloudbridge.Common.Map.{Map, lookup, insert, delete}
use cloudbridge.Signal.Client.{Client, Heap, Message, Panic, store, try_send, close_send}

pub record DeviceInfo : Type 0 where
  pub id : String
  pub name : String
  pub platform : String
  pub version : String
  pub public_key : String
  pub registered : ℕ
  pub last_seen : ℕ

pub record Hub : Type 0 where
  pub clients : Map String ℕ
  pub devices : Map String DeviceInfo
  pub by_device : Map String ℕ

abbrev pub new_hub : Hub
new_hub = record { clients = []; devices = []; by_device = [] }

unfoldable pub register_client : ℕ → Heap → Hub → Hub
register_client p h u = record u { clients = insert (h p).id p u.clients }

-- `if c.IsAgent && c.DeviceID != "" { delete(h.byDevice, ...); delete(h.devices, ...) }`
unfoldable pub drop_device : Client → Hub → Hub
drop_device c u =
    if c.is_agent && not (c.device_id == "")
    then record u {
      devices = delete c.device_id u.devices;
      by_device = delete c.device_id u.by_device;
    }
    else u

unfoldable pub unregister_client : ℕ → Heap → Hub → Result Panic (Heap × Hub)
unfolding drop_device close_send
unregister_client p h u = do
  let c = h p
  let u' = drop_device c (record u { clients = delete c.id u.clients })
  h' ← close_send p h
  ok (h', u')

-- `oldClient.DeviceID = ""`, where the device has a client.
unfoldable pub release_device : Option ℕ → Heap → Heap
release_device none h = h
release_device (some old) h = store old (record (h old) { device_id = "" }) h

-- A known device keeps the time of its first registration, and its old client loses it.
unfoldable pub prepare : Option DeviceInfo → DeviceInfo → Option ℕ → ℕ → Heap → DeviceInfo × Heap
prepare none info old now h = (record info { registered = now }, h)
prepare (some existing) info old now h =
    (record info { registered = existing.registered }, release_device old h)

-- `now` is the time of a new registration, `later` that of the last sight.
unfoldable pub register_device : ℕ → DeviceInfo → ℕ → ℕ → Heap → Hub → Heap × Hub
unfolding prepare release_device
register_device p info now later h u =
    let (info', h') = prepare (lookup info.id u.devices) info (lookup info.id u.by_device) now h in
    (
      store p (record (h' p) { device_id = info.id }) h',
      record u {
        devices = insert info.id (record info' { last_seen = later }) u.devices;
        by_device = insert info.id p u.by_device;
      },
    )

unfoldable pub update_heartbeat : String → ℕ → Hub → Hub
update_heartbeat d now u = elim (lookup d u.devices) [
  | none ↦ u
  | some dev ↦ record u { devices = insert d (record dev { last_seen = now }) u.devices }
]

unfoldable pub find_device_by_client : ℕ → Heap → Hub → Option DeviceInfo
find_device_by_client p h u =
    if (h p).device_id == "" then none else lookup (h p).device_id u.devices

unfoldable pub find_client_by_device : String → Hub → Option ℕ
find_client_by_device d u = lookup d u.by_device

-- In the order of the map's entries; Go's order is not determined.
unfoldable pub list_devices : Hub → List DeviceInfo
list_devices u = map (λ (e : String × DeviceInfo). e.1) u.devices

-- A missing entry is answered by false.
unfoldable pub route : Option ℕ → Message → Heap → Result Panic (Bool × Heap)
unfolding try_send
route none msg h = ok (false, h)
route (some p) msg h = try_send p msg h

unfoldable pub route_to_device : String → Message → Heap → Hub → Result Panic (Bool × Heap)
unfolding route
route_to_device d msg h u = route (lookup d u.by_device) msg h

unfoldable pub route_to_client : String → Message → Heap → Hub → Result Panic (Bool × Heap)
unfolding route
route_to_client id msg h u = route (lookup id u.clients) msg h

-- ===== src/Signal/Hub/Registry.antt =====
-- hub.go, abstractly: the registry of devices as a map from an ID to a device and its client, with
-- neither the order of entries nor the two maps and the field in which the hub keeps it.
use cloudbridge.Common.{
  ℕ, Bool, false, nat_eq, String, ◌==◌, string_eq, if◌then◌else◌, Option, none, some, Result, ok,
}
use cloudbridge.Common.Map.{lookup}
use cloudbridge.Signal.Client.{Heap, Message, Panic, try_send}
use cloudbridge.Signal.Hub.{DeviceInfo, Hub}
use cloudbridge.Signal.Hub.Histories.{
  State, Step, connects, registers, beats, routes, takes, disconnects, Reach, here, next,
}

pub record Entry : Type 0 where
  pub info : DeviceInfo
  pub owner : ℕ

abbrev pub Registry : Type 0
Registry = String → Option Entry

abbrev pub empty_registry : Registry
empty_registry d = none

-- What the hub holds for a device.
abbrev pub entry_of : Option DeviceInfo → Option ℕ → Option Entry
entry_of none owner = none
entry_of (some i) none = none
entry_of (some i) (some p) = some (record { info = i; owner = p })

abbrev pub view : Hub → Registry
view u d = entry_of (lookup d u.devices) (lookup d u.by_device)

abbrev pub first_seen : Option Entry → ℕ → ℕ
first_seen none now = now
first_seen (some e) now = e.info.registered

-- Client `p` becomes the owner of the device, and of no other; the first time stays.
abbrev pub enter : ℕ → DeviceInfo → ℕ → ℕ → Registry → Registry
enter p info now later v d =
    if info.id == d
    then some (record {
      info = record info { registered = first_seen (v d) now; last_seen = later };
      owner = p;
    })
    else v d

abbrev pub unless_owned : ℕ → Option Entry → Option Entry
unless_owned p none = none
unless_owned p (some e) = if nat_eq e.owner p then none else some e

-- Every device of client `p` goes.
abbrev pub leave : ℕ → Registry → Registry
leave p v d = unless_owned p (v d)

abbrev pub sighted : ℕ → Option Entry → Option Entry
sighted now none = none
sighted now (some e) = some (record e { info = record e.info { last_seen = now } })

abbrev pub beat : String → ℕ → Registry → Registry
beat d now v k = if d == k then sighted now (v k) else v k

-- What a step of the hub is for the registry.
abbrev pub change : {s t : State} → Step s t → Registry → Registry
change (connects p c f) v = v
change (registers p info now later m) v = enter p info now later v
change (beats d now) v = beat d now v
change (routes d msg sent h e) v = v
change (takes p msg rest e) v = v
change (disconnects p h u o e) v = leave p v

abbrev pub replay : {s t : State} → Reach s t → Registry → Registry
replay here v = v
replay (next r st) v = change st (replay r v)

-- A message to a device goes to its owner.
abbrev pub to_owner : Option Entry → Message → Heap → Result Panic (Bool × Heap)
to_owner none msg h = ok (false, h)
to_owner (some e) msg h = try_send e.owner msg h

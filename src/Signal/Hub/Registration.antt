-- ===== src/Signal/Hub/Registration.antt =====
-- hub.go: what a registration has done.
use cloudbridge.Common.{
  ℕ, ◌≡◌, ◌≢◌, refl, String, string_eq, ◌==◌, nat_eq_iff, if◌then◌else◌, Option, none, some, arith,
}
use cloudbridge.Common.Map.{lookup, lookup-insert, lookup-insert_self}
use cloudbridge.Signal.Client.{Heap}
use cloudbridge.Signal.Hub.{
  DeviceInfo, Hub, prepare, release_device, register_device, find_client_by_device,
  find_device_by_client,
}

-- The time of the first registration that the hub knows of.
unfoldable pub first_registered : Option DeviceInfo → ℕ → ℕ
first_registered none now = now
first_registered (some existing) now = existing.registered

prepare_info :
    (known : Option DeviceInfo) (info : DeviceInfo) (old : Option ℕ) (now : ℕ) (h : Heap)
    → (prepare known info old now h).0 ≡ record info { registered = first_registered known now }
unfolding prepare first_registered
prepare_info none info old now h = refl
prepare_info (some e) info old now h = refl

-- After a registration the device is found by the client and the client by the device, with the
-- time of the device's first registration and the new last sight; other devices are as before.
pub register_device_lem :
    (p : ℕ) (info : DeviceInfo) (now later : ℕ) (h : Heap) (u : Hub)
    → info.id ≢ ""
    → let (h', u') = register_device p info now later h u in
      (find_client_by_device info.id u' ≡ some p)
      × (find_device_by_client p h' u'
          ≡ some (record info {
            registered = first_registered (lookup info.id u.devices) now;
            last_seen = later;
          }))
      × ((d : String)
          → find_client_by_device d u'
            ≡ (if info.id == d then some p else find_client_by_device d u))
unfolding register_device find_client_by_device find_device_by_client
register_device_lem p info now later h u named =
    let i = (prepare (lookup info.id u.devices) info (lookup info.id u.by_device) now h).0 in
    (
      lookup-insert_self info.id p u.by_device,
      ground (
        arith,
        nat_eq_iff p p,
        named,
        string_eq.beq_iff info.id "",
        lookup-insert_self info.id (record i { last_seen = later }) u.devices,
        prepare_info (lookup info.id u.devices) info (lookup info.id u.by_device) now h,
      ),
      λ d. lookup-insert info.id d p u.by_device,
    )

-- The agent that had a registered device before has no device any more, unless it is the one that
-- registers.
pub register_device-old_client :
    (p old : ℕ) (info known : DeviceInfo) (now later : ℕ) (h : Heap) (u : Hub)
    → lookup info.id u.devices ≡ some known
    → lookup info.id u.by_device ≡ some old
    → p ≢ old
    → ((register_device p info now later h u).0 old).device_id ≡ ""
unfolding register_device prepare release_device
register_device-old_client p old info known now later h u e f n =
    ground (arith, e, f, nat_eq_iff p old, nat_eq_iff old old)

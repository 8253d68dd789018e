-- ===== src/Signal/Hub/Invariant.antt =====
-- hub.go: what stays true of the devices and their clients while clients connect, register, send
-- heartbeats and disconnect.
use cloudbridge.Common.{
  ◌↔◌, ℕ, ◌≡◌, ◌≢◌, refl, true, false, String, string_eq, nat_eq_iff, Option, none, some, ok, err,
  arith, Option-cases, inl, inr, ◌⊎◌,
}
use cloudbridge.Common.Map.{lookup, insert, delete, lookup-insert, lookup-delete}
use cloudbridge.Signal.Client.{Heap, Message, Panic, store, try_send, close_send}
use cloudbridge.Signal.Hub.{
  DeviceInfo, Hub, new_hub, register_client, drop_device, unregister_client, prepare,
  release_device, register_device, update_heartbeat, route, route_to_device,
}

-- A device's client is an agent with an open channel that carries the device's ID; devices and
-- their clients are registered together; a device is filed under its own ID.
pub record IsWellFormed (h : Heap) (u : Hub) : Type 0 where
  pub owned :
      (d : String) (p : ℕ)
      → lookup d u.by_device ≡ some p
      → ((h p).device_id ≡ d) × ((h p).closed ≡ false) × ((h p).is_agent ≡ true) × (d ≢ "")
  pub paired : (d : String) → (lookup d u.by_device ≡ none) ↔ (lookup d u.devices ≡ none)
  pub filed : (d : String) (i : DeviceInfo) → lookup d u.devices ≡ some i → i.id ≡ d

pub new_hub-IsWellFormed : (h : Heap) → IsWellFormed h new_hub
unfolding lookup
new_hub-IsWellFormed h = record {
  owned = λ d p e. cc;
  paired = λ d. (λ e. refl, λ e. refl);
  filed = λ d i e. cc;
}

-- What an agent must be to register a device: connected, with no device or this one. The device
-- has a name.
pub record MayRegister (h : Heap) (p : ℕ) (info : DeviceInfo) : Type 0 where
  pub agent : (h p).is_agent ≡ true
  pub connected : (h p).closed ≡ false
  pub same_device : ((h p).device_id ≡ "") ⊎ ((h p).device_id ≡ info.id)
  pub named : info.id ≢ ""

-- A second registration of a device takes the ID off its old client, and nothing else changes.
pub prepare_heap :
    (known : Option DeviceInfo) (info : DeviceInfo) (old : Option ℕ) (now : ℕ) (h : Heap) (q : ℕ)
    → let h' = (prepare known info old now h).1 in
      ((h' q).closed ≡ (h q).closed)
      × ((h' q).is_agent ≡ (h q).is_agent)
      × (((h' q).device_id ≡ (h q).device_id) ⊎ (old ≡ some q))
unfolding prepare release_device
prepare_heap none info old now h q = ground arith
prepare_heap (some e) info none now h q = ground arith
prepare_heap (some e) info (some o) now h q = ground (arith, nat_eq_iff o q)

prepare_same :
    (known : Option DeviceInfo) (info : DeviceInfo) (old : Option ℕ) (now : ℕ) (h : Heap) (q : ℕ)
    → let h' = (prepare known info old now h).1 in
      ((h' q).id ≡ (h q).id) × ((h' q).closed ≡ (h q).closed)
unfolding prepare release_device
prepare_same none info old now h q = (refl, refl)
prepare_same (some e) info none now h q = (refl, refl)
prepare_same (some e) info (some o) now h q = ground (arith, nat_eq_iff o q)

-- A registration leaves the IDs and the channels of all clients alone.
pub register_device_same :
    (p : ℕ) (info : DeviceInfo) (now later : ℕ) (h : Heap) (u : Hub) (q : ℕ)
    → let h' = (register_device p info now later h u).0 in
      ((h' q).id ≡ (h q).id) × ((h' q).closed ≡ (h q).closed)
unfolding register_device
register_device_same p info now later h u q =
    let same = prepare_same (lookup info.id u.devices) info (lookup info.id u.by_device) now h in
    ground (arith, nat_eq_iff p q, same p, same q)

prepare_id :
    (known : Option DeviceInfo) (info : DeviceInfo) (old : Option ℕ) (now : ℕ) (h : Heap)
    → (prepare known info old now h).0.id ≡ info.id
unfolding prepare
prepare_id none info old now h = refl
prepare_id (some e) info old now h = refl

module _ (h : Heap) (u : Hub) (w : IsWellFormed h u) where
  register_device-owned :
      (p : ℕ) (info : DeviceInfo) (now later : ℕ)
      → MayRegister h p info
      → (d : String) (q : ℕ) → lookup d (register_device p info now later h u).1.by_device ≡ some q
      → let h' = (register_device p info now later h u).0 in
        ((h' q).device_id ≡ d) × ((h' q).closed ≡ false) × ((h' q).is_agent ≡ true) × (d ≢ "")
  unfolding register_device
  register_device-owned p info now later m d q e = ground (
    arith,
    m.agent,
    m.connected,
    m.same_device,
    m.named,
    nat_eq_iff p q,
    prepare_heap (lookup info.id u.devices) info (lookup info.id u.by_device) now h p,
    prepare_heap (lookup info.id u.devices) info (lookup info.id u.by_device) now h q,
    lookup-insert info.id d p u.by_device,
    string_eq.beq_iff info.id d,
    w.owned d q,
    w.owned info.id q,
  )

  -- A registration by such an agent keeps the hub well formed.
  pub register_device-IsWellFormed :
      (p : ℕ) (info : DeviceInfo) (now later : ℕ)
      → MayRegister h p info
      → IsWellFormed
          (register_device p info now later h u).0
          (register_device p info now later h u).1
  register_device-IsWellFormed p info now later m = record {
    owned = register_device-owned p info now later m;
    paired = λ d.
        unfold register_device in
        ground (
          arith,
          lookup-insert info.id d p u.by_device,
          lookup-insert info.id d
              (record (prepare (lookup info.id u.devices) info (lookup info.id u.by_device) now
                h).0 { last_seen = later })
              u.devices,
          w.paired d,
        );
    filed = λ d i e.
        unfold register_device in
        ground (
          arith,
          e,
          lookup-insert info.id d
              (record (prepare (lookup info.id u.devices) info (lookup info.id u.by_device) now
                h).0 { last_seen = later })
              u.devices,
          prepare_id (lookup info.id u.devices) info (lookup info.id u.by_device) now h,
          string_eq.beq_iff info.id d,
          w.filed d i,
        );
  }

  -- The heap and the hub that `unregister_client` leaves.
  abbrev closed_heap : ℕ → Heap
  closed_heap p = store p (record (h p) { closed = true }) h

  abbrev dropped : ℕ → Hub
  dropped p = drop_device (h p) (record u { clients = delete (h p).id u.clients })

  unregister_client-eq :
      (p : ℕ) → (h p).closed ≡ false → unregister_client p h u ≡ ok (closed_heap p, dropped p)
  unfolding unregister_client
  unregister_client-eq p o = rw (o, close_send)

  dropped-IsWellFormed : (p : ℕ) → (h p).closed ≡ false → IsWellFormed (closed_heap p) (dropped p)
  dropped-IsWellFormed p o = record {
    owned = λ d q e.
        unfold drop_device in
        ground (
          arith,
          e,
          lookup-delete (h p).device_id d u.by_device,
          string_eq.beq_iff (h p).device_id d,
          string_eq.beq_iff (h p).device_id "",
          nat_eq_iff p q,
          w.owned d q,
        );
    paired = λ d.
        unfold drop_device in
        ground (
          arith,
          lookup-delete (h p).device_id d u.by_device,
          lookup-delete (h p).device_id d u.devices,
          w.paired d,
        );
    filed = λ d i e.
        unfold drop_device in
        ground (arith, e, lookup-delete (h p).device_id d u.devices, w.filed d i);
  }

  -- The disconnection of a client with an open channel succeeds and keeps the hub well formed.
  pub unregister_client-IsWellFormed :
      (p : ℕ)
      → (h p).closed ≡ false
      → (h' : Heap) × (u' : Hub) × (unregister_client p h u ≡ ok (h', u')) × IsWellFormed h' u'
  unregister_client-IsWellFormed p o =
      (closed_heap p, dropped p, unregister_client-eq p o, dropped-IsWellFormed p o)

  heartbeat_lem :
      (d : String) (now : ℕ) (dev : DeviceInfo)
      → lookup d u.devices ≡ some dev
      → IsWellFormed h (record u { devices = insert d (record dev { last_seen = now }) u.devices })
  heartbeat_lem d now dev e = record {
    owned = w.owned;
    paired = λ k. ground (
      arith,
      e,
      lookup-insert d k (record dev { last_seen = now }) u.devices,
      string_eq.beq_iff d k,
      w.paired k,
    );
    filed = λ k i f. ground (
      arith,
      e,
      f,
      lookup-insert d k (record dev { last_seen = now }) u.devices,
      string_eq.beq_iff d k,
      w.filed d dev,
      w.filed k i,
    );
  }

  pub update_heartbeat-IsWellFormed :
      (d : String) (now : ℕ) → IsWellFormed h (update_heartbeat d now u)
  unfolding update_heartbeat
  update_heartbeat-IsWellFormed d now = elim (Option-cases (lookup d u.devices)) [
    | inl e ↦ rw (e, update_heartbeat) w
    | inr (dev, e) ↦ rw (e, update_heartbeat) (heartbeat_lem d now dev e)
  ]

  -- A new client, with a fresh pointer and its channel open, registers no device.
  pub register_client-IsWellFormed : (p : ℕ) → IsWellFormed h (register_client p h u)
  unfolding register_client
  register_client-IsWellFormed p = record { owned = w.owned; paired = w.paired; filed = w.filed }

  -- A message to a device is sent, dropped or answered by false, and never meets a closed channel.
  pub route_to_device-ne-panic :
      (d : String) (msg : Message) (x : Panic) → route_to_device d msg h u ≢ err x
  unfolding route_to_device route try_send
  route_to_device-ne-panic d msg x e = elim (Option-cases (lookup d u.by_device)) [
    | inl f ↦ ground (arith, e, f)
    | inr (p, f) ↦ ground (arith, e, f, w.owned d p f)
  ]

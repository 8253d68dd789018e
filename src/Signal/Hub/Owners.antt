-- ===== src/Signal/Hub/Owners.antt =====
-- hub.go: what each operation does to the devices and their owners.
use cloudbridge.Common.{
  ℕ, ◌≡◌, ◌≢◌, inl, inr, refl, false, nat_eq_iff, String, string_eq, Option, none, some, ok, arith,
  Option-cases,
}
use cloudbridge.Common.Map.{lookup, lookup-insert, lookup-delete}
use cloudbridge.Signal.Client.{Heap, Message, close_send}
use cloudbridge.Signal.Hub.{
  DeviceInfo, Hub, drop_device, unregister_client, prepare, release_device, register_device,
  update_heartbeat, route, route_to_device,
}
use cloudbridge.Signal.Hub.Invariant.{IsWellFormed}
use cloudbridge.Signal.Hub.Registry.{entry_of, view, enter, leave, beat, first_seen, to_owner}

-- A connected client that has a device's ID in its field owns that device.
abbrev pub IsHeld : Heap → Hub → Type 0
IsHeld h u =
    (p : ℕ)
    → (h p).closed ≡ false
    → (h p).device_id ≢ ""
    → lookup (h p).device_id u.by_device ≡ some p

prepare_view :
    (known : Option DeviceInfo) (info : DeviceInfo) (old : Option ℕ) (now : ℕ) (h : Heap)
    → (known ≡ none → old ≡ none)
    → (old ≡ none → known ≡ none)
    → (prepare known info old now h).0
      ≡ record info { registered = first_seen (entry_of known old) now }
unfolding prepare
prepare_view none info old now h a b = refl
prepare_view (some e) info none now h a b = absurd (ground (arith, b refl))
prepare_view (some e) info (some o) now h a b = refl

prepare_field :
    (known : Option DeviceInfo) (info : DeviceInfo) (old : Option ℕ) (now : ℕ) (h : Heap) (q : ℕ)
    → (known ≡ none → old ≡ none)
    → let h' = (prepare known info old now h).1 in
      ((h' q).closed ≡ (h q).closed)
      × (old ≡ some q → (h' q).device_id ≡ "")
      × (old ≢ some q → (h' q).device_id ≡ (h q).device_id)
unfolding prepare release_device
prepare_field none info old now h q a = (refl, λ e. absurd (ground (arith, a refl, e)), λ e. refl)
prepare_field (some e) info none now h q a = (refl, λ f. absurd (ground (arith, f)), λ f. refl)
prepare_field (some e) info (some o) now h q a = (
  ground (arith, nat_eq_iff o q),
  λ f. ground (arith, f, nat_eq_iff o q),
  λ f. ground (arith, f, nat_eq_iff o q),
)

module _ (h : Heap) (u : Hub) (w : IsWellFormed h u) where
  pub registers_view :
      (p : ℕ) (info : DeviceInfo) (now later : ℕ) (d : String)
      → view (register_device p info now later h u).1 d ≡ enter p info now later (view u) d
  unfolding register_device
  registers_view p info now later d =
      let known = lookup info.id u.devices in
      let old = lookup info.id u.by_device in
      let (a, b) = w.paired info.id in
      ground (
        arith,
        string_eq.beq_iff info.id d,
        lookup-insert info.id d p u.by_device,
        lookup-insert info.id d (record (prepare known info old now h).0 { last_seen = later })
            u.devices,
        prepare_view known info old now h b a,
      )

  pub registers-IsHeld :
      (p : ℕ) (info : DeviceInfo) (now later : ℕ)
      → IsHeld h u
      → IsHeld (register_device p info now later h u).0 (register_device p info now later h u).1
  unfolding register_device
  registers-IsHeld p info now later k q o n =
      let known = lookup info.id u.devices in
      let old = lookup info.id u.by_device in
      ground (
        arith,
        o,
        n,
        nat_eq_iff p q,
        k q,
        prepare_field known info old now h q (w.paired info.id).1,
        string_eq.beq_iff info.id (h q).device_id,
        lookup-insert info.id (h q).device_id p u.by_device,
        lookup-insert info.id info.id p u.by_device,
        string_eq.beq_iff info.id info.id,
      )

  pub left_view :
      (p : ℕ) (k : Heap) (x : Hub) (d : String)
      → IsHeld h u
      → (h p).closed ≡ false
      → unregister_client p h u ≡ ok (k, x)
      → view x d ≡ leave p (view u) d
  unfolding unregister_client drop_device close_send
  left_view p k x d held o e = elim (Option-cases (lookup d u.by_device)) [
    | inl n ↦ ground (
      arith,
      o,
      e,
      n,
      (w.paired d).0 n,
      lookup-delete (h p).device_id d u.by_device,
      lookup-delete (h p).device_id d u.devices,
    )
    | inr (q, f) ↦ ground (
      arith,
      o,
      e,
      f,
      nat_eq_iff q p,
      held p o,
      w.owned d q f,
      string_eq.beq_iff (h p).device_id d,
      string_eq.beq_iff (h p).device_id "",
      lookup-delete (h p).device_id d u.by_device,
      lookup-delete (h p).device_id d u.devices,
    )
  ]

  pub left-IsHeld :
      (p : ℕ) (k : Heap) (x : Hub)
      → IsHeld h u
      → (h p).closed ≡ false
      → unregister_client p h u ≡ ok (k, x)
      → IsHeld k x
  unfolding unregister_client drop_device close_send
  left-IsHeld p k x held o e q c n = ground (
    arith,
    o,
    e,
    c,
    n,
    nat_eq_iff p q,
    held p o,
    held q,
    string_eq.beq_iff (h p).device_id (h q).device_id,
    string_eq.beq_iff (h p).device_id "",
    lookup-delete (h p).device_id (h q).device_id u.by_device,
  )

  pub beaten_view :
      (d : String) (now : ℕ) (k : String)
      → view (update_heartbeat d now u) k ≡ beat d now (view u) k
  unfolding update_heartbeat
  beaten_view d now k = elim (Option-cases (lookup d u.devices)) [
    | inl n ↦ ground (arith, n, string_eq.beq_iff d k)
    | inr (i, f) ↦ elim (Option-cases (lookup k u.by_device)) [
      | inl n ↦ ground (
        arith,
        n,
        f,
        string_eq.beq_iff d k,
        (w.paired k).0 n,
        lookup-insert d k (record i { last_seen = now }) u.devices,
      )
      | inr (q, g) ↦ ground (
        arith,
        f,
        g,
        string_eq.beq_iff d k,
        lookup-insert d k (record i { last_seen = now }) u.devices,
      )
    ]
  ]

  pub routed_view :
      (d : String) (msg : Message) → route_to_device d msg h u ≡ to_owner (view u d) msg h
  unfolding route_to_device route
  routed_view d msg = elim (Option-cases (lookup d u.by_device)) [
    | inl n ↦ ground (arith, n, (w.paired d).0 n)
    | inr (q, f) ↦ elim (Option-cases (lookup d u.devices)) [
      | inl n ↦ absurd (ground (arith, f, (w.paired d).1 n))
      | inr (i, g) ↦ rw (f, g) refl
    ]
  ]

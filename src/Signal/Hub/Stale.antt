-- ===== src/Signal/Hub/Stale.antt =====
-- hub.go: registrations that outlive their client.
use cloudbridge.Common.{
  ℕ, ◌≡◌, ◌≢◌, ◌⊎◌, sym, ◌∙◌, false, String, string_eq, nat_eq_iff, some, err, ◌>>=◌, arith, inl,
}
use cloudbridge.Common.Map.{lookup, insert, lookup-insert, lookup-insert_self, lookup-delete}
use cloudbridge.Signal.Client.{Heap, Message, send_on_closed_channel, try_send, close_send}
use cloudbridge.Signal.Hub.Invariant.{prepare_heap}
use cloudbridge.Signal.Hub.{
  DeviceInfo, Hub, drop_device, unregister_client, register_device, route, route_to_device,
}

-- A device whose client has another ID, or none, in its own field when it disconnects: its entry
-- stays, and the next message to the device is sent on a closed channel.
pub route_to_device-stale :
    (h : Heap) (u : Hub) (d : String) (p : ℕ) (msg : Message)
    → lookup d u.by_device ≡ some p
    → (h p).closed ≡ false
    → ((h p).device_id ≢ d) ⊎ (d ≡ "")
    → (unregister_client p h u >>= λ (h', u'). route_to_device d msg h' u')
      ≡ err send_on_closed_channel
unfolding unregister_client drop_device close_send route_to_device route try_send
route_to_device-stale h u d p msg e o n = ground (
  arith,
  e,
  o,
  n,
  lookup-delete (h p).device_id d u.by_device,
  string_eq.beq_iff (h p).device_id d,
  string_eq.beq_iff (h p).device_id "",
  nat_eq_iff p p,
)

register_device_keeps :
    (p q : ℕ) (info : DeviceInfo) (now later : ℕ) (h : Heap) (u : Hub)
    → ((register_device p info now later h u).0 q).closed ≡ (h q).closed
unfolding register_device
register_device_keeps p q info now later h u = ground (
  arith,
  nat_eq_iff p q,
  prepare_heap (lookup info.id u.devices) info (lookup info.id u.by_device) now h q,
)

register_device_id :
    (p : ℕ) (info : DeviceInfo) (now later : ℕ) (h : Heap) (u : Hub)
    → ((register_device p info now later h u).0 p).device_id ≡ info.id
unfolding register_device
register_device_id p info now later h u = ground (arith, nat_eq_iff p p)

kept_entry :
    (h : Heap) (u : Hub) (p : ℕ) (first second : DeviceInfo) (now later : ℕ)
    → first.id ≢ second.id
    → let (h1, u1) = register_device p first now later h u in
      lookup first.id (register_device p second now later h1 u1).1.by_device ≡ some p
unfolding register_device
kept_entry h u p first second now later n = ground (
  arith,
  n,
  lookup-insert second.id first.id p (insert first.id p u.by_device),
  lookup-insert_self first.id p u.by_device,
  string_eq.beq_iff second.id first.id,
)

-- One agent that registers a second device ID on its connection and then disconnects leaves the
-- first device behind: a message to it is sent on the closed channel.
pub register_device_twice-stale :
    (h : Heap) (u : Hub) (p : ℕ) (first second : DeviceInfo) (now later : ℕ) (msg : Message)
    → (h p).closed ≡ false
    → first.id ≢ second.id
    → let (h1, u1) = register_device p first now later h u in
      let (h2, u2) = register_device p second now later h1 u1 in
      (unregister_client p h2 u2 >>= λ (h', u'). route_to_device first.id msg h' u')
      ≡ err send_on_closed_channel
register_device_twice-stale h u p first second now later msg o n =
    let h1 = (register_device p first now later h u).0 in
    let u1 = (register_device p first now later h u).1 in
    route_to_device-stale (register_device p second now later h1 u1).0
      (register_device p second now later h1 u1).1 first.id p msg
      (kept_entry h u p first second now later n)
      (register_device_keeps p p second now later h1 u1
        ∙ register_device_keeps p p first now later h u
        ∙ o)
      (inl (λ e. n (sym (sym (register_device_id p second now later h1 u1) ∙ e))))

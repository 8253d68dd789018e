-- ===== src/Signal/Hub/Histories.antt =====
-- hub.go: the hub over time. A history is a sequence of the server's steps on the hub: connections,
-- registrations, heartbeats, messages to devices, messages that a writer takes, disconnections.
use cloudbridge.Common.{
  ℕ, ◌≡◌, ◌≢◌, Bool, false, List, [], ◌∷◌, String, string_eq, subst, sym, ◌∙◌, ok_injective,
  nat_eq_iff, some, ok, err, arith, inl, inr, Option-cases,
}
use cloudbridge.Common.Map.{lookup}
use cloudbridge.Signal.Client.{Client, Heap, Message, Panic, store, try_send}
use cloudbridge.Signal.Hub.{
  DeviceInfo, Hub, new_hub, register_client, unregister_client, register_device, update_heartbeat,
  route, route_to_device,
}
use cloudbridge.Signal.Hub.Invariant.{
  IsWellFormed, MayRegister, new_hub-IsWellFormed, register_device-IsWellFormed,
  unregister_client-IsWellFormed, update_heartbeat-IsWellFormed, register_client-IsWellFormed,
  route_to_device-ne-panic,
}

pub record State : Type 0 where
  pub heap : Heap
  pub hub : Hub

abbrev pub state : Heap × Hub → State
state (h, u) = record { heap = h; hub = u }

-- A client as `handleWebSocket` makes it, at a pointer that no device has.
pub record IsFresh (s : State) (p : ℕ) (c : Client) : Type 0 where
  pub unused : (d : String) → lookup d s.hub.by_device ≢ some p
  pub no_device : c.device_id ≡ ""
  pub open_channel : c.closed ≡ false
  pub nothing_sent : c.send ≡ []

pub data Step (s : State) : State → Type 0 where
  connects :
      (p : ℕ) (c : Client)
      → IsFresh s p c
      → Step s (state (store p c s.heap, register_client p (store p c s.heap) s.hub))
  registers :
      (p : ℕ) (info : DeviceInfo) (now later : ℕ)
      → MayRegister s.heap p info
      → Step s (state (register_device p info now later s.heap s.hub))
  beats : (d : String) (now : ℕ) → Step s (record s { hub = update_heartbeat d now s.hub })
  routes :
      (d : String) (msg : Message) (sent : Bool) (h : Heap)
      → route_to_device d msg s.heap s.hub ≡ ok (sent, h)
      → Step s (record s { heap = h })
  takes :
      (p : ℕ) (msg : Message) (rest : List Message)
      → (s.heap p).send ≡ msg ∷ rest
      → Step s (record s { heap = store p (record (s.heap p) { send = rest }) s.heap })
  disconnects :
      (p : ℕ) (h : Heap) (u : Hub)
      → (s.heap p).closed ≡ false
      → unregister_client p s.heap s.hub ≡ ok (h, u)
      → Step s (state (h, u))

pub data Reach (s : State) : State → Type 0 where
  here : Reach s s
  next : {t u : State} → Reach s t → Step t u → Reach s u

abbrev IsGood : State → Type 0
IsGood s = IsWellFormed s.heap s.hub

-- A heap that changes what clients have to send, or a client that no device has.
same_owners :
    (h h' : Heap) (u : Hub)
    → IsWellFormed h u
    → ((d : String) (q : ℕ)
        → lookup d u.by_device ≡ some q
        → ((h' q).device_id ≡ (h q).device_id)
          × ((h' q).closed ≡ (h q).closed)
          × ((h' q).is_agent ≡ (h q).is_agent))
    → IsWellFormed h' u
same_owners h h' u w k = record {
  owned = λ d q e. ground (arith, w.owned d q e, k d q e);
  paired = w.paired;
  filed = w.filed;
}

connects-IsGood :
    (s : State) (p : ℕ) (c : Client)
    → IsFresh s p c
    → IsGood s
    → IsWellFormed (store p c s.heap) s.hub
connects-IsGood s p c f w =
    same_owners s.heap (store p c s.heap) s.hub w
      λ d q e. ground (arith, e, f.unused d, nat_eq_iff p q)

takes-IsGood :
    (s : State) (p : ℕ) (rest : List Message)
    → IsGood s
    → IsWellFormed (store p (record (s.heap p) { send = rest }) s.heap) s.hub
takes-IsGood s p rest w = same_owners s.heap _ s.hub w λ d q e. ground (arith, nat_eq_iff p q)

routes-IsGood :
    (s : State) (d : String) (msg : Message) (sent : Bool) (h : Heap)
    → route_to_device d msg s.heap s.hub ≡ ok (sent, h)
    → IsGood s
    → IsWellFormed h s.hub
unfolding route_to_device route try_send
routes-IsGood s d msg sent h e w = same_owners s.heap h s.hub w λ k q f.
    elim (Option-cases (lookup d s.hub.by_device)) [
      | inl g ↦ ground (arith, e, g)
      | inr (p, g) ↦ ground (arith, e, g, nat_eq_iff p q)
    ]

pub Step-IsGood : {s t : State} → Step s t → IsGood s → IsGood t
Step-IsGood {s} (connects p c f) w =
    register_client-IsWellFormed (store p c s.heap) s.hub (connects-IsGood s p c f w) p
Step-IsGood {s} (registers p info now later m) w =
    register_device-IsWellFormed s.heap s.hub w p info now later m
Step-IsGood {s} (beats d now) w = update_heartbeat-IsWellFormed s.heap s.hub w d now
Step-IsGood {s} (routes d msg sent h e) w = routes-IsGood s d msg sent h e w
Step-IsGood {s} (takes p msg rest e) w = takes-IsGood s p rest w
Step-IsGood {s} (disconnects p h u o e) w =
    let (h', u', e', w') = unregister_client-IsWellFormed s.heap s.hub w p o in
    subst (λ (t : Heap × Hub). IsWellFormed t.0 t.1) (ok_injective (sym e' ∙ e)) w'

Reach-IsGood : {s t : State} → IsGood s → Reach s t → IsGood t
Reach-IsGood w here = w
Reach-IsGood w (next r st) = Step-IsGood st (Reach-IsGood w r)

-- From an empty hub, after any history in which an agent registers one named device, a message to
-- a device is never sent on a closed channel.
pub Reach-route_to_device :
    {s : State} (h : Heap) (d : String) (msg : Message) (x : Panic)
    → Reach (record { heap = h; hub = new_hub }) s
    → route_to_device d msg s.heap s.hub ≢ err x
Reach-route_to_device {s} h d msg x r =
    route_to_device-ne-panic s.heap s.hub (Reach-IsGood (new_hub-IsWellFormed h) r) d msg x

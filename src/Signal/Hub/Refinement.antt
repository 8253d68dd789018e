-- ===== src/Signal/Hub/Refinement.antt =====
-- hub.go: the hub and the abstract registry.
use cloudbridge.Common.{
  ℕ, ◌≡◌, inl, inr, refl, ◌∙◌, subst, ap, fun_ext, Bool, nat_eq_iff, String, string_eq, ok, arith,
  Option-cases,
}
use cloudbridge.Common.Map.{lookup}
use cloudbridge.Signal.Client.{Client, Heap, Message, store, try_send}
use cloudbridge.Signal.Hub.{Hub, new_hub, register_client, update_heartbeat, route, route_to_device}
use cloudbridge.Signal.Hub.Invariant.{IsWellFormed, new_hub-IsWellFormed}
use cloudbridge.Signal.Hub.Histories.{
  State, Step, connects, registers, beats, routes, takes, disconnects, Reach, here, next,
  Step-IsGood,
}
use cloudbridge.Signal.Hub.Registry.{Registry, empty_registry, view, change, replay, to_owner}
use cloudbridge.Signal.Hub.Owners.{
  IsHeld, registers_view, registers-IsHeld, left_view, left-IsHeld, beaten_view, routed_view,
}

same-IsHeld :
    (h k : Heap) (u : Hub)
    → IsHeld h u
    → ((q : ℕ) → ((k q).device_id ≡ (h q).device_id) × ((k q).closed ≡ (h q).closed))
    → IsHeld k u
same-IsHeld h k u held same q c n = ground (arith, c, n, same q, held q)

routes-IsHeld :
    (h k : Heap) (u : Hub) (d : String) (msg : Message) (sent : Bool)
    → IsHeld h u
    → route_to_device d msg h u ≡ ok (sent, k)
    → IsHeld k u
unfolding route_to_device route try_send
routes-IsHeld h k u d msg sent held e = same-IsHeld h k u held λ q.
    elim (Option-cases (lookup d u.by_device)) [
      | inl n ↦ ground (arith, e, n)
      | inr (p, f) ↦ ground (arith, e, f, nat_eq_iff p q)
    ]

connects-IsHeld :
    (h : Heap) (u : Hub) (p : ℕ) (c : Client)
    → c.device_id ≡ ""
    → IsHeld h u
    → IsHeld (store p c h) (register_client p (store p c h) u)
unfolding register_client
connects-IsHeld h u p c e held q o n = ground (arith, e, o, n, nat_eq_iff p q, held q)

beaten-IsHeld :
    (h : Heap) (u : Hub) (d : String) (now : ℕ) → IsHeld h u → IsHeld h (update_heartbeat d now u)
unfolding update_heartbeat
beaten-IsHeld h u d now held q c n = ground (arith, held q c n)

-- Each step is what it is for the registry, and keeps owners and fields in agreement.
Step-change :
    {s t : State} (st : Step s t)
    → IsWellFormed s.heap s.hub
    → IsHeld s.heap s.hub
    → ((d : String) → view t.hub d ≡ change st (view s.hub) d) × IsHeld t.heap t.hub
unfolding register_client
Step-change {s} (connects p c f) w held =
    (λ d. refl, connects-IsHeld s.heap s.hub p c f.no_device held)
Step-change {s} (registers p info now later m) w held = (
  registers_view s.heap s.hub w p info now later,
  registers-IsHeld s.heap s.hub w p info now later held,
)
Step-change {s} (beats d now) w held =
    (beaten_view s.heap s.hub w d now, beaten-IsHeld s.heap s.hub d now held)
Step-change {s} (routes d msg sent h e) w held =
    (λ k. refl, routes-IsHeld s.heap h s.hub d msg sent held e)
Step-change {s} (takes p msg rest e) w held = (
  λ d. refl,
  same-IsHeld s.heap (store p (record (s.heap p) { send = rest }) s.heap) s.hub held
      (λ q. ground (arith, nat_eq_iff p q)),
)
Step-change {s} (disconnects p h u o e) w held =
    (λ d. left_view s.heap s.hub w p h u d held o e, left-IsHeld s.heap s.hub w p h u held o e)

refined :
    {s t : State} (r : Reach s t)
    → IsWellFormed s.heap s.hub
    → IsHeld s.heap s.hub
    → (view t.hub ≡ replay r (view s.hub)) × IsHeld t.heap t.hub × IsWellFormed t.heap t.hub
refined here w held = (refl, held, w)
refined (next r st) w held =
    let (v, held', w') = refined r w held in
    let (c, held'') = Step-change st w' held' in
    (fun_ext c ∙ ap (change st) v, held'', Step-IsGood st w')

-- From an empty hub, over clients that have no device, after any history in which an agent registers
-- one named device: the hub holds for every device what the registry holds that was entered at each
-- registration, left with all its devices by each client that was disconnected, and sighted at each
-- heartbeat. And a message to a device goes to its owner in that registry.
pub Reach-replay :
    {t : State} (h : Heap)
    → ((p : ℕ) → (h p).device_id ≡ "")
    → (r : Reach (record { heap = h; hub = new_hub }) t)
    → (view t.hub ≡ replay r empty_registry)
      × ((d : String) (msg : Message)
          → route_to_device d msg t.heap t.hub ≡ to_owner (replay r empty_registry d) msg t.heap)
unfolding lookup
Reach-replay {t} h none' r =
    let (v, held, w) = refined r (new_hub-IsWellFormed h) (λ p c n. absurd (n (none' p))) in
    (
      v,
      λ d msg.
          subst (λ (x : Registry). route_to_device d msg t.heap t.hub ≡ to_owner (x d) msg t.heap) v
            (routed_view t.heap t.hub w d msg),
    )

-- ===== src/Signal/Handler/Rule.antt =====
-- handler.go: a rule for HandleMessage. What each move of the handlers keeps, answers and routed
-- messages keep.
pub mod Messages
use cloudbridge.Common.{
  ℕ, ◌≡◌, refl, Bool, true, false, String, string_eq, ◌==◌, if◌then◌else◌, List, Option, none, some,
  Result, ok, err, ◌>>=◌, Bool-cases, inl, inr,
}
use cloudbridge.Common.Map.{lookup}
use cloudbridge.Protocol.Json.{Strings, Json}
use cloudbridge.Protocol.Messages.{
  RegisterPayload, ConnectRequestPayload, ConnectResponsePayload, SignalMessage, unmarshal_envelope,
  unmarshal_register, unmarshal_heartbeat, unmarshal_connect_request, unmarshal_connect_response,
  unmarshal_disconnect, unmarshal_sdp, unmarshal_ice_candidate, unmarshal_transport_negotiate,
}
use cloudbridge.Signal.Client.{Heap, Message, Panic, try_send}
use cloudbridge.Signal.Hub.{update_heartbeat, route, route_to_device}
use cloudbridge.Signal.Sessions.{
  SessionStatus, rejected, closed, create_session, accept_session, reject_session, close_session,
  set_status, deliver, get_peer, route_to_peer,
}
use cloudbridge.Signal.Handler.{
  World, unmarshal, note_device, handle_register, handle_heartbeat, handle_connect_request,
  handle_connect_response, handle_sdp_offer, handle_sdp_answer, handle_ice_candidate,
  handle_transport_negotiate, handle_disconnect, forward, dispatch, handle_message,
  request_connection, conclude_request, answer_connection, conclude_response, send_error, reply,
}

-- What a handler of client `p` can have done to the state before it is through: its moves, in any
-- number and order.
pub data Moves (p : ℕ) (w : World) : World → Type 0 where
  no_move : Moves p w w
  sent_message :
      {v : World} (q : ℕ) (msg : Message) (sent : Bool) (h : Heap)
      → Moves p w v
      → try_send q msg v.heap ≡ ok (sent, h)
      → Moves p w (record v { heap = h })
  noted_device :
      {v : World} (reg : RegisterPayload) (now later : ℕ)
      → Moves p w v
      → Moves p w (note_device p reg now later v)
  noted_heartbeat :
      {v : World} (d : String) (now : ℕ)
      → Moves p w v
      → Moves p w (record v { hub = update_heartbeat d now v.hub })
  created_session :
      {v : World} (id device : String) (protocols : Strings) (now : ℕ)
      → Moves p w v
      → Moves p w
          (record v { manager = (create_session id p device protocols now v.heap v.manager).1 })
  accepted_session :
      {v : World} (id : String)
      → Moves p w v
      → Moves p w (record v { manager = (accept_session id p v.heap v.manager).1 })
  changed_status :
      {v : World} (st : SessionStatus) (id : String)
      → Moves p w v
      → Moves p w (record v { manager = (set_status st id v.manager).1 })

-- The moves that the messages of client `p` are made of, each of which keeps `P`.
pub record IsKept (p : ℕ) (P : World → Type 0) : Type 0 where
  pub sends :
      (q : ℕ) (msg : Message) (w : World) (sent : Bool) (h : Heap)
      → try_send q msg w.heap ≡ ok (sent, h)
      → P w
      → P (record w { heap = h })
  pub registers :
      (reg : RegisterPayload) (now later : ℕ) (w : World) → P w → P (note_device p reg now later w)
  pub beats :
      (d : String) (now : ℕ) (w : World) → P w → P (record w { hub = update_heartbeat d now w.hub })
  pub creates :
      (id device : String) (protocols : Strings) (now : ℕ) (w : World)
      → P w
      → P (record w { manager = (create_session id p device protocols now w.heap w.manager).1 })
  pub accepts :
      (id : String) (w : World)
      → P w
      → P (record w { manager = (accept_session id p w.heap w.manager).1 })
  pub sets :
      (st : SessionStatus) (id : String) (w : World)
      → P w
      → P (record w { manager = (set_status st id w.manager).1 })

-- A result that has `P`, if it is no panic.
abbrev pub Handled : (World → Type 0) → Result Panic World → Type 0
Handled P (err x) = Unit {0}
Handled P (ok w) = P w

-- The same of a send.
abbrev pub Sent : (World → Type 0) → World → Result Panic (Bool × Heap) → Type 0
Sent P w (err x) = Unit {0}
Sent P w (ok (sent, h)) = P (record w { heap = h })

Sent-intro :
    (P : World → Type 0) (w : World) (r : Result Panic (Bool × Heap))
    → ((sent : Bool) (h : Heap) → r ≡ ok (sent, h) → P (record w { heap = h }))
    → Sent P w r
Sent-intro P w (ok (sent, h)) f = f sent h refl
Sent-intro P w (err x) f = tt

pub after_send :
    (P : World → Type 0) (w : World) (r : Result Panic (Bool × Heap))
    (f : Bool × Heap → Result Panic World)
    → Sent P w r
    → ((sent : Bool) (h : Heap) → P (record w { heap = h }) → Handled P (f (sent, h)))
    → Handled P (r >>= f)
after_send P w (ok (sent, h)) f g k = k sent h g
after_send P w (err x) f g k = tt

-- A handler reads its payload first, and without one only answers.
pub parsed :
    {A : Type 0} (P : World → Type 0) (o : Option A) (r : Result Panic World)
    (f : A → Result Panic World)
    → Handled P r
    → ((a : A) → Handled P (f a))
    → Handled P (elim o [ none ↦ r | some a ↦ f a ])
parsed P none r f g k = g
parsed P (some a) r f g k = k a

pub Moves-kept :
    (p : ℕ) (P : World → Type 0) → IsKept p P → {w w' : World} → Moves p w w' → P w → P w'
Moves-kept p P k no_move g = g
Moves-kept p P k (sent_message {v} q msg sent h m e) g =
    k.sends q msg v sent h e (Moves-kept p P k m g)
Moves-kept p P k (noted_device {v} reg now later m) g =
    k.registers reg now later v (Moves-kept p P k m g)
Moves-kept p P k (noted_heartbeat {v} d now m) g = k.beats d now v (Moves-kept p P k m g)
Moves-kept p P k (created_session {v} id device protocols now m) g =
    k.creates id device protocols now v (Moves-kept p P k m g)
Moves-kept p P k (accepted_session {v} id m) g = k.accepts id v (Moves-kept p P k m g)
Moves-kept p P k (changed_status {v} st id m) g = k.sets st id v (Moves-kept p P k m g)

module _ (p : ℕ) (P : World → Type 0) (k : IsKept p P) where
  try_send-Sent : (q : ℕ) (msg : Message) (w : World) → P w → Sent P w (try_send q msg w.heap)
  try_send-Sent q msg w g =
      Sent-intro P w (try_send q msg w.heap) (λ sent h e. k.sends q msg w sent h e g)

  pub route-Sent :
      (to : Option ℕ) (msg : Message) (w : World) → P w → Sent P w (route to msg w.heap)
  unfolding route
  route-Sent none msg w g = g
  route-Sent (some q) msg w g = try_send-Sent q msg w g

  pub deliver-Sent :
      (to : Option (Option ℕ)) (msg : Message) (w : World) → P w → Sent P w (deliver to msg w.heap)
  unfolding deliver
  deliver-Sent none msg w g = g
  deliver-Sent (some none) msg w g = g
  deliver-Sent (some (some q)) msg w g = try_send-Sent q msg w g

  pub reply-Handled : (msg : Message) (w : World) → P w → Handled P (reply p msg w)
  unfolding reply
  reply-Handled msg w g =
      after_send P w (try_send p msg w.heap) _ (try_send-Sent p msg w g) (λ sent h g'. g')

  pub send_error-Handled :
      (code message : String) (w : World) → P w → Handled P (send_error p code message w)
  unfolding send_error
  send_error-Handled code message w g = reply-Handled _ w g

  pub forward-Handled :
      (session : String) (msg : Message) (w : World) → P w → Handled P (forward p session msg w)
  unfolding forward route_to_peer
  forward-Handled session msg w g =
      after_send P w (deliver (get_peer session p w.heap w.manager) msg w.heap) _
        (deliver-Sent (get_peer session p w.heap w.manager) msg w g) (λ sent h g'. g')

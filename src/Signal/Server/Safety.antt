-- ===== src/Signal/Server/Safety.antt =====
-- server.go: sends to the peer of a session, and disconnections.
use cloudbridge.Common.{
  ℕ, ◌≡◌, ◌≢◌, refl, ap, subst, true, false, String, string_eq, Option, none, some, ok, err, arith,
  Option-cases, inl, inr,
}
use cloudbridge.Common.Map.{lookup, delete}
use cloudbridge.Signal.Client.{Heap, Message, Panic, store, try_send, close_send}
use cloudbridge.Signal.Hub.{Hub, drop_device, unregister_client}
use cloudbridge.Signal.Sessions.{Session, get_peer, deliver, route_to_peer}
use cloudbridge.Signal.Handler.Rule.{Handled, Moves-kept}
use cloudbridge.Signal.Handler.Rule.Messages.{handle_message-Handled}
use cloudbridge.Signal.Server.Invariant.{
  IsServed, has_channel, has_sessions, connects-IsServed, panics-IsServed, takes-IsServed,
  unregisters-IsServed, removes-IsServed, new_server-IsServed,
}
use cloudbridge.Signal.Server.Messages.{messages_kept}
use cloudbridge.Signal.Server.{
  Phase, sessions_removed, panics, ServerState, new_server, new_client, Step, connects, handles,
  takes, removes, unregisters, Reach, here, next,
}

pub Step-IsServed :
    {s t : ServerState} → Step s t → IsServed s.phase s.world → IsServed t.phase t.world
Step-IsServed {s} (connects p now a n) g = connects-IsServed s p (new_client now a) n refl g
Step-IsServed {s} (handles p raw now later w r e) g = subst (Handled (IsServed s.phase)) e (
    handle_message-Handled p (IsServed s.phase) (messages_kept s.phase p (ap has_sessions r)) raw
      now later s.world g)
Step-IsServed {s} (panics p raw now later x w r e m) g =
    panics-IsServed s p w r
      (Moves-kept p (IsServed s.phase) (messages_kept s.phase p (ap has_sessions r)) m g)
Step-IsServed {s} (takes p msg rest e) g = takes-IsServed s p rest g
Step-IsServed {s} (removes p r) g = removes-IsServed s p r g
Step-IsServed {s} (unregisters p h u n e) g = unregisters-IsServed s p h u n e g

kept : {s t : ServerState} → IsServed s.phase s.world → Reach s t → IsServed t.phase t.world
kept g here = g
kept g (next r st) = Step-IsServed st (kept g r)

-- From a new server on, whatever clients connect, send and disconnect in whatever order, and also where
-- the handling of a message panics: the session maps agree, the clients of every session that can be
-- found are still read from, or their reader has panicked, and the channel of a client is open until
-- it is unregistered.
pub Reach-IsServed :
    {s : ServerState} (h : Heap) (cells : ℕ → Session)
    → Reach (new_server h cells) s
    → IsServed s.phase s.world
Reach-IsServed h cells r = kept (new_server-IsServed h cells) r

pub peer_there :
    (s : ServerState) (id : String) (sender p : ℕ)
    → IsServed s.phase s.world
    → get_peer id sender s.world.heap s.world.manager ≡ some (some p)
    → has_sessions (s.phase p) ≡ true
unfolding get_peer
peer_there s id sender p g e = elim (Option-cases (lookup id s.world.manager.sessions)) [
  | inl n ↦ absurd (ground (arith, e, n))
  | inr (t, n) ↦ ground (arith, e, n, g.initiator_there id t n, g.responder_there id t p n)
]

-- A client that keeps its sessions keeps its channel.
sessions-channel : (f : Phase) → has_sessions f ≡ true → has_channel f ≡ true
sessions-channel f e = ground (arith, e)

deliver-open :
    (to : Option (Option ℕ)) (msg : Message) (h : Heap) (x : Panic)
    → ((p : ℕ) → to ≡ some (some p) → (h p).closed ≡ false)
    → deliver to msg h ≢ err x
unfolding deliver try_send
deliver-open none msg h x o e = ground (arith, e)
deliver-open (some none) msg h x o e = ground (arith, e)
deliver-open (some (some p)) msg h x o e = ground (arith, e, o p refl)

-- After any history of a new server, panics of handlers included, a message to the peer of a session,
-- routed in one step, is never sent on a closed channel.
pub Reach-route_to_peer :
    {s : ServerState} (h : Heap) (cells : ℕ → Session) (id : String) (sender : ℕ) (msg : Message)
    (x : Panic)
    → Reach (new_server h cells) s
    → route_to_peer id sender msg s.world.heap s.world.manager ≢ err x
unfolding route_to_peer
Reach-route_to_peer {s} h cells id sender msg x r =
    let g = Reach-IsServed h cells r in
    deliver-open (get_peer id sender s.world.heap s.world.manager) msg s.world.heap x
      (λ p e. g.open_channel p (sessions-channel (s.phase p) (peer_there s id sender p g e)))

-- The second half of a client's clean-up succeeds in a state with the invariant.
pub unregister_client-ok :
    (s : ServerState) (p : ℕ)
    → IsServed s.phase s.world
    → s.phase p ≡ sessions_removed
    → (h : Heap) × (u : Hub) × (unregister_client p s.world.heap s.world.hub ≡ ok (h, u))
      × ((h p).closed ≡ true)
unfolding unregister_client close_send
unregister_client-ok s p g n =
    let c = s.world.heap p in
    (
      store p (record c { closed = true }) s.world.heap,
      drop_device c (record s.world.hub { clients = delete c.id s.world.hub.clients }),
      rw (g.open_channel p (ap has_channel n)) refl,
      ground arith,
    )

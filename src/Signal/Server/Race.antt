-- ===== src/Signal/Server/Race.antt =====
-- session.go with server.go: RouteToPeer gives up its lock between `GetPeer` and the send.
use cloudbridge.Common.{ℕ, String, some, ◌≡◌, ◌≢◌, nat_eq_iff, true, err, arith}
use cloudbridge.Signal.Client.{Heap, Message, send_on_closed_channel, try_send}
use cloudbridge.Signal.Sessions.{Session, get_peer, deliver}
use cloudbridge.Signal.Server.{
  ServerState, new_server, Step, cleaned, removes, unregisters, reading, Reach, here, next,
}
use cloudbridge.Signal.Server.Safety.{Reach-IsServed, Step-IsServed, unregister_client-ok}

deliver_closed :
    (p : ℕ) (msg : Message) (h : Heap)
    → (h p).closed ≡ true
    → deliver (some (some p)) msg h ≡ err send_on_closed_channel
unfolding deliver try_send
deliver_closed p msg h c = ground (arith, c)

-- In any state that a new server reaches: a sender has looked up its peer, which is another client
-- and is being read from. Before the message is sent, the peer's own goroutine can end its reading
-- and clean up, in two steps. Then the send is on a closed channel, and the sender's goroutine panics.
pub Reach-deliver :
    {s : ServerState} (h : Heap) (cells : ℕ → Session) (id : String) (sender p : ℕ) (msg : Message)
    → Reach (new_server h cells) s
    → sender ≢ p
    → s.phase p ≡ reading
    → get_peer id sender s.world.heap s.world.manager ≡ some (some p)
    → (t : ServerState) × Reach s t
      × (t.phase sender ≡ s.phase sender)
      × (deliver (get_peer id sender s.world.heap s.world.manager) msg t.world.heap
          ≡ err send_on_closed_channel)
Reach-deliver {s} h cells id sender p msg r ne k e =
    let g = Reach-IsServed h cells r in
    let first : Step s (cleaned p s) = removes p k in
    let g' = Step-IsServed first g in
    let (h', u, is, c) = unregister_client-ok (cleaned p s) p g' (ground arith) in
    (
      _,
      next (next here first) (unregisters p h' u (ground arith) is),
      ground (arith, ne, nat_eq_iff p sender),
      rw e (deliver_closed p msg h' c),
    )

-- ===== src/Signal/Sessions/Peers.antt =====
-- session.go: who hears whom. `GetPeer` tells the two clients of a session apart by their IDs.
use cloudbridge.Protocol.Json.{Strings}
use cloudbridge.Common.{
  ℕ, ◌≡◌, ◌≢◌, true, false, [], ◌∷◌, ◌++◌, String, string_eq, nat_eq_iff, some, arith, ok, length,
  ◌<◌,
}
use cloudbridge.Common.Map.{lookup, lookup-insert_self}
use cloudbridge.Signal.Client.{Heap, Message, send_buffer_size, store, try_send}
use cloudbridge.Signal.Sessions.{
  SessionManager, create_session, accept_session, get_peer, deliver, route_to_peer,
}
use cloudbridge.Signal.Sessions.Index.{involves}

module _ (h : Heap) (sm : SessionManager) (id : String) (s : ℕ)
    (found : lookup id sm.sessions ≡ some s) where
  -- Between two clients with different IDs a session leads from each to the other.
  pub get_peer_lem :
      (app agent : ℕ)
      → (sm.cells s).initiator ≡ app
      → (sm.cells s).responder ≡ some agent
      → (h app).id ≢ (h agent).id
      → (get_peer id app h sm ≡ some (some agent)) × (get_peer id agent h sm ≡ some (some app))
  unfolding get_peer
  get_peer_lem app agent e f n = ground (
    arith,
    found,
    e,
    f,
    n,
    string_eq.beq_iff (h app).id (h app).id,
    string_eq.beq_iff (h app).id (h agent).id,
    string_eq.beq_iff (h agent).id (h agent).id,
  )

  -- Two clients with one ID: the responder is taken for the initiator, and its peer is itself.
  pub get_peer-same_id :
      (app agent : ℕ)
      → (sm.cells s).initiator ≡ app
      → (sm.cells s).responder ≡ some agent
      → (h app).id ≡ (h agent).id
      → get_peer id agent h sm ≡ some (some agent)
  unfolding get_peer
  get_peer-same_id app agent e f n =
      ground (arith, found, e, f, n, string_eq.beq_iff (h app).id (h agent).id)

  -- A client that the session does not involve reaches nobody, and nothing is sent.
  pub route_to_peer-stranger :
      (c : ℕ) (msg : Message)
      → involves h (h c).id (sm.cells s) ≡ false
      → route_to_peer id c msg h sm ≡ ok (false, h)
  unfolding route_to_peer get_peer
  route_to_peer-stranger c msg n = ground (arith, found, n)

pub try_send-room :
    (p : ℕ) (msg : Message) (h : Heap)
    → (h p).closed ≡ false
    → length (h p).send < send_buffer_size
    → try_send p msg h ≡ ok (true, store p (record (h p) { send = (h p).send ++ (msg ∷ []) }) h)
unfolding try_send
try_send-room p msg h o r = ground (arith, o, r)

accepted_cell :
    (h : Heap) (sm : SessionManager) (id device : String) (protocols : Strings) (now app agent : ℕ)
    → let sm' = (accept_session id agent h (create_session id app device protocols now h sm).1).1 in
      (lookup id sm'.sessions ≡ some sm.next)
      × ((sm'.cells sm.next).initiator ≡ app)
      × ((sm'.cells sm.next).responder ≡ some agent)
unfolding create_session accept_session
accepted_cell h sm id device protocols now app agent =
    ground (arith, lookup-insert_self id sm.next sm.sessions, nat_eq_iff sm.next sm.next)

-- After an app has opened a session and an agent has accepted it, what either sends in the session
-- goes to the other, and to the end of what it has to be sent, where that has room.
pub route_to_peer-accepted :
    (h : Heap) (sm : SessionManager) (id device : String) (protocols : Strings) (now : ℕ)
    (app agent : ℕ) (msg : Message)
    → (h app).id ≢ (h agent).id
    → (h agent).closed ≡ false
    → (h app).closed ≡ false
    → length (h agent).send < send_buffer_size
    → length (h app).send < send_buffer_size
    → let sm' = (accept_session id agent h (create_session id app device protocols now h sm).1).1 in
      (route_to_peer id app msg h sm'
        ≡ ok (true, store agent (record (h agent) { send = (h agent).send ++ (msg ∷ []) }) h))
      × (route_to_peer id agent msg h sm'
          ≡ ok (true, store app (record (h app) { send = (h app).send ++ (msg ∷ []) }) h))
route_to_peer-accepted h sm id device protocols now app agent msg n oa ob ra rb =
    let sm' = (accept_session id agent h (create_session id app device protocols now h sm).1).1 in
    let (found, e, f) = accepted_cell h sm id device protocols now app agent in
    let (there, back) = get_peer_lem h sm' id sm.next found app agent e f n in
    (
      unfold route_to_peer in rw (there, deliver) (try_send-room agent msg h oa ra),
      unfold route_to_peer in rw (back, deliver) (try_send-room app msg h ob rb),
    )

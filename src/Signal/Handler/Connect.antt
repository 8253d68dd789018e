-- ===== src/Signal/Handler/Connect.antt =====
-- handler.go: a connection from the request to the answer.
use cloudbridge.Protocol.Json.{Strings}
use cloudbridge.Common.{
  ℕ, ◌≡◌, ◌≢◌, refl, ◌∙◌, true, false, [], ◌∷◌, ◌++◌, String, string_eq, nat_eq_iff, none, some,
  arith, ok, length, ◌<◌,
}
use cloudbridge.Common.Map.{lookup, lookup-insert_self}
use cloudbridge.Protocol.Messages.{
  ConnectRequestPayload, ConnectResponsePayload, encode, marshal_connect_request,
  marshal_connect_response, marshal_error,
}
use cloudbridge.Signal.Client.{Heap, Message, send_buffer_size, store}
use cloudbridge.Signal.Hub.{route, route_to_device}
use cloudbridge.Signal.Sessions.{
  SessionManager, pending, accepted, create_session, accept_session, deliver, route_to_peer,
}
use cloudbridge.Signal.Sessions.Peers.{get_peer_lem, try_send-room}
use cloudbridge.Signal.Handler.{
  World, request_connection, conclude_request, answer_connection, conclude_response, send_error,
  reply,
}
use Prim.Native.String.{◌++◌ as concat}

-- A message at the end of what a client has to be sent.
abbrev pub queued : ℕ → Message → Heap → Heap
queued p msg h = store p (record (h p) { send = (h p).send ++ (msg ∷ []) }) h

created_cell :
    (id : String) (p : ℕ) (device : String) (protocols : Strings) (now : ℕ) (h : Heap)
    (sm : SessionManager)
    → let sm' = (create_session id p device protocols now h sm).1 in
      (lookup id sm'.sessions ≡ some sm.next)
      × ((sm'.cells sm.next).status ≡ pending)
      × ((sm'.cells sm.next).initiator ≡ p)
      × ((sm'.cells sm.next).responder ≡ none)
unfolding create_session
created_cell id p device protocols now h sm =
    ground (arith, lookup-insert_self id sm.next sm.sessions, nat_eq_iff sm.next sm.next)

answered_cell :
    (p s : ℕ) (id : String) (w : World)
    → lookup id w.manager.sessions ≡ some s
    → let sm' = (accept_session id p w.heap w.manager).1 in
      (lookup id sm'.sessions ≡ some s)
      × ((sm'.cells s).initiator ≡ (w.manager.cells s).initiator)
      × ((sm'.cells s).responder ≡ some p)
      × ((sm'.cells s).status ≡ accepted)
unfolding accept_session
answered_cell p s id w f = ground (arith, f, nat_eq_iff s s)

pub send_error-room :
    (p : ℕ) (code message : String) (w : World)
    → (w.heap p).closed ≡ false
    → length (w.heap p).send < send_buffer_size
    → send_error p code message w
      ≡ ok (record w {
        heap =
            queued p
              (encode "error" (marshal_error (record { code = code; message = message })))
              w.heap;
      })
unfolding send_error reply
send_error-room p code message w o r = rw (try_send-room p _ w.heap o r) refl

-- A request for a device whose agent is connected and has room is queued for the agent as it came,
-- and the session that it names is found, pending, between the app and no agent yet.
pub request_connection-online :
    (p agent : ℕ) (req : ConnectRequestPayload) (now : ℕ) (w : World)
    → lookup req.device_id w.hub.by_device ≡ some agent
    → (w.heap agent).closed ≡ false
    → length (w.heap agent).send < send_buffer_size
    → (w' : World) × (request_connection p req now w ≡ ok w')
      × (w'.heap ≡ queued agent (encode "connect_request" (marshal_connect_request req)) w.heap)
      × ((s : ℕ) × (lookup req.session_id w'.manager.sessions ≡ some s)
          × ((w'.manager.cells s).status ≡ pending)
          × ((w'.manager.cells s).initiator ≡ p)
          × ((w'.manager.cells s).responder ≡ none))
request_connection-online p agent req now w f o r =
    let msg = encode "connect_request" (marshal_connect_request req) in
    let sm = (create_session req.session_id p req.device_id req.protocols now w.heap w.manager).1 in
    let (found, status, initiator, responder) =
      created_cell req.session_id p req.device_id req.protocols now w.heap w.manager in
    (
      record w { heap = queued agent msg w.heap; manager = sm },
      unfold request_connection in
          unfold route_to_device in
          rw (f, route, try_send-room agent msg w.heap o r, conclude_request) refl,
      refl,
      (w.manager.next, found, status, initiator, responder),
    )

answer_routed :
    (p app s : ℕ) (resp : ConnectResponsePayload) (w : World)
    → lookup resp.session_id w.manager.sessions ≡ some s
    → (w.manager.cells s).initiator ≡ app
    → (w.heap app).id ≢ (w.heap p).id
    → (w.heap app).closed ≡ false
    → length (w.heap app).send < send_buffer_size
    → let msg = encode "connect_response" (marshal_connect_response resp) in
      route_to_peer resp.session_id p msg w.heap
        (accept_session resp.session_id p w.heap w.manager).1
      ≡ ok (true, queued app msg w.heap)
answer_routed p app s resp w f e n o r =
    let msg = encode "connect_response" (marshal_connect_response resp) in
    let sm = (accept_session resp.session_id p w.heap w.manager).1 in
    let (found, initiator, responder, status) = answered_cell p s resp.session_id w f in
    let back =
      (get_peer_lem w.heap sm resp.session_id s found app p (initiator ∙ e) responder n).1 in
    unfold route_to_peer in rw (back, deliver) (try_send-room app msg w.heap o r)

-- An agent's acceptance of a session is queued for the app that asked for it, where the two have
-- different IDs and the app is connected and has room, and the agent is then the session's responder.
pub answer_connection-app :
    (p app s : ℕ) (resp : ConnectResponsePayload) (w : World)
    → lookup resp.session_id w.manager.sessions ≡ some s
    → (w.manager.cells s).initiator ≡ app
    → resp.accepted ≡ true
    → (w.heap app).id ≢ (w.heap p).id
    → (w.heap app).closed ≡ false
    → length (w.heap app).send < send_buffer_size
    → (w' : World) × (answer_connection p resp w ≡ ok w')
      × (w'.heap ≡ queued app (encode "connect_response" (marshal_connect_response resp)) w.heap)
      × (lookup resp.session_id w'.manager.sessions ≡ some s)
      × ((w'.manager.cells s).status ≡ accepted)
      × ((w'.manager.cells s).responder ≡ some p)
answer_connection-app p app s resp w f e a n o r =
    let msg = encode "connect_response" (marshal_connect_response resp) in
    let sm = (accept_session resp.session_id p w.heap w.manager).1 in
    let (found, initiator, responder, status) = answered_cell p s resp.session_id w f in
    (
      record w { heap = queued app msg w.heap; manager = sm },
      unfold answer_connection in
          unfold conclude_response in ground (arith, a, answer_routed p app s resp w f e n o r),
      refl,
      found,
      status,
      responder,
    )

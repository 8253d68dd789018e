-- ===== src/Agent/Register/Answers.antt =====
-- register.go with the server's handler.go: a connection request from the app to its session.
use cloudbridge.Common.{
  ℕ, ◌<◌, ◌≡◌, ◌≢◌, refl, ap, ◌∙◌, true, false, [], ◌∷◌, ◌++◌, string_eq, suc, length, some, arith,
  nat_eq_iff, ok,
}
use cloudbridge.Common.Map.{lookup}
use cloudbridge.Protocol.Json.{Json}
use cloudbridge.Protocol.Messages.{
  msg_type_connect_request, msg_type_connect_response, ConnectRequestPayload,
  ConnectResponsePayload, encode, unmarshal_envelope, decode, decode_type, marshal_connect_request,
  marshal_connect_response,
}
use cloudbridge.Protocol.Messages.RoundTrip.{unmarshal-marshal}
use cloudbridge.Signal.Client.{Heap, send_buffer_size}
use cloudbridge.Signal.Sessions.{accepted}
use cloudbridge.Signal.Handler.{World, handle_message}
use cloudbridge.Signal.Handler.Connect.{queued, request_connection-online, answer_connection-app}
use cloudbridge.Signal.Handler.Dispatch.{
  handle_message-connect_request, handle_message-connect_response,
}
use cloudbridge.Agent.Register.{Agent, Link, handle_incoming, handle_connect_request, write_message}

-- The agent's yes to a request.
abbrev pub acceptance : ConnectRequestPayload → ConnectResponsePayload
acceptance req = record { session_id = req.session_id; accepted = true; reason = "" }

abbrev pub request_message : ConnectRequestPayload → Json
request_message req = encode msg_type_connect_request (marshal_connect_request req)

abbrev pub answer_message : ConnectRequestPayload → Json
answer_message req = encode msg_type_connect_response (marshal_connect_response (acceptance req))

pub handle_incoming-request :
    (req : ConnectRequestPayload) (a : Agent) (l : Link)
    → l.accepts l.writes ≡ true
    → handle_incoming (some (request_message req)) a l
      ≡ (a, record l { writes = suc l.writes; written = l.written ++ (answer_message req ∷ []) })
unfolding handle_incoming handle_connect_request write_message decode decode_type encode
    unmarshal_envelope
handle_incoming-request req a l h = ground (arith, h, unmarshal-marshal.2 req)

queued-other : (p q : ℕ) (msg : Json) (h : Heap) → (h p).id ≢ (h q).id → queued q msg h p ≡ h p
queued-other p q msg h n = ground (arith, nat_eq_iff q p, ap (λ k. (h k).id) {x = p} {y = q})

queued-id : (p q : ℕ) (msg : Json) (h : Heap) → (queued q msg h p).id ≡ (h p).id
queued-id p q msg h = ground (arith, nat_eq_iff q p)

-- An app asks for a device whose agent is connected under another ID, both have room, and the write
-- of the agent's answer succeeds. Then the agent gets the request as the app sent it, its answer is
-- yes, the app gets that answer, and the session is accepted between the two.
pub request-accepted :
    (app agent : ℕ) (req : ConnectRequestPayload) (now later : ℕ) (w : World) (a : Agent) (l : Link)
    → lookup req.device_id w.hub.by_device ≡ some agent
    → (w.heap app).id ≢ (w.heap agent).id
    → (w.heap app).closed ≡ false
    → (w.heap agent).closed ≡ false
    → length (w.heap app).send < send_buffer_size
    → length (w.heap agent).send < send_buffer_size
    → l.accepts l.writes ≡ true
    → (w1 : World) × (w2 : World) × (l' : Link) × (answer : Json) × (handle_message app
          (some (request_message req))
          now
          later
          w
        ≡ ok w1)
      × (w1.heap ≡ queued agent (request_message req) w.heap)
      × (handle_incoming (some (request_message req)) a l ≡ (a, l'))
      × (l'.written ≡ l.written ++ (answer ∷ []))
      × (handle_message agent (some answer) now later w1 ≡ ok w2)
      × (w2.heap ≡ queued app answer w1.heap)
      × ((s : ℕ) × (lookup req.session_id w2.manager.sessions ≡ some s)
          × ((w2.manager.cells s).status ≡ accepted)
          × ((w2.manager.cells s).responder ≡ some agent))
request-accepted app agent req now later w a l f n o1 o2 r1 r2 k =
    let (w1, e1, h1, (s, found, pending', initiator, responder)) =
      request_connection-online app agent req now w f o2 r2 in
    let kept : w1.heap app ≡ w.heap app =
      ap (λ (h : Heap). h app) h1 ∙ queued-other app agent (request_message req) w.heap n in
    let same : (w1.heap agent).id ≡ (w.heap agent).id =
      ap (λ (h : Heap). (h agent).id) h1 ∙ queued-id agent agent (request_message req) w.heap in
    let (w2, e2, h2, found2, status2, responder2) =
      answer_connection-app agent app s (acceptance req) w1 found initiator refl (rw (kept, same) n)
        (rw kept o1) (rw kept r1) in
    (
      w1,
      w2,
      record l { writes = suc l.writes; written = l.written ++ (answer_message req ∷ []) },
      answer_message req,
      handle_message-connect_request app req now later w ∙ e1,
      h1,
      handle_incoming-request req a l k,
      refl,
      handle_message-connect_response agent (acceptance req) now later w1 ∙ e2,
      h2,
      (s, found2, status2, responder2),
    )

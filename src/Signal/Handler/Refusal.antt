-- ===== src/Signal/Handler/Refusal.antt =====
-- handler.go: an agent that refuses a connection.
use cloudbridge.Common.{
  ℕ, ◌≡◌, ◌≢◌, refl, false, String, string_eq, nat_eq_iff, none, some, arith, ok, length, ◌<◌,
}
use cloudbridge.Common.Map.{lookup}
use cloudbridge.Protocol.Messages.{
  ConnectResponsePayload, encode, marshal_connect_response, marshal_error,
}
use cloudbridge.Signal.Client.{send_buffer_size}
use cloudbridge.Signal.Sessions.{reject_session, set_status, deliver, route_to_peer, get_peer}
use cloudbridge.Signal.Handler.{World, answer_connection, conclude_response}
use cloudbridge.Signal.Handler.Connect.{queued, send_error-room}

refused_peer :
    (p s : ℕ) (id : String) (w : World)
    → lookup id w.manager.sessions ≡ some s
    → (w.manager.cells s).responder ≡ none
    → (w.heap (w.manager.cells s).initiator).id ≢ (w.heap p).id
    → get_peer id p w.heap (reject_session id w.manager).1 ≡ none
unfolding set_status get_peer
refused_peer p s id w f e n = ground (
  arith,
  f,
  e,
  n,
  nat_eq_iff s s,
  string_eq.beq_iff (w.heap (w.manager.cells s).initiator).id (w.heap p).id,
)

-- An agent's refusal of a pending session of a client with another ID does not reach that client:
-- the session is rejected, and all that is sent is an error for the agent itself, with room for it.
pub answer_connection-refused :
    (p s : ℕ) (resp : ConnectResponsePayload) (w : World)
    → lookup resp.session_id w.manager.sessions ≡ some s
    → (w.manager.cells s).responder ≡ none
    → resp.accepted ≡ false
    → (w.heap (w.manager.cells s).initiator).id ≢ (w.heap p).id
    → (w.heap p).closed ≡ false
    → length (w.heap p).send < send_buffer_size
    → answer_connection p resp w
      ≡ ok (record w {
        heap =
            queued p
              (encode "error" (
                marshal_error
                  (record { code = "route_failed"; message = "failed to route response to peer" })))
              w.heap;
        manager = (reject_session resp.session_id w.manager).1;
      })
answer_connection-refused p s resp w f e a n o r =
    let sm = (reject_session resp.session_id w.manager).1 in
    let msg = encode "connect_response" (marshal_connect_response resp) in
    let lost : route_to_peer resp.session_id p msg w.heap sm ≡ ok (false, w.heap) =
      unfold route_to_peer in rw (refused_peer p s resp.session_id w f e n, deliver) refl in
    let told =
      send_error-room p "route_failed" "failed to route response to peer"
        (record w { manager = sm }) o r in
    unfold answer_connection in unfold conclude_response in ground (arith, a, lost, told)

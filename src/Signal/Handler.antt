-- ===== src/Signal/Handler.antt =====
-- internal/signal/handler.go: what the server does with a client's message. `Encode` does not fail
-- on the payloads here, so a handler's own result is always nil; what is left is the new state, or
-- the panic of a send on a closed channel.
pub mod Connect
pub mod Dispatch
pub mod Refusal
pub mod Replies
pub mod Rule
mod Tests
use cloudbridge.Common.{
  ℕ, Bool, true, false, String, string_eq, ◌==◌, if◌then◌else◌, Option, none, some, Result, ok,
  ◌>>=◌,
}
use cloudbridge.Protocol.Json.{pos, Json}
use cloudbridge.Protocol.Messages.{
  msg_type_register, msg_type_register_ack, msg_type_heartbeat, msg_type_heartbeat_ack,
  msg_type_connect_request, msg_type_connect_response, msg_type_disconnect, msg_type_sdp_offer,
  msg_type_sdp_answer, msg_type_ice_candidate, msg_type_transport_negotiate, msg_type_error,
  RegisterPayload, ConnectRequestPayload, ConnectResponsePayload, SignalMessage,
  marshal_register_ack, unmarshal_register, unmarshal_heartbeat, marshal_heartbeat_ack,
  marshal_connect_request, unmarshal_connect_request, marshal_connect_response,
  unmarshal_connect_response, marshal_disconnect, unmarshal_disconnect, marshal_sdp, unmarshal_sdp,
  marshal_ice_candidate, unmarshal_ice_candidate, marshal_transport_negotiate,
  unmarshal_transport_negotiate, marshal_error, encode, unmarshal_envelope,
}
use cloudbridge.Signal.Client.{Heap, Message, Panic, try_send}
use cloudbridge.Signal.Hub.{Hub, register_device, update_heartbeat, route_to_device}
use cloudbridge.Signal.Sessions.{
  SessionManager, create_session, accept_session, reject_session, close_session, route_to_peer,
}
use Prim.Native.String.{◌++◌ as concat}

pub record World : Type 0 where
  pub heap : Heap
  pub hub : Hub
  pub manager : SessionManager

-- `json.Unmarshal(data, &payload)` of the envelope's data, which are nil where the key is missing.
abbrev pub unmarshal {ℓ} : {A : Type ℓ} → (Json → Option A) → Option Json → Option A
unmarshal f none = none
unmarshal f (some v) = f v

-- `select { case client.Send <- msg: default: }`
unfoldable pub reply : ℕ → Message → World → Result Panic World
reply p msg w = try_send p msg w.heap >>= λ (sent, h). ok (record w { heap = h })

unfoldable pub send_error : ℕ → String → String → World → Result Panic World
unfolding reply
send_error p code message w =
    reply p (encode msg_type_error (marshal_error (record { code = code; message = message }))) w

-- What the handlers of an agent's registration do with the hub.
unfoldable pub note_device : ℕ → RegisterPayload → ℕ → ℕ → World → World
note_device p reg now later w =
    if (w.heap p).is_agent
    then (let (h, u) =
          register_device p
            (record {
              id = reg.device_id;
              name = reg.device_name;
              platform = reg.platform;
              version = reg.version;
              public_key = reg.public_key;
              registered = 0;
              last_seen = 0;
            })
            now later w.heap w.hub in
        record w { heap = h; hub = u })
    else w

unfoldable pub handle_register : ℕ → Option Json → ℕ → ℕ → World → Result Panic World
unfolding note_device reply send_error
handle_register p body now later w = elim (unmarshal unmarshal_register body) [
  | none ↦ send_error p "invalid_register" "invalid register payload" w
  | some reg ↦
      reply p
        (encode msg_type_register_ack (
          marshal_register_ack
            (record { token = concat "token-" reg.device_id; expires_at = pos 0 })))
        (note_device p reg now later w)
]

unfoldable pub handle_heartbeat : ℕ → Option Json → ℕ → ℕ → World → Result Panic World
unfolding reply send_error
handle_heartbeat p body now millis w = elim (unmarshal unmarshal_heartbeat body) [
  | none ↦ send_error p "invalid_heartbeat" "invalid heartbeat payload" w
  | some hb ↦
      reply p
        (encode msg_type_heartbeat_ack
          (marshal_heartbeat_ack (record { server_time = pos millis })))
        (record w { hub = update_heartbeat (w.heap p).device_id now w.hub })
]

-- After the request has been routed to the device, or not.
unfoldable pub conclude_request :
    ℕ → ConnectRequestPayload → World → Bool × Heap → Result Panic World
unfolding send_error
conclude_request p req w (true, h) = ok (record w { heap = h })
conclude_request p req w (false, h) =
    send_error p "device_offline" (concat "device is not online: " req.device_id)
      (record w { heap = h; manager = (reject_session req.session_id w.manager).1 })

unfoldable pub request_connection : ℕ → ConnectRequestPayload → ℕ → World → Result Panic World
unfolding conclude_request
request_connection p req now w =
    let sm = (create_session req.session_id p req.device_id req.protocols now w.heap w.manager).1 in
    route_to_device req.device_id (encode msg_type_connect_request (marshal_connect_request req))
      w.heap w.hub
    >>= conclude_request p req (record w { manager = sm })

unfoldable pub handle_connect_request : ℕ → Option Json → ℕ → World → Result Panic World
unfolding request_connection send_error
handle_connect_request p body now w = elim (unmarshal unmarshal_connect_request body) [
  | none ↦ send_error p "invalid_connect_request" "invalid connect request payload" w
  | some req ↦ request_connection p req now w
]

unfoldable pub conclude_response : ℕ → World → Bool × Heap → Result Panic World
unfolding send_error
conclude_response p w (true, h) = ok (record w { heap = h })
conclude_response p w (false, h) =
    send_error p "route_failed" "failed to route response to peer" (record w { heap = h })

unfoldable pub answer_connection : ℕ → ConnectResponsePayload → World → Result Panic World
unfolding conclude_response
answer_connection p resp w =
    let sm =
      if resp.accepted
      then (accept_session resp.session_id p w.heap w.manager).1
      else (reject_session resp.session_id w.manager).1 in
    route_to_peer resp.session_id p
      (encode msg_type_connect_response (marshal_connect_response resp)) w.heap sm
    >>= conclude_response p (record w { manager = sm })

unfoldable pub handle_connect_response : ℕ → Option Json → World → Result Panic World
unfolding answer_connection send_error
handle_connect_response p body w = elim (unmarshal unmarshal_connect_response body) [
  | none ↦ send_error p "invalid_connect_response" "invalid connect response payload" w
  | some resp ↦ answer_connection p resp w
]

-- A message for the peer of a session; whether it was delivered is not looked at.
unfoldable pub forward : ℕ → String → Message → World → Result Panic World
forward p session msg w =
    route_to_peer session p msg w.heap w.manager >>= λ (sent, h). ok (record w { heap = h })

unfoldable pub handle_sdp_offer : ℕ → Option Json → World → Result Panic World
unfolding forward send_error
handle_sdp_offer p body w = elim (unmarshal unmarshal_sdp body) [
  | none ↦ send_error p "invalid_sdp_offer" "invalid SDP offer payload" w
  | some offer ↦ forward p offer.session_id (encode msg_type_sdp_offer (marshal_sdp offer)) w
]

unfoldable pub handle_sdp_answer : ℕ → Option Json → World → Result Panic World
unfolding forward send_error
handle_sdp_answer p body w = elim (unmarshal unmarshal_sdp body) [
  | none ↦ send_error p "invalid_sdp_answer" "invalid SDP answer payload" w
  | some answer ↦ forward p answer.session_id (encode msg_type_sdp_answer (marshal_sdp answer)) w
]

unfoldable pub handle_ice_candidate : ℕ → Option Json → World → Result Panic World
unfolding forward send_error
handle_ice_candidate p body w = elim (unmarshal unmarshal_ice_candidate body) [
  | none ↦ send_error p "invalid_ice_candidate" "invalid ICE candidate payload" w
  | some ice ↦
      forward p ice.session_id (encode msg_type_ice_candidate (marshal_ice_candidate ice)) w
]

unfoldable pub handle_transport_negotiate : ℕ → Option Json → World → Result Panic World
unfolding forward send_error
handle_transport_negotiate p body w = elim (unmarshal unmarshal_transport_negotiate body) [
  | none ↦ send_error p "invalid_transport_negotiate" "invalid transport negotiate payload" w
  | some tn ↦
      forward p tn.session_id (encode msg_type_transport_negotiate (marshal_transport_negotiate tn))
        w
]

unfoldable pub handle_disconnect : ℕ → Option Json → World → Result Panic World
unfolding forward send_error
handle_disconnect p body w = elim (unmarshal unmarshal_disconnect body) [
  | none ↦ send_error p "invalid_disconnect" "invalid disconnect payload" w
  | some disc ↦ do
    w' ← forward p disc.session_id (encode msg_type_disconnect (marshal_disconnect disc)) w
    ok (record w' { manager = (close_session disc.session_id w'.manager).1 })
]

unfoldable pub dispatch : ℕ → SignalMessage → ℕ → ℕ → World → Result Panic World
unfolding handle_register handle_heartbeat handle_connect_request handle_connect_response
    handle_sdp_offer handle_sdp_answer handle_ice_candidate handle_transport_negotiate
    handle_disconnect send_error
dispatch p m now later w =
    if m.kind == msg_type_register
    then handle_register p m.body now later w
    else if m.kind == msg_type_heartbeat
    then handle_heartbeat p m.body now later w
    else if m.kind == msg_type_connect_request
    then handle_connect_request p m.body now w
    else if m.kind == msg_type_connect_response
    then handle_connect_response p m.body w
    else if m.kind == msg_type_sdp_offer
    then handle_sdp_offer p m.body w
    else if m.kind == msg_type_sdp_answer
    then handle_sdp_answer p m.body w
    else if m.kind == msg_type_ice_candidate
    then handle_ice_candidate p m.body w
    else if m.kind == msg_type_transport_negotiate
    then handle_transport_negotiate p m.body w
    else if m.kind == msg_type_disconnect
    then handle_disconnect p m.body w
    else send_error p "unknown_type" (concat "unknown message type: " m.kind) w

-- `HandleMessage(client, raw)`; `none` is a text that is no JSON.
unfoldable pub handle_message : ℕ → Option Json → ℕ → ℕ → World → Result Panic World
unfolding dispatch send_error
handle_message p raw now later w = elim (unmarshal unmarshal_envelope raw) [
  | none ↦ send_error p "invalid_message" "invalid message format" w
  | some m ↦ dispatch p m now later w
]

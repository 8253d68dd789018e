-- ===== src/Signal/Server/Tests.antt =====
-- A concrete history of the signal server, and the theorems at it.
use cloudbridge.Common.{
  ℕ, ◌≡◌, ◌≢◌, refl, true, false, [], string_eq, none, some, Result, ok, err, arith,
}
use cloudbridge.Common.Map.{lookup, insert}
use cloudbridge.Protocol.Json.{Json}
use cloudbridge.Protocol.Messages.{
  encode, marshal_connect_request, marshal_connect_response, unmarshal_envelope,
  unmarshal_connect_request, unmarshal_connect_response,
}
use cloudbridge.Signal.Client.{Client, Heap, Panic, send_on_closed_channel, try_send}
use cloudbridge.Signal.Hub.{register_client, route_to_device, route}
use cloudbridge.Signal.Sessions.{
  Session, closed, create_session, accept_session, set_status, get_peer, deliver, route_to_peer,
}
use cloudbridge.Signal.Handler.{
  World, handle_message, dispatch, handle_connect_request, request_connection, conclude_request,
  send_error, reply, handle_connect_response, answer_connection, conclude_response,
}
use cloudbridge.Signal.Server.{
  ServerState, new_server, new_client, connected, Step, connects, handles, Reach, here, next,
}
use cloudbridge.Signal.Server.Invariant.{IsServed}
use cloudbridge.Signal.Server.Safety.{Reach-IsServed, Reach-route_to_peer}
use cloudbridge.Signal.Server.Race.{Reach-deliver}

abbrev no_client : Client
no_client = record { id = ""; is_agent = false; device_id = ""; send = []; closed = false }

abbrev empty_heap : Heap
empty_heap p = no_client

abbrev no_sessions : ℕ → Session
no_sessions s = record {
  id = "";
  initiator = 0;
  responder = none;
  device_id = "";
  protocols = none;
  created_at = 0;
  status = closed;
}

abbrev empty_server : ServerState
empty_server = new_server empty_heap no_sessions

-- Pointer 0 is an app, pointer 1 an agent.
abbrev both : ServerState
both = connected 1 (new_client "2" true) (connected 0 (new_client "1" false) empty_server)

abbrev request : Json
request =
    encode "connect_request"
      (marshal_connect_request (record { session_id = "s"; device_id = "dev-1"; protocols = none }))

abbrev acceptance : Json
acceptance =
    encode "connect_response"
      (marshal_connect_response (record { session_id = "s"; accepted = true; reason = "" }))

abbrev or_same : World → Result Panic World → World
or_same w (ok w') = w'
or_same w (err x) = w

abbrev after : ℕ → Json → ServerState → ServerState
after p msg s = record s { world = or_same s.world (handle_message p (some msg) 5 6 s.world) }

-- The app has asked for a session, and the agent has accepted it.
abbrev asked : ServerState
asked = after 0 request both

abbrev answered : ServerState
answered = after 1 acceptance asked

both_reached : Reach empty_server both
both_reached = next (next here (connects 0 "1" false refl)) (connects 1 "2" true refl)

asked_step : Step both asked
unfolding handle_message dispatch handle_connect_request request_connection conclude_request
    send_error reply try_send route_to_device route create_session set_status encode
    unmarshal_envelope unmarshal_connect_request marshal_connect_response marshal_connect_request
    register_client lookup insert
asked_step = handles 0 (some request) 5 6 asked.world refl refl

answered_step : Step asked answered
unfolding handle_message dispatch handle_connect_request request_connection conclude_request
    send_error reply try_send route_to_device route create_session set_status encode
    unmarshal_envelope unmarshal_connect_request marshal_connect_response marshal_connect_request
    register_client lookup insert handle_connect_response answer_connection conclude_response
    accept_session route_to_peer get_peer deliver unmarshal_connect_response
answered_step = handles 1 (some acceptance) 5 6 answered.world refl refl

answered_reached : Reach empty_server answered
answered_reached = next (next both_reached asked_step) answered_step

answered_peer : get_peer "s" 1 answered.world.heap answered.world.manager ≡ some (some 0)
unfolding handle_message dispatch handle_connect_request request_connection conclude_request
    send_error reply try_send route_to_device route create_session set_status encode
    unmarshal_envelope unmarshal_connect_request marshal_connect_response marshal_connect_request
    register_client lookup insert handle_connect_response answer_connection conclude_response
    accept_session route_to_peer get_peer deliver unmarshal_connect_response
answered_peer = refl

Reach-IsServed_example : IsServed answered.phase answered.world
Reach-IsServed_example = Reach-IsServed empty_heap no_sessions answered_reached

Reach-route_to_peer_example :
    route_to_peer "s" 1 request answered.world.heap answered.world.manager
    ≢ err send_on_closed_channel
Reach-route_to_peer_example =
    Reach-route_to_peer empty_heap no_sessions "s" 1 request send_on_closed_channel answered_reached

Reach-deliver_example :
    (t : ServerState) × Reach answered t
    × (t.phase 1 ≡ answered.phase 1)
    × (deliver (get_peer "s" 1 answered.world.heap answered.world.manager) request t.world.heap
        ≡ err send_on_closed_channel)
Reach-deliver_example =
    Reach-deliver empty_heap no_sessions "s" 1 0 request answered_reached
      (λ e. absurd (omega (arith, e))) refl answered_peer

-- ===== src/Signal/Handler/Tests.antt =====
-- handler.go at concrete inputs, and the theorems at inputs that meet their hypotheses.
use cloudbridge.Common.{
  ℕ, ◌≡◌, refl, true, false, [], ◌∷◌, string_eq, ne_of_beq, nat_eq, if◌then◌else◌, none, some, ok,
  arith,
}
use cloudbridge.Common.Map.{lookup}
use cloudbridge.Protocol.Json.{Json, str, obj, field, end}
use cloudbridge.Protocol.Messages.{
  marshal_connect_request, ConnectRequestPayload, ConnectResponsePayload, encode, marshal_error,
  unmarshal_envelope,
}
use cloudbridge.Signal.Client.{Client, Heap, try_send}
use cloudbridge.Signal.Hub.{new_hub}
use cloudbridge.Signal.Sessions.{pending, reject_session, Session, SessionManager, closed}
use cloudbridge.Signal.Handler.{
  World, request_connection, answer_connection, handle_message, dispatch, send_error, reply,
}
use cloudbridge.Signal.Handler.Connect.{request_connection-online, queued}
use cloudbridge.Signal.Handler.Refusal.{answer_connection-refused}
use cloudbridge.Signal.Handler.Replies.{handle_message-by_device}

abbrev app : Client
app = record { id = "cl-1"; is_agent = false; device_id = ""; send = []; closed = false }

abbrev agent : Client
agent = record { id = "cl-2"; is_agent = true; device_id = "dev-1"; send = []; closed = false }

-- Pointer 0 is the app, the others are the agent.
abbrev both : Heap
both p = if nat_eq p 0 then app else agent

abbrev request : ConnectRequestPayload
request = record { session_id = "s"; device_id = "dev-1"; protocols = some ("ssh" ∷ []) }

abbrev other_request : ConnectRequestPayload
other_request = record request { device_id = "dev-2" }

abbrev empty_session : Session
empty_session = record {
  id = "";
  initiator = 0;
  responder = none;
  device_id = "";
  protocols = none;
  created_at = 0;
  status = closed;
}

abbrev manager_at : ℕ → SessionManager
manager_at n = record { cells = λ s. empty_session; next = n; sessions = []; by_client = [] }

abbrev world : World
world = record {
  heap = both;
  hub = record new_hub { by_device = ("dev-1", 1) ∷ [] };
  manager = manager_at 0;
}

-- The app has asked for the session.
abbrev asked : World
asked = record world { manager = record (manager_at 1) { sessions = ("s", 0) ∷ [] } }

abbrev acceptance : ConnectResponsePayload
acceptance = record { session_id = "s"; accepted = true; reason = "" }

request_connection-online_example :
    (w' : World) × (request_connection 0 request 5 world ≡ ok w')
    × (w'.heap ≡ queued 1 (encode "connect_request" (marshal_connect_request request)) both)
    × ((s : ℕ) × (lookup "s" w'.manager.sessions ≡ some s)
        × ((w'.manager.cells s).status ≡ pending)
        × ((w'.manager.cells s).initiator ≡ 0)
        × ((w'.manager.cells s).responder ≡ none))
unfolding lookup
request_connection-online_example =
    request_connection-online 0 1 request 5 world refl refl (omega arith)

abbrev told : World
told = record world {
  heap =
      queued 0
        (encode "error" (
          marshal_error
            (record { code = "unknown_type"; message = "unknown message type: hello" })))
        both;
}

-- A message of a type that no handler has.
abbrev hello : Json
hello = obj (field "type" (str "hello") end)

handle_message-hello : handle_message 0 (some hello) 5 6 world ≡ ok told
unfolding handle_message dispatch send_error reply try_send unmarshal_envelope
handle_message-hello = refl

handle_message-by_device_example : told.hub.by_device ≡ ("dev-1", 1) ∷ []
handle_message-by_device_example =
    handle_message-by_device 0 (some hello) 5 6 world told refl handle_message-hello

abbrev refusal : ConnectResponsePayload
refusal = record { session_id = "s"; accepted = false; reason = "busy" }

answer_connection-refused_example :
    answer_connection 1 refusal asked
    ≡ ok (record asked {
      heap =
          queued 1
            (encode "error" (
              marshal_error
                (record { code = "route_failed"; message = "failed to route response to peer" })))
            both;
      manager = (reject_session "s" asked.manager).1;
    })
unfolding lookup
answer_connection-refused_example =
    answer_connection-refused 1 0 refusal asked refl refl refl (ne_of_beq "cl-1" "cl-2" refl) refl
      (omega arith)

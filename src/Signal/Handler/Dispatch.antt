-- ===== src/Signal/Handler/Dispatch.antt =====
-- handler.go: the two messages of a connection's set-up reach their handlers as they were encoded.
use cloudbridge.Common.{ℕ, ◌≡◌, string_eq, some, arith}
use cloudbridge.Protocol.Messages.{
  msg_type_connect_request, msg_type_connect_response, ConnectRequestPayload,
  ConnectResponsePayload, encode, unmarshal_envelope, marshal_connect_request,
  marshal_connect_response,
}
use cloudbridge.Protocol.Messages.RoundTrip.{unmarshal-marshal}
use cloudbridge.Signal.Handler.{
  World, handle_connect_request, handle_connect_response, request_connection, answer_connection,
  dispatch, handle_message,
}

pub handle_message-connect_request :
    (p : ℕ) (req : ConnectRequestPayload) (now later : ℕ) (w : World)
    → handle_message p
        (some (encode msg_type_connect_request (marshal_connect_request req)))
        now
        later
        w
      ≡ request_connection p req now w
unfolding handle_message dispatch handle_connect_request encode unmarshal_envelope
handle_message-connect_request p req now later w = ground (arith, unmarshal-marshal.2 req)

pub handle_message-connect_response :
    (p : ℕ) (resp : ConnectResponsePayload) (now later : ℕ) (w : World)
    → handle_message p
        (some (encode msg_type_connect_response (marshal_connect_response resp)))
        now
        later
        w
      ≡ answer_connection p resp w
unfolding handle_message dispatch handle_connect_response encode unmarshal_envelope
handle_message-connect_response p resp now later w = ground (arith, unmarshal-marshal.3 resp)

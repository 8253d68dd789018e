-- ===== src/Relay/Client/Tests.antt =====
-- client.go at concrete inputs, and the theorem at an input that meets its hypotheses.
use cloudbridge.Common.{◌≡◌, refl, [], ◌∷◌, none, some, ok, err}
use cloudbridge.Common.Reader.{read_full, read_byte, buf_read}
use cloudbridge.Common.Writer.{Pipe, pipe_write, pipe_writer}
use cloudbridge.Relay.Handshake.{
  HandshakeMessage, read_handshake_ack, ack_steps, write_handshake, write_result, refused,
  peer_type_initiator,
}
use cloudbridge.Relay.Handshake.RoundTrip.{wire}
use cloudbridge.Relay.Client.{
  Socket, dial_relay, reading_ack, connect_to_relay, connect_as_initiator, connect_as_responder,
}

-- "s1"
abbrev message : HandshakeMessage
message = record { session_id = 115 ∷ 49 ∷ []; peer_type = peer_type_initiator }

-- A connection on which the acknowledgment comes in two segments.
abbrev socket : Socket Pipe
socket = record {
  incoming = (67 ∷ 66 ∷ []) ∷ (76 ∷ 68 ∷ 0 ∷ []) ∷ [];
  outgoing = record { sent = []; room = 100 };
}

abbrev client_socket : Socket Pipe
client_socket = record { incoming = []; outgoing = record { sent = wire message; room = 90 } }

no_relay : connect_as_initiator pipe_writer none (115 ∷ []) ≡ err dial_relay
unfolding connect_to_relay
no_relay = refl

refused_by_relay :
    connect_as_responder pipe_writer
      (some (record socket { incoming = (67 ∷ 66 ∷ 76 ∷ 68 ∷ 1 ∷ 0 ∷ 1 ∷ 33 ∷ []) ∷ [] }))
      (115 ∷ [])
    ≡ err (reading_ack (refused (33 ∷ [])))
unfolding connect_to_relay write_handshake write_result pipe_write read_handshake_ack ack_steps
    read_full read_byte buf_read
refused_by_relay = refl

connects :
    connect_to_relay pipe_writer (some socket) message.session_id message.peer_type
    ≡ ok client_socket
unfolding connect_to_relay write_handshake write_result pipe_write read_handshake_ack ack_steps
    read_full read_byte buf_read
connects = refl

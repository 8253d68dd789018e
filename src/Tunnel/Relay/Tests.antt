-- ===== src/Tunnel/Relay/Tests.antt =====
-- relay.go at concrete inputs, and the theorem at an input that meets its hypotheses.
use cloudbridge.Common.{
  ok, ok_injective, ap, arith, ℕ, ◌≡◌, refl, true, List, [], ◌∷◌, ◌++◌, none, some, err,
}
use cloudbridge.Common.Reader.{Conn, stream}
use cloudbridge.Tunnel.Relay.RoundTrip.{IsWire, read_relay_frame-write_relay_frame}
use cloudbridge.Common.Writer.{Pipe, pipe_write, pipe_writer}
use cloudbridge.Protocol.Frame.{Frame, marshal_binary, unmarshal_binary, write_to, frame_too_short}
use cloudbridge.Relay.Client.{Socket}
use cloudbridge.Tunnel.Relay.{
  RelayTransport, nil_connection, closed_connection, unmarshalling_frame, read_relay_frame,
  write_relay_frame, close_relay, new_relay_transport_as_initiator,
}

abbrev hello_wire : List ℕ
hello_wire = 0 ∷ 2 ∷ 1 ∷ 0 ∷ 0 ∷ 0 ∷ 2 ∷ 104 ∷ 105 ∷ []

abbrev unopened : RelayTransport Pipe
unopened = new_relay_transport_as_initiator none (115 ∷ [])

abbrev near_socket : Socket Pipe
near_socket = record { incoming = []; outgoing = record { sent = []; room = 100 } }

abbrev far_socket : Socket Pipe
far_socket = record {
  incoming = (0 ∷ 2 ∷ 1 ∷ []) ∷ (0 ∷ 0 ∷ 0 ∷ 2 ∷ 104 ∷ []) ∷ (105 ∷ 5 ∷ []) ∷ [];
  outgoing = record { sent = []; room = 0 };
}

abbrev opened : Socket Pipe → RelayTransport Pipe
opened s = record unopened { conn = some s }

read_unopened : read_relay_frame unopened ≡ err nil_connection
unfolding read_relay_frame
read_unopened = refl

close_twice :
    (close_relay (record unopened { conn = some near_socket; closed = true })).0
    ≡ some closed_connection
unfolding close_relay
close_twice = refl

write_short :
    (write_relay_frame pipe_writer (1 ∷ 2 ∷ []) (opened near_socket)).0
    ≡ some (unmarshalling_frame frame_too_short)
unfolding write_relay_frame unmarshal_binary
write_short = refl

abbrev after : RelayTransport Pipe
after = opened (record near_socket { outgoing = record { sent = hello_wire; room = 91 } })

-- One byte behind the frame is not sent.
write_extra :
    write_relay_frame pipe_writer (hello_wire ++ (9 ∷ [])) (opened near_socket) ≡ (none, after)
unfolding write_relay_frame unmarshal_binary marshal_binary write_to pipe_write
write_extra = refl

read_relay_frame-write_relay_frame_example :
    (f : Frame) × (wire : List ℕ) × (extra : List ℕ) × (c : Conn) × IsWire f wire
    × (hello_wire ++ (9 ∷ []) ≡ wire ++ extra)
    × (read_relay_frame (opened far_socket)
        ≡ ok (wire, opened (record far_socket { incoming = c })))
    × (stream c ≡ 5 ∷ [])
read_relay_frame-write_relay_frame_example =
    read_relay_frame-write_relay_frame pipe_writer (opened near_socket) after near_socket
      (opened far_socket) far_socket (hello_wire ++ (9 ∷ [])) (5 ∷ []) refl refl (omega arith)
      write_extra refl
      (λ s' u. ap (λ (s : Socket Pipe). s.outgoing.sent ++ (5 ∷ [])) (ok_injective u))

-- ===== src/Agent/Proxy/Tests.antt =====
-- The loops of tunnel.go at concrete inputs, and the theorems at inputs that meet their hypotheses.
use cloudbridge.Common.{
  flatten, ℕ, ◌≡◌, refl, ap, true, List, [], ◌∷◌, ◌++◌, take, length, Option, none, some, arith, ok,
  inl, ok_injective,
}
use cloudbridge.Common.Reader.{Conn, IoError, read_full, read_byte, buf_read, conn_read}
use cloudbridge.Common.Writer.{Writer, Pipe, pipe_write, pipe_writer}
use cloudbridge.Protocol.Frame.{
  Frame, frame_data, stream_shell, marshal_binary, unmarshal_binary, read_from, write_to,
}
use cloudbridge.Relay.Handshake.{
  write_handshake, write_result, read_handshake_ack, ack_steps, read_handshake, handshake_steps,
}
use cloudbridge.Relay.Client.{Socket, connect_to_relay}
use cloudbridge.Relay.Forward.AtOnce.{copy_at_once}
use cloudbridge.Tunnel.Relay.{
  TransportError, RelayTransport, relay_transport, read_relay_frame, write_relay_frame,
  new_relay_transport_as_initiator, open_relay,
}
use cloudbridge.Agent.Proxy.{
  transport_failed, shell_read, blocks, returned, waits_forever, proxy_data, send_chunks,
  deliver_frame, receive_frames, receive_all, proxy_data_frames,
}
use cloudbridge.Agent.Proxy.ThroughRelay.{handshake_of, receive_all-relayed}

-- A shell that takes every byte.
abbrev shell_write_bytes : List ℕ → List ℕ → ℕ × Option IoError × List ℕ
shell_write_bytes bytes sh = (length bytes, none, sh ++ bytes)

take_whole : (bytes : List ℕ) → take (length bytes) bytes ≡ bytes
take_whole [] = refl
take_whole (b ∷ bytes) = ap (λ (bs : List ℕ). b ∷ bs) (take_whole bytes)

abbrev shell : Writer (List ℕ)
shell = record {
  write = shell_write_bytes;
  written = λ sh. sh;
  write_all = λ bytes sh h. (refl, refl);
  write_part = λ bytes sh. (omega arith, rw (take_whole bytes) refl);
}

-- Two chunks that the shell sends, as frames, and a ping between them.
abbrev sent_bytes : List ℕ
sent_bytes = 0 ∷ 2 ∷ 1 ∷ 0 ∷ 0 ∷ 0 ∷ 2 ∷ 104 ∷ 105 ∷ 0 ∷ 2 ∷ 1 ∷ 0 ∷ 0 ∷ 0 ∷ 1 ∷ 10 ∷ []

abbrev opened : Conn → List ℕ → ℕ → RelayTransport Pipe
opened c out left = record (new_relay_transport_as_initiator none (115 ∷ [])) {
  conn = some (record { incoming = c; outgoing = record { sent = out; room = left } });
}

abbrev far_socket : Socket Pipe
far_socket = record {
  incoming =
      (0 ∷ 2 ∷ 1 ∷ 0 ∷ 0 ∷ 0 ∷ 2 ∷ 104 ∷ [])
      ∷ (105 ∷ 0 ∷ 2 ∷ 1 ∷ [])
      ∷ (0 ∷ 0 ∷ 0 ∷ 1 ∷ 10 ∷ [])
      ∷ [];
  outgoing = record { sent = []; room = 0 };
}

sends :
    send_chunks
      (relay_transport pipe_writer)
      2
      ((104 ∷ 105 ∷ []) ∷ (10 ∷ []) ∷ [])
      (opened [] [] 100)
    ≡ (shell_read, opened [] sent_bytes 83)
unfolding send_chunks write_relay_frame unmarshal_binary marshal_binary write_to pipe_write
sends = refl

-- Frames of another stream or of another type are not for the shell.
drops_ping :
    (receive_frames
      (relay_transport pipe_writer)
      shell
      3
      2
      (opened
        ((0 ∷ 0 ∷ 5 ∷ 0 ∷ 0 ∷ 0 ∷ 1 ∷ 7 ∷ []) ∷ (0 ∷ 2 ∷ 5 ∷ 0 ∷ 0 ∷ 0 ∷ 1 ∷ 7 ∷ []) ∷ [])
        []
        0)
      (9 ∷ [])).2
    ≡ 9 ∷ []
unfolding receive_frames deliver_frame read_relay_frame unmarshal_binary marshal_binary read_from
    read_full conn_read
drops_ping = refl

no_error : proxy_data {E = ℕ} true none none ≡ returned none
no_error = refl

abbrev frames : List Frame
frames =
    record { stream_id = stream_shell; frame_type = frame_data; payload = 104 ∷ 105 ∷ [] }
    ∷ record { stream_id = stream_shell; frame_type = frame_data; payload = 10 ∷ [] }
    ∷ []

-- What the far end sends comes to the shell, and nothing ends the wait.
waits :
    (proxy_data_frames
      (relay_transport pipe_writer)
      shell
      (λ sh. [])
      true
      2
      ((104 ∷ []) ∷ [])
      blocks
      (opened far_socket.incoming [] 100)
      (36 ∷ [])).0
    ≡ waits_forever
unfolding proxy_data_frames receive_all receive_frames deliver_frame send_chunks write_relay_frame
    read_relay_frame unmarshal_binary marshal_binary read_from read_full conn_read write_to
    pipe_write
waits = refl

-- "s"
abbrev greeting : List ℕ
greeting = 67 ∷ 66 ∷ 76 ∷ 68 ∷ 1 ∷ 0 ∷ 1 ∷ 115 ∷ 1 ∷ []

abbrev new_socket : Socket Pipe
new_socket = record {
  incoming = (67 ∷ 66 ∷ 76 ∷ 68 ∷ 0 ∷ []) ∷ [];
  outgoing = record { sent = []; room = 109 };
}

abbrev unopened : RelayTransport Pipe
unopened = new_relay_transport_as_initiator (some new_socket) (115 ∷ [])

abbrev linked : List ℕ → ℕ → RelayTransport Pipe
linked out left = record unopened {
  conn = some (record { incoming = []; outgoing = record { sent = out; room = left } });
}

opens : open_relay pipe_writer unopened ≡ (none, linked greeting 100)
unfolding open_relay connect_to_relay write_handshake write_result pipe_write read_handshake_ack
    ack_steps read_full read_byte buf_read
opens = refl

sends_on :
    send_chunks
      (relay_transport pipe_writer)
      2
      ((104 ∷ 105 ∷ []) ∷ (10 ∷ []) ∷ [])
      (linked greeting 100)
    ≡ (shell_read, linked (greeting ++ sent_bytes) 83)
unfolding send_chunks write_relay_frame unmarshal_binary marshal_binary write_to pipe_write
sends_on = refl

relay_reads :
    read_handshake (greeting ∷ []) ≡ ok (record { session_id = 115 ∷ []; peer_type = 1 }, [])
unfolding read_handshake handshake_steps read_full read_byte buf_read
relay_reads = refl

relay_copies :
    (copy_at_once pipe_writer).copy (sent_bytes ∷ []) (record { sent = 5 ∷ []; room = 20 })
    ≡ (17, none, record { sent = 5 ∷ sent_bytes; room = 3 })
unfolding pipe_write
relay_copies = refl

receive_all-relayed_example :
    (handshake_of unopened ≡ handshake_of unopened)
    × (17 ≡ length sent_bytes)
    × ((e : TransportError) × (far : RelayTransport Pipe) × (sh : List ℕ) × (receive_all
            (relay_transport pipe_writer)
            shell
            2
            (opened far_socket.incoming [] 0)
            (36 ∷ [])
          ≡ (some (transport_failed e), far, sh))
        × (sh ≡ 36 ∷ 104 ∷ 105 ∷ 10 ∷ []))
unfolding flatten
receive_all-relayed_example =
    receive_all-relayed pipe_writer pipe_writer pipe_writer shell (copy_at_once pipe_writer) 2
      ((104 ∷ 105 ∷ []) ∷ (10 ∷ []) ∷ []) unopened (linked greeting 100)
      (linked (greeting ++ sent_bytes) 83) new_socket
      (record { incoming = []; outgoing = record { sent = greeting; room = 100 } }) (greeting ∷ [])
      [] (sent_bytes ∷ []) (handshake_of unopened) (record { sent = 5 ∷ []; room = 20 })
      (record { sent = 5 ∷ sent_bytes; room = 3 }) 17 (opened far_socket.incoming [] 0)
      (record far_socket { outgoing = record { sent = []; room = 0 } }) (36 ∷ []) (omega arith)
      (omega arith)
      (record { id_present = omega arith; id_fits = omega arith; known_peer = inl refl }) refl refl
      opens refl sends_on (omega arith) refl relay_reads
      (λ s' u. ap (λ (s : Socket Pipe). s.outgoing.sent) (ok_injective u)) relay_copies refl refl
      (λ bytes sh. refl)

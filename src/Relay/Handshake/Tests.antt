-- ===== src/Relay/Handshake/Tests.antt =====
-- handshake.go at concrete inputs, and the theorems at inputs that meet their hypotheses.
use cloudbridge.Common.{◌↔◌, ℕ, ◌≡◌, refl, List, [], ◌∷◌, ◌++◌, arith, ok, err, inl}
use cloudbridge.Common.Reader.{
  Conn, stream, new_buf_reader, unexpected_eof, buf_read, read_full, read_byte,
}
use cloudbridge.Common.Reader.Laws.{flat, buf_reader}
use cloudbridge.Relay.Handshake.{
  HandshakeMessage, handshake_steps, read_handshake, read_session_id, invalid_id_length,
  invalid_peer_type, peer_type_initiator,
}
use cloudbridge.Relay.Handshake.RoundTrip.{IsHandshake, wire, handshake_steps_iff}
use cloudbridge.Relay.Handshake.Segments.{read_handshake-ok}

-- "s1"
abbrev message : HandshakeMessage
message = record { session_id = 115 ∷ 49 ∷ []; peer_type = peer_type_initiator }

message-IsHandshake : IsHandshake message
message-IsHandshake = record {
  id_present = omega arith;
  id_fits = omega arith;
  known_peer = inl refl;
}

-- The message in two segments, and then three bytes more in the second and a third segment.
abbrev pieces : Conn
pieces = (67 ∷ 66 ∷ 76 ∷ []) ∷ (68 ∷ 1 ∷ 0 ∷ 2 ∷ 115 ∷ 49 ∷ 1 ∷ 7 ∷ 8 ∷ 9 ∷ []) ∷ (5 ∷ []) ∷ []

read_pieces : read_handshake pieces ≡ ok (message, (5 ∷ []) ∷ [])
unfolding read_handshake handshake_steps read_full read_byte buf_read
read_pieces = refl

read_cut :
    read_handshake ((67 ∷ 66 ∷ 76 ∷ 68 ∷ 1 ∷ 0 ∷ 2 ∷ 115 ∷ []) ∷ [])
    ≡ err (read_session_id unexpected_eof)
unfolding read_handshake handshake_steps read_full read_byte buf_read
read_cut = refl

read_empty_id :
    read_handshake ((67 ∷ 66 ∷ 76 ∷ 68 ∷ 1 ∷ 0 ∷ 0 ∷ 1 ∷ []) ∷ []) ≡ err (invalid_id_length 0)
unfolding read_handshake handshake_steps read_full read_byte buf_read
read_empty_id = refl

read_third_peer :
    read_handshake ((67 ∷ 66 ∷ 76 ∷ 68 ∷ 1 ∷ 0 ∷ 1 ∷ 115 ∷ 3 ∷ []) ∷ []) ≡ err (invalid_peer_type 3)
unfolding read_handshake handshake_steps read_full read_byte buf_read
read_third_peer = refl

handshake_steps_iff_example :
    (flat buf_reader (handshake_steps buf_reader (new_buf_reader pieces))
      ≡ ok (message, 7 ∷ 8 ∷ 9 ∷ 5 ∷ []))
    ↔ (IsHandshake message × (stream pieces ≡ wire message ++ (7 ∷ 8 ∷ 9 ∷ 5 ∷ [])))
handshake_steps_iff_example =
    handshake_steps_iff buf_reader (new_buf_reader pieces) message (7 ∷ 8 ∷ 9 ∷ 5 ∷ [])
      (omega arith)

abbrev long_id : ℕ → List ℕ
long_id ℕ.zero = []
long_id (ℕ.suc n) = 97 ∷ long_id n

read_handshake-ok_example :
    IsHandshake message × ((lost : List ℕ) × (stream pieces ≡ wire message ++ (lost ++ (5 ∷ []))))
read_handshake-ok_example =
    read_handshake-ok pieces ((5 ∷ []) ∷ []) message (omega arith) read_pieces

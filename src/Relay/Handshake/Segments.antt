-- ===== src/Relay/Handshake/Segments.antt =====
-- handshake.go: `ReadHandshake` and `ReadHandshakeAck` on a connection that delivers segments.
-- Both read through a `bufio.Reader` of their own, which is gone when they return.
use cloudbridge.Common.{
  ℕ, ◌≤◌, ◌≡◌, refl, List, [], ◌∷◌, ◌++◌, arith, bytes_eq, length, Result, ok, err, append_assoc,
}
use cloudbridge.Common.Words.{IsBytes}
use cloudbridge.Common.Reader.{
  Conn, stream, BufReader, buf_content, new_buf_reader, default_buf_size,
}
use cloudbridge.Common.Reader.Laws.{flat, buf_reader}
use cloudbridge.Common.Reader.Buffered.{
  holding, read_full-holding, read_byte-holding, read_full-fill,
}
use cloudbridge.Relay.Handshake.{
  HandshakeMessage, HandshakeError, handshake_magic, handshake_version, length_bytes,
  handshake_steps, leave, read_handshake,
}
use cloudbridge.Relay.Handshake.RoundTrip.{IsHandshake, wire, handshake_steps_iff}

leave-ok :
    (r : Result HandshakeError (HandshakeMessage × BufReader)) (m : HandshakeMessage) (c : Conn)
    → leave r ≡ ok (m, c)
    → (t : BufReader) × (r ≡ ok (m, t)) × (t.conn ≡ c)
leave-ok (ok (n, t)) m c h = (t, ground arith, ground arith)
leave-ok (err e) m c h = cc

flat-ok-inv :
    (r : Result HandshakeError (HandshakeMessage × BufReader)) (m : HandshakeMessage)
    (rest : List ℕ)
    → flat buf_reader r ≡ ok (m, rest)
    → (t : BufReader) × (r ≡ ok (m, t)) × (buf_content t ≡ rest)
flat-ok-inv (ok (n, t)) m rest h = (t, ground arith, ground arith)
flat-ok-inv (err e) m rest h = cc

-- Where `ReadHandshake` succeeds, the connection's stream began with the message, and what is left
-- of the connection is what followed it, less a front that was buffered and is lost.
pub read_handshake-ok :
    (c c' : Conn) (m : HandshakeMessage)
    → IsBytes (stream c)
    → read_handshake c ≡ ok (m, c')
    → IsHandshake m × ((lost : List ℕ) × (stream c ≡ wire m ++ (lost ++ stream c')))
unfolding read_handshake
read_handshake-ok c c' m v h =
    let (t, e, is) = leave-ok (handshake_steps buf_reader (new_buf_reader c)) m c' h in
    let (good, split) =
      (handshake_steps_iff buf_reader (new_buf_reader c) m (buf_content t) v).0 (rw e) in
    (good, (t.buffered, rw (← is) split))

-- `ReadHandshake` accepts a valid handshake whatever segments it comes in.
pub read_handshake-accepts :
    (c : Conn) (m : HandshakeMessage) (rest : List ℕ)
    → IsBytes (stream c)
    → IsHandshake m
    → stream c ≡ wire m ++ rest
    → (c' : Conn) × (read_handshake c ≡ ok (m, c'))
unfolding read_handshake
read_handshake-accepts c m rest v h e =
    let r = handshake_steps buf_reader (new_buf_reader c) in
    let (t, is, _) =
      flat-ok-inv r m rest
        ((handshake_steps_iff buf_reader (new_buf_reader c) m rest v).1 (h, e)) in
    (t.conn, rw is)

-- The steps when the whole message is in the buffer: the connection is not read.
steps-holding :
    (m : HandshakeMessage) (extra : List ℕ) (c : Conn)
    → IsHandshake m
    → handshake_steps buf_reader (holding (wire m ++ extra) c) ≡ ok (m, holding extra c)
unfolding handshake_steps
steps-holding m extra c v =
    let id = m.session_id in
    let n = length id in
    let after = m.peer_type ∷ extra in
    ground (
      arith,
      read_full-holding 4 handshake_magic
          (handshake_version ∷ (length_bytes n ++ ((id ++ (m.peer_type ∷ [])) ++ extra))) c
          (omega arith) refl,
      read_byte-holding handshake_version (length_bytes n ++ ((id ++ (m.peer_type ∷ [])) ++ extra))
          c,
      read_full-holding 2 (length_bytes n) (id ++ after) c (omega arith) refl,
      read_full-holding n id after c v.id_present refl,
      read_byte-holding m.peer_type extra c,
      append_assoc id (m.peer_type ∷ []) extra,
      v.known_peer,
      v.id_fits,
    )

steps-fill :
    (x : ℕ) (xs : List ℕ) (c : Conn)
    → length (x ∷ xs) ≤ default_buf_size
    → handshake_steps buf_reader (new_buf_reader ((x ∷ xs) ∷ c))
      ≡ handshake_steps buf_reader (holding (x ∷ xs) c)
unfolding handshake_steps
steps-fill x xs c h = rw (read_full-fill 3 x xs c (omega arith) h)

-- Bytes that come in one segment with the handshake are lost: `ReadHandshake` leaves the
-- connection at the next segment, whatever stood behind the handshake in the first.
pub read_handshake-drops :
    (m : HandshakeMessage) (extra : List ℕ) (c : Conn)
    → IsHandshake m
    → length (wire m ++ extra) ≤ default_buf_size
    → read_handshake ((wire m ++ extra) ∷ c) ≡ ok (m, c)
unfolding read_handshake
read_handshake-drops m extra c v h = rw (steps-fill _ _ c h, steps-holding m extra c v)

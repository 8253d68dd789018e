-- ===== src/Relay/Handshake.antt =====
-- internal/relay/handshake.go. Strings are lists of bytes; an error keeps what its text prints.
pub mod Parse
pub mod RoundTrip
pub mod Segments
mod Tests
use cloudbridge.Common.{
  ℕ, zero, suc, ◌+◌, ◌-◌, ◌*◌, ◌/◌, ◌%◌, ◌^◌, ◌≤◌, ◌<◌, Bool, true, false, not, ◌&&◌, ◌||◌, List,
  [], ◌∷◌, ◌++◌, Option, none, some, ltb, leb, nat_eq, ◌==◌, bytes_eq, if◌then◌else◌, length, take,
  drop, Result, ok, err, ◌>>=◌, ◌>>◌, guard, wrap,
}
use cloudbridge.Common.Words.{IsBytes, byte_at, uint16_at}
use cloudbridge.Common.Reader.{
  IoError, Reader, BufReader, Conn, new_buf_reader, read_full, read_byte,
}
use cloudbridge.Common.Reader.Laws.{buf_reader}
use cloudbridge.Common.Writer.{Writer}

-- "CBLD"
abbrev pub handshake_magic : List ℕ
handshake_magic = b'C' ∷ b'B' ∷ b'L' ∷ b'D' ∷ []

abbrev pub handshake_version : ℕ
handshake_version = 1

abbrev pub peer_type_initiator : ℕ
peer_type_initiator = 1

abbrev pub peer_type_responder : ℕ
peer_type_responder = 2

abbrev pub status_ok : ℕ
status_ok = 0

abbrev pub status_error : ℕ
status_error = 1

pub record HandshakeMessage : Type 0 where
  pub session_id : List ℕ
  pub peer_type : ℕ

pub data HandshakeError : Type 0 where
  session_id_too_long : ℕ → HandshakeError
  read_magic read_version read_id_length read_session_id read_peer_type : IoError → HandshakeError
  invalid_magic : List ℕ → HandshakeError
  unsupported_version invalid_id_length invalid_peer_type : ℕ → HandshakeError
  read_status read_message_length read_message : IoError → HandshakeError
  refused : List ℕ → HandshakeError
  write_error : IoError → HandshakeError

-- `byte(n >> 8), byte(n)`
abbrev pub length_bytes : ℕ → List ℕ
length_bytes n = (n / 256 % 256) ∷ (n % 256) ∷ []

-- What `WriteHandshake` appends to its buffer.
abbrev pub handshake_bytes : List ℕ → ℕ → List ℕ
handshake_bytes id peer =
    handshake_magic ++ (handshake_version ∷ (length_bytes (length id) ++ (id ++ (peer ∷ []))))

-- The answer of a write without its count.
unfoldable pub write_result {ℓ} : {W : Type ℓ} → ℕ × Option IoError × W → Option HandshakeError × W
write_result (n, none, w) = (none, w)
write_result (n, some e, w) = (some (write_error e), w)

module _ {W : Type 0} (Out : Writer W) where
  unfoldable pub write_handshake : List ℕ → ℕ → W → Option HandshakeError × W
  unfolding write_result
  write_handshake id peer w =
      if ltb 65535 (length id)
      then (some (session_id_too_long (length id)), w)
      else write_result (Out.write (handshake_bytes id peer) w)

module _ {S : Type 0} (R : Reader S) where
  -- The reads and checks of `ReadHandshake`, on any reader.
  unfoldable pub handshake_steps : S → Result HandshakeError (HandshakeMessage × S)
  handshake_steps s = do
    (magic, s1) ← wrap read_magic (read_full R 4 s)
    guard (magic == handshake_magic) (invalid_magic magic)
    (version, s2) ← wrap read_version (read_byte R s1)
    guard (nat_eq version handshake_version) (unsupported_version version)
    (id_len_buf, s3) ← wrap read_id_length (read_full R 2 s2)
    let id_len = uint16_at id_len_buf 0
    guard (not (nat_eq id_len 0 || ltb 256 id_len)) (invalid_id_length id_len)
    (id, s4) ← wrap read_session_id (read_full R id_len s3)
    (peer, s5) ← wrap read_peer_type (read_byte R s4)
    guard (nat_eq peer peer_type_initiator || nat_eq peer peer_type_responder)
        (invalid_peer_type peer)
    ok (record { session_id = id; peer_type = peer }, s5)

  -- The message behind an error status. It is always an error.
  unfoldable pub ack_message : S → Result HandshakeError (Unit {0} × S)
  ack_message s = do
    (msg_len_buf, s') ← wrap read_message_length (read_full R 2 s)
    (msg, s'') ← wrap read_message (read_full R (uint16_at msg_len_buf 0) s')
    err (refused msg)

  -- The reads and checks of `ReadHandshakeAck`, on any reader; success carries no value.
  unfoldable pub ack_steps : S → Result HandshakeError (Unit {0} × S)
  unfolding ack_message
  ack_steps s = do
    (magic, s1) ← wrap read_magic (read_full R 4 s)
    guard (magic == handshake_magic) (invalid_magic magic)
    (status, s2) ← wrap read_status (read_byte R s1)
    if nat_eq status status_ok then ok (tt, s2) else ack_message s2

-- The connection that a function leaves behind when it returns: its `bufio.Reader` is gone, and
-- with it what that had buffered.
abbrev pub leave {ℓ} :
    {A : Type ℓ} → Result HandshakeError (A × BufReader) → Result HandshakeError (A × Conn)
leave (ok (a, r)) = ok (a, r.conn)
leave (err e) = err e

-- `ReadHandshake(conn)`, with the connection after it.
unfoldable pub read_handshake : Conn → Result HandshakeError (HandshakeMessage × Conn)
read_handshake c = leave (handshake_steps buf_reader (new_buf_reader c))

-- `ReadHandshakeAck(conn)`, with the connection after it.
unfoldable pub read_handshake_ack : Conn → Result HandshakeError (Unit {0} × Conn)
read_handshake_ack c = leave (ack_steps buf_reader (new_buf_reader c))

-- `if len(msgBytes) > limit { msgBytes = msgBytes[:limit] }`
unfoldable pub cut_message : ℕ → List ℕ → List ℕ
cut_message limit msg = if ltb limit (length msg) then take limit msg else msg

-- What `WriteHandshakeAck` appends to its buffer.
unfoldable pub ack_bytes : Bool → List ℕ → List ℕ
ack_bytes true msg = handshake_magic ++ (status_ok ∷ [])
ack_bytes false msg =
    let cut = cut_message 65535 msg in
    handshake_magic ++ (status_error ∷ (length_bytes (length cut) ++ cut))

module _ {W : Type 0} (Out : Writer W) where
  unfoldable pub write_handshake_ack : Bool → List ℕ → W → Option HandshakeError × W
  unfolding write_result ack_bytes
  write_handshake_ack success msg w = write_result (Out.write (ack_bytes success msg) w)

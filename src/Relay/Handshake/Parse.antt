-- ===== src/Relay/Handshake/Parse.antt =====
-- handshake.go: `ReadHandshake` and `ReadHandshakeAck` as functions of the bytes.
use cloudbridge.Common.{
  ℕ, ◌≡◌, refl, not, ◌||◌, List, ltb, nat_eq, ◌==◌, bytes_eq, if◌then◌else◌, Result, ok, err, ◌>>=◌,
  ◌>>◌, guard, wrap, Bool-cases, inl, inr,
}
use cloudbridge.Common.Words.{uint16_at}
use cloudbridge.Common.Reader.{Reader, read_full, read_byte}
use cloudbridge.Common.Reader.Laws.{
  take_full, take_byte, flat, read_full-flat, read_byte-flat, flat-step, flat-guard,
}
use cloudbridge.Relay.Handshake.{
  HandshakeMessage, HandshakeError, read_magic, read_version, read_id_length, read_session_id,
  read_peer_type, invalid_magic, unsupported_version, invalid_id_length, invalid_peer_type,
  read_status, read_message_length, read_message, refused, handshake_magic, handshake_version,
  peer_type_initiator, peer_type_responder, status_ok, handshake_steps, ack_message, ack_steps,
}

unfoldable pub parse_handshake : List ℕ → Result HandshakeError (HandshakeMessage × List ℕ)
parse_handshake bs = do
  (magic, bs1) ← wrap read_magic (take_full 4 bs)
  guard (magic == handshake_magic) (invalid_magic magic)
  (version, bs2) ← wrap read_version (take_byte bs1)
  guard (nat_eq version handshake_version) (unsupported_version version)
  (id_len_buf, bs3) ← wrap read_id_length (take_full 2 bs2)
  let id_len = uint16_at id_len_buf 0
  guard (not (nat_eq id_len 0 || ltb 256 id_len)) (invalid_id_length id_len)
  (id, bs4) ← wrap read_session_id (take_full id_len bs3)
  (peer, bs5) ← wrap read_peer_type (take_byte bs4)
  guard (nat_eq peer peer_type_initiator || nat_eq peer peer_type_responder)
      (invalid_peer_type peer)
  ok (record { session_id = id; peer_type = peer }, bs5)

parse_message : List ℕ → Result HandshakeError (Unit {0} × List ℕ)
parse_message bs = do
  (msg_len_buf, bs') ← wrap read_message_length (take_full 2 bs)
  (msg, bs'') ← wrap read_message (take_full (uint16_at msg_len_buf 0) bs')
  err (refused msg)

unfoldable pub parse_ack : List ℕ → Result HandshakeError (Unit {0} × List ℕ)
unfolding parse_message
parse_ack bs = do
  (magic, bs1) ← wrap read_magic (take_full 4 bs)
  guard (magic == handshake_magic) (invalid_magic magic)
  (status, bs2) ← wrap read_status (take_byte bs1)
  if nat_eq status status_ok then ok (tt, bs2) else parse_message bs2

module _ {S : Type 0} (R : Reader S) where
  -- On every reader the result is that of the bytes, and what is left is what they leave.
  pub handshake_steps-flat : (s : S) → flat R (handshake_steps R s) ≡ parse_handshake (R.content s)
  unfolding handshake_steps parse_handshake
  handshake_steps-flat s =
      flat-step R read_magic (read_full R 4 s) _ _ _ (read_full-flat R 4 s) λ magic s1.
        flat-guard R (magic == handshake_magic) _ _ _ (
          flat-step R read_version (read_byte R s1) _ _ _ (read_byte-flat R s1) λ version s2.
            flat-guard R (nat_eq version handshake_version) _ _ _ (
              flat-step R read_id_length (read_full R 2 s2) _ _ _ (read_full-flat R 2 s2) λ buf s3.
                flat-guard R (not (nat_eq (uint16_at buf 0) 0 || ltb 256 (uint16_at buf 0))) _ _ _ (
                  flat-step R read_session_id (read_full R (uint16_at buf 0) s3) _ _ _
                    (read_full-flat R (uint16_at buf 0) s3)
                    λ id s4.
                      flat-step R read_peer_type (read_byte R s4) _ _ _ (read_byte-flat R s4)
                        λ peer s5.
                          flat-guard R
                            (nat_eq peer peer_type_initiator || nat_eq peer peer_type_responder) _ _
                            _ refl)))

  ack_message-flat : (s : S) → flat R (ack_message R s) ≡ parse_message (R.content s)
  unfolding ack_message parse_message
  ack_message-flat s =
      flat-step R read_message_length (read_full R 2 s) _ _ _ (read_full-flat R 2 s) λ buf s'.
        flat-step R read_message (read_full R (uint16_at buf 0) s') _ _ _
          (read_full-flat R (uint16_at buf 0) s') λ msg s''. refl

  pub ack_steps-flat : (s : S) → flat R (ack_steps R s) ≡ parse_ack (R.content s)
  unfolding ack_steps parse_ack
  ack_steps-flat s =
      flat-step R read_magic (read_full R 4 s) _ _ _ (read_full-flat R 4 s) λ magic s1.
        flat-guard R (magic == handshake_magic) _ _ _ (
          flat-step R read_status (read_byte R s1) _ _ _ (read_byte-flat R s1) λ status s2.
            elim (Bool-cases (nat_eq status status_ok)) [
              | inl e ↦ rw e refl
              | inr e ↦ rw e (ack_message-flat s2)
            ])

-- ===== src/Relay/Handshake/RoundTrip.antt =====
-- handshake.go: what the two sides of the handshake understand of one another.
use cloudbridge.Common.{
  ◌↔◌, ℕ, ◌≤◌, ◌<◌, ◌≡◌, refl, sym, ap, ◌∙◌, Bool, true, false, not, ◌||◌, List, [], ◌∷◌, ◌++◌,
  arith, ltb, nat_eq, nat_eq_iff, ◌==◌, bytes_eq, bytes_beq_iff, if◌then◌else◌, length, take, ok,
  err, ◌⊎◌, step_inv, guard_inv, append_assoc, subst, All-append_right, All-append_left,
  length-take, take-ge,
}
use cloudbridge.Common.Words.{IsByte, IsBytes, uint16_at, two_bytes}
use cloudbridge.Common.Reader.{Reader}
use cloudbridge.Common.Reader.Laws.{
  take_full, take_byte, flat, take_full-append, take_full-eq_ok, take_byte-eq_ok,
}
use cloudbridge.Relay.Handshake.{
  HandshakeMessage, read_magic, read_version, read_id_length, read_session_id, read_peer_type,
  invalid_magic, unsupported_version, invalid_id_length, invalid_peer_type, refused,
  handshake_magic, handshake_version, peer_type_initiator, peer_type_responder, status_ok,
  status_error, handshake_bytes, length_bytes, handshake_steps, ack_steps, ack_bytes, cut_message,
}
use cloudbridge.Relay.Handshake.Parse.{
  parse_handshake, handshake_steps-flat, ack_steps-flat, parse_ack,
}

-- What the server lets in: a session ID of 1 to 256 bytes and one of the two peer types.
pub record IsHandshake (m : HandshakeMessage) : Type 0 where
  pub id_present : 1 ≤ length m.session_id
  pub id_fits : length m.session_id ≤ 256
  pub known_peer : (m.peer_type ≡ peer_type_initiator) ⊎ (m.peer_type ≡ peer_type_responder)

abbrev pub wire : HandshakeMessage → List ℕ
wire m = handshake_bytes m.session_id m.peer_type

-- Each read of the parser at the bytes that it takes.
parse_handshake-wire :
    (m : HandshakeMessage) (rest : List ℕ)
    → IsHandshake m
    → parse_handshake (wire m ++ rest) ≡ ok (m, rest)
unfolding parse_handshake take_byte
parse_handshake-wire m rest v =
    let id = m.session_id in
    let n = length id in
    let after = m.peer_type ∷ rest in
    ground (
      arith,
      take_full-append 4 handshake_magic
          (handshake_version ∷ (length_bytes n ++ ((id ++ (m.peer_type ∷ [])) ++ rest))) refl,
      take_full-append 2 (length_bytes n) (id ++ after) refl,
      take_full-append n id after refl,
      append_assoc id (m.peer_type ∷ []) rest,
      v.known_peer,
    )

collect :
    (bs magic bs1 bs2 buf bs3 id bs4 rest : List ℕ) (peer : ℕ)
    → IsBytes bs
    → take_full 4 bs ≡ ok (magic, bs1)
    → (magic == handshake_magic) ≡ true
    → bs1 ≡ handshake_version ∷ bs2
    → take_full 2 bs2 ≡ ok (buf, bs3)
    → take_full (uint16_at buf 0) bs3 ≡ ok (id, bs4)
    → bs4 ≡ peer ∷ rest
    → (bs ≡ handshake_bytes id peer ++ rest) × (length id ≡ uint16_at buf 0)
collect bs magic bs1 bs2 buf bs3 id bs4 rest peer v e1 g e2 e3 e4 e5 =
    let (a1, _) = take_full-eq_ok 4 bs magic bs1 e1 in
    let (a2, size) = take_full-eq_ok 2 bs2 buf bs3 e3 in
    let v1 = subst IsBytes e2 (All-append_right IsByte magic bs1 (subst IsBytes a1 v)) in
    let vbuf = All-append_left IsByte buf bs3 (subst IsBytes a2 v1.1) in
    ground (
      arith,
      a1,
      a2,
      (bytes_beq_iff magic handshake_magic).0 g,
      two_bytes buf size vbuf,
      take_full-eq_ok (uint16_at buf 0) bs3 id bs4 e4,
      append_assoc id (peer ∷ []) rest,
    )

parse_handshake_sound :
    (bs : List ℕ) (m : HandshakeMessage) (rest : List ℕ)
    → IsBytes bs
    → parse_handshake bs ≡ ok (m, rest)
    → IsHandshake m × (bs ≡ wire m ++ rest)
unfolding parse_handshake
parse_handshake_sound bs m rest v h = step_inv read_magic (take_full 4 bs) _ h λ (magic, bs1) e1 h1.
    guard_inv (magic == handshake_magic) (invalid_magic magic) _ h1 λ g1 h2.
      step_inv read_version (take_byte bs1) _ h2 λ (version, bs2) e2 h3.
        guard_inv (nat_eq version handshake_version) (unsupported_version version) _ h3 λ g2 h4.
          step_inv read_id_length (take_full 2 bs2) _ h4 λ (buf, bs3) e3 h5.
            guard_inv (not (nat_eq (uint16_at buf 0) 0 || ltb 256 (uint16_at buf 0)))
              (invalid_id_length (uint16_at buf 0)) _ h5
              λ g3 h6.
                step_inv read_session_id (take_full (uint16_at buf 0) bs3) _ h6 λ (id, bs4) e4 h7.
                  step_inv read_peer_type (take_byte bs4) _ h7 λ (peer, bs5) e5 h8.
                    guard_inv (nat_eq peer peer_type_initiator || nat_eq peer peer_type_responder)
                      (invalid_peer_type peer) _ h8
                      λ g4 h9. ground (
                        arith,
                        g2,
                        g3,
                        g4,
                        h9,
                        collect bs magic bs1 bs2 buf bs3 id bs4 bs5 peer v e1 g1
                            (take_byte-eq_ok bs1 version bs2 e2
                              ∙ ap (λ (b : ℕ). b ∷ bs2)
                                  ((nat_eq_iff version handshake_version).0 g2))
                            e3 e4 (take_byte-eq_ok bs4 peer bs5 e5),
                      )

parse_handshake-long_id :
    (id rest : List ℕ) (peer : ℕ)
    → 256 < length id
    → length id ≤ 65535
    → parse_handshake (handshake_bytes id peer ++ rest) ≡ err (invalid_id_length (length id))
unfolding parse_handshake take_byte
parse_handshake-long_id id rest peer lo hi =
    let after = (id ++ (peer ∷ [])) ++ rest in
    ground (
      arith,
      take_full-append 4 handshake_magic (handshake_version ∷ (length_bytes (length id) ++ after))
          refl,
      take_full-append 2 (length_bytes (length id)) after refl,
    )

cut_message_lem :
    (limit : ℕ) (msg : List ℕ)
    → (cut_message limit msg ≡ take limit msg) × (length (cut_message limit msg) ≤ limit)
unfolding cut_message
cut_message_lem limit msg = ground (arith, length-take limit msg, take-ge limit msg)

parse_ack-ack_bytes :
    (success : Bool) (msg rest : List ℕ)
    → parse_ack (ack_bytes success msg ++ rest)
      ≡ (if success then ok (tt, rest) else err (refused (cut_message 65535 msg)))
unfolding parse_ack ack_bytes take_byte
parse_ack-ack_bytes true msg rest =
    ground (arith, take_full-append 4 handshake_magic (status_ok ∷ rest) refl)
parse_ack-ack_bytes false msg rest = ground (
  arith,
  take_full-append 4 handshake_magic
      (status_error
        ∷ (length_bytes (length (cut_message 65535 msg)) ++ (cut_message 65535 msg ++ rest)))
      refl,
  take_full-append 2 (length_bytes (length (cut_message 65535 msg))) (cut_message 65535 msg ++ rest)
      refl,
  take_full-append (length (cut_message 65535 msg)) (cut_message 65535 msg) rest refl,
  (cut_message_lem 65535 msg).1,
)

-- On any reader, `ReadHandshake` accepts a message exactly where the stream begins with what
-- `WriteHandshake` sends for it, and the message has a session ID of 1 to 256 bytes and one of
-- the two peer types; the reader is left behind it.
pub handshake_steps_iff :
    {S : Type 0} (R : Reader S) (s : S) (m : HandshakeMessage) (rest : List ℕ)
    → IsBytes (R.content s)
    → (flat R (handshake_steps R s) ≡ ok (m, rest))
      ↔ (IsHandshake m × (R.content s ≡ wire m ++ rest))
handshake_steps_iff R s m rest v = (
  λ e. parse_handshake_sound (R.content s) m rest v (sym (handshake_steps-flat R s) ∙ e),
  λ (h, e). handshake_steps-flat R s ∙ rw e (parse_handshake-wire m rest h),
)

-- A session ID of 257 to 65535 bytes is sent by `WriteHandshake` and refused by `ReadHandshake`.
pub handshake_steps-long_id :
    {S : Type 0} (R : Reader S) (s : S) (id rest : List ℕ) (peer : ℕ)
    → 256 < length id
    → length id ≤ 65535
    → R.content s ≡ handshake_bytes id peer ++ rest
    → flat R (handshake_steps R s) ≡ err (invalid_id_length (length id))
handshake_steps-long_id R s id rest peer lo hi e =
    handshake_steps-flat R s ∙ rw e (parse_handshake-long_id id rest peer lo hi)

-- `ReadHandshakeAck` on the answers of `WriteHandshakeAck`: success, or an error with the message,
-- of which the first 65535 bytes arrive.
pub ack_steps-ack_bytes :
    {S : Type 0} (R : Reader S) (s : S) (success : Bool) (msg rest : List ℕ)
    → R.content s ≡ ack_bytes success msg ++ rest
    → flat R (ack_steps R s)
      ≡ (if success then ok (tt, rest) else err (refused (cut_message 65535 msg)))
ack_steps-ack_bytes R s success msg rest e =
    ack_steps-flat R s ∙ rw e (parse_ack-ack_bytes success msg rest)

-- ===== src/Relay/Client/Accepted.antt =====
-- client.go with the server's handshake.go: what the client has sent when it is connected.
use cloudbridge.Common.{
  ℕ, ◌≡◌, refl, ◌∙◌, List, [], ◌++◌, ltb, length, Option, none, some, ok, arith, Result-cases, inl,
  inr, Bool-cases,
}
use cloudbridge.Common.Words.{IsBytes}
use cloudbridge.Common.Reader.{Conn, stream}
use cloudbridge.Common.Writer.{Writer}
use cloudbridge.Relay.Handshake.{
  HandshakeError, HandshakeMessage, write_handshake, write_result, read_handshake, handshake_bytes,
}
use cloudbridge.Relay.Handshake.RoundTrip.{IsHandshake}
use cloudbridge.Relay.Handshake.Segments.{read_handshake-accepts}
use cloudbridge.Relay.Client.{Socket, proceed, connect_to_relay}

module _ {W : Type 0} (Out : Writer W) where
  write_result-none :
      (bytes : List ℕ) (w w' : W)
      → write_result (Out.write bytes w) ≡ (none, w')
      → Out.written w' ≡ Out.written w ++ bytes
  unfolding write_result
  write_result-none bytes w w' h = ground (arith, Out.write_all bytes w)

  write_handshake-none :
      (id : List ℕ) (peer : ℕ) (w w' : W)
      → write_handshake Out id peer w ≡ (none, w')
      → Out.written w' ≡ Out.written w ++ handshake_bytes id peer
  unfolding write_handshake
  write_handshake-none id peer w w' h = elim (Bool-cases (ltb 65535 (length id))) [
    | inl b ↦ absurd (ground (arith, h, b))
    | inr b ↦ write_result-none (handshake_bytes id peer) w w' (rw b at h)
  ]

  proceed-ok : (r : Option HandshakeError × W) (w : W) → proceed r ≡ ok w → r ≡ (none, w)
  proceed-ok (none, v) w h = ground arith
  proceed-ok (some e, v) w h = cc

  -- A client that is connected has sent its handshake, whole, and nothing else.
  pub connect_to_relay-sent :
      (s s' : Socket W) (id : List ℕ) (peer : ℕ)
      → connect_to_relay Out (some s) id peer ≡ ok s'
      → Out.written s'.outgoing ≡ Out.written s.outgoing ++ handshake_bytes id peer
  unfolding connect_to_relay
  connect_to_relay-sent s s' id peer h =
      elim (Result-cases (proceed (write_handshake Out id peer s.outgoing))) [
        | inl (w, e) ↦
            write_handshake-none id peer s.outgoing s'.outgoing
              (ground (arith, h, proceed-ok (write_handshake Out id peer s.outgoing) w e, e))
        | inr (x, e) ↦ absurd (ground (arith, h, e))
      ]

-- A client that sends a valid handshake over a fresh connection and is connected: the server that
-- reads its bytes, in whatever segments and with whatever follows, accepts that handshake.
pub connect_to_relay-accepted :
    {W : Type 0} (Out : Writer W) (m : HandshakeMessage) (s s' : Socket W) (c : Conn)
    (rest : List ℕ)
    → Out.written s.outgoing ≡ []
    → IsHandshake m
    → connect_to_relay Out (some s) m.session_id m.peer_type ≡ ok s'
    → IsBytes (stream c)
    → stream c ≡ Out.written s'.outgoing ++ rest
    → (c' : Conn) × (read_handshake c ≡ ok (m, c'))
connect_to_relay-accepted Out m s s' c rest fresh v h b e =
    read_handshake-accepts c m rest b v
      (e ∙ rw (connect_to_relay-sent Out s s' m.session_id m.peer_type h, fresh) refl)

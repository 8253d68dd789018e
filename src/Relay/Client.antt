-- ===== src/Relay/Client.antt =====
-- internal/relay/client.go: a connection to the relay, from the dial to the acknowledgment.
pub mod Accepted
mod Tests
use cloudbridge.Common.{ℕ, List, Option, none, some, Result, ok, err, ◌>>=◌, wrap}
use cloudbridge.Common.Reader.{Conn}
use cloudbridge.Common.Writer.{Writer}
use cloudbridge.Relay.Handshake.{
  HandshakeError, write_handshake, read_handshake_ack, peer_type_initiator, peer_type_responder,
}

-- A TCP connection: what still comes in, and the writer for what goes out.
pub record Socket (W : Type 0) : Type 0 where
  pub incoming : Conn
  pub outgoing : W

pub data ClientError : Type 0 where
  dial_relay : ClientError
  writing_handshake reading_ack : HandshakeError → ClientError

-- A nil error goes on.
abbrev pub proceed {ℓ} : {A : Type ℓ} → Option HandshakeError × A → Result ClientError A
proceed (none, a) = ok a
proceed (some e, a) = err (writing_handshake e)

module _ {W : Type 0} (Out : Writer W) where
  -- `ConnectToRelay`, on what the dial gave. An error closes the connection.
  unfoldable pub connect_to_relay : Option (Socket W) → List ℕ → ℕ → Result ClientError (Socket W)
  connect_to_relay none id peer = err dial_relay
  connect_to_relay (some s) id peer = do
    w ← proceed (write_handshake Out id peer s.outgoing)
    (u, c) ← wrap reading_ack (read_handshake_ack s.incoming)
    ok (record { incoming = c; outgoing = w })

  abbrev pub connect_as_initiator : Option (Socket W) → List ℕ → Result ClientError (Socket W)
  connect_as_initiator dialled id = connect_to_relay dialled id peer_type_initiator

  abbrev pub connect_as_responder : Option (Socket W) → List ℕ → Result ClientError (Socket W)
  connect_as_responder dialled id = connect_to_relay dialled id peer_type_responder

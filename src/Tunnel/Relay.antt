-- ===== src/Tunnel/Relay.antt =====
-- internal/tunnel/relay.go: frames over a connection to the relay.
pub mod RoundTrip
mod Tests
use cloudbridge.Common.{
  ℕ, ◌<◌, ◌≡◌, Bool, true, false, if◌then◌else◌, List, [], ◌++◌, Option, none, some, Result, ok,
  err, ◌>>=◌, wrap, length, arith, Result-cases, inl, inr,
}
use cloudbridge.Common.Reader.{Conn, stream}
use cloudbridge.Common.Reader.Laws.{conn_reader, flat}
use cloudbridge.Common.Writer.{Writer}
use cloudbridge.Protocol.Frame.{
  Frame, FrameError, marshal_binary, unmarshal_binary, read_from, write_to,
}
use cloudbridge.Protocol.Frame.Stream.{read_from-less}
use cloudbridge.Relay.Handshake.{peer_type_initiator, peer_type_responder}
use cloudbridge.Relay.Client.{Socket, ClientError, connect_to_relay}
use cloudbridge.Tunnel.Interface.{Transport}

-- The errors under the transport's own names; `nil_connection` is no error of the
-- source but the panic of a call before `Open`, which meets a nil connection.
pub data TransportError : Type 0 where
  connecting : ClientError → TransportError
  reading_frame marshalling_frame unmarshalling_frame writing_frame : FrameError → TransportError
  nil_connection closed_connection : TransportError

-- `dialled` is what a dial of `addr` gives; `closed` says that the connection was closed.
pub record RelayTransport (W : Type 0) : Type 0 where
  pub dialled : Option (Socket W)
  pub session_id : List ℕ
  pub peer_type : ℕ
  pub conn : Option (Socket W)
  pub closed : Bool

abbrev pub new_relay_transport : {W : Type 0} → Option (Socket W) → List ℕ → ℕ → RelayTransport W
new_relay_transport dialled id peer = record {
  dialled = dialled;
  session_id = id;
  peer_type = peer;
  conn = none;
  closed = false;
}

abbrev pub new_relay_transport_as_initiator :
    {W : Type 0} → Option (Socket W) → List ℕ → RelayTransport W
new_relay_transport_as_initiator dialled id = new_relay_transport dialled id peer_type_initiator

abbrev pub new_relay_transport_as_responder :
    {W : Type 0} → Option (Socket W) → List ℕ → RelayTransport W
new_relay_transport_as_responder dialled id = new_relay_transport dialled id peer_type_responder

-- `&protocol.Frame{}`
abbrev pub empty_frame : Frame
empty_frame = record { stream_id = 0; frame_type = 0; payload = [] }

-- The connection that a call uses.
abbrev pub usable : {W : Type 0} → RelayTransport W → Result TransportError (Socket W)
usable rt = elim rt.conn [
  | none ↦ err nil_connection
  | some s ↦ if rt.closed then err closed_connection else ok s
]

-- How many bytes can still be read.
abbrev pub relay_size : {W : Type 0} → RelayTransport W → ℕ
relay_size rt = elim (usable rt) [ ok s ↦ length (stream s.incoming) | err e ↦ 0 ]

unfoldable pub read_relay_frame :
    {W : Type 0} → RelayTransport W → Result TransportError (List ℕ × RelayTransport W)
read_relay_frame rt = do
  s ← usable rt
  (f, c) ← wrap reading_frame (read_from conn_reader s.incoming)
  bytes ← wrap marshalling_frame (marshal_binary f)
  ok (bytes, record rt { conn = some (record s { incoming = c }) })

unfoldable pub close_relay :
    {W : Type 0} → RelayTransport W → Option TransportError × RelayTransport W
close_relay rt = elim rt.conn [
  | none ↦ (none, rt)
  | some s ↦ if rt.closed then (some closed_connection, rt) else (none, record rt { closed = true })
]

-- The end of `WriteFrame`: the error and the transport after the write.
abbrev pub sent_by :
    {W : Type 0}
    → RelayTransport W
    → Socket W
    → ℕ × Option FrameError × W
    → Option TransportError × RelayTransport W
sent_by rt s (n, none, w) = (none, record rt { conn = some (record s { outgoing = w }) })
sent_by rt s (n, some e, w) =
    (some (writing_frame e), record rt { conn = some (record s { outgoing = w }) })

-- Where a frame was read, its parts.
pub read_relay_frame-eq_ok :
    {W : Type 0} (rt : RelayTransport W) (bytes : List ℕ) (rt' : RelayTransport W)
    → read_relay_frame rt ≡ ok (bytes, rt')
    → (s : Socket W) × (f : Frame) × (c : Conn) × (usable rt ≡ ok s)
      × (read_from conn_reader s.incoming ≡ ok (f, c))
      × (marshal_binary f ≡ ok bytes)
      × (rt' ≡ record rt { conn = some (record s { incoming = c }) })
unfolding read_relay_frame
read_relay_frame-eq_ok rt bytes rt' h = elim (Result-cases (usable rt)) [
  | inr (e, u) ↦ absurd (cc (rw (u, read_relay_frame) at h))
  | inl (s, u) ↦ elim (Result-cases (read_from conn_reader s.incoming)) [
    | inr (e, r) ↦ absurd (cc (u, r, h))
    | inl ((f, c), r) ↦ elim (Result-cases (marshal_binary f)) [
      | inr (e, m) ↦ absurd (cc (u, r, m, h))
      | inl (out, m) ↦ (s, f, c, u, r, ground (arith, u, r, m, h), ground (arith, u, r, m, h))
    ]
  ]
]

pub read_relay_frame-less :
    {W : Type 0} (rt : RelayTransport W) (bytes : List ℕ) (rt' : RelayTransport W)
    → read_relay_frame rt ≡ ok (bytes, rt')
    → relay_size rt' < relay_size rt
unfolding read_relay_frame
read_relay_frame-less rt bytes rt' h =
    let (s, f, c, u, r, m, is) = read_relay_frame-eq_ok rt bytes rt' h in
    ground (arith, u, is, read_from-less conn_reader s.incoming f c r)

module _ {W : Type 0} (Out : Writer W) where
  unfoldable pub open_relay : RelayTransport W → Option TransportError × RelayTransport W
  open_relay rt = elim (connect_to_relay Out rt.dialled rt.session_id rt.peer_type) [
    | err e ↦ (some (connecting e), rt)
    | ok s ↦ (none, record rt { conn = some s; closed = false })
  ]

  -- The bytes are decoded and encoded again: what follows a frame in them is dropped. The connection
  -- is used only then.
  unfoldable pub write_relay_frame :
      List ℕ → RelayTransport W → Option TransportError × RelayTransport W
  write_relay_frame bytes rt =
      let (f, e) = unmarshal_binary empty_frame bytes in
      elim e [
        | some x ↦ (some (unmarshalling_frame x), rt)
        | none ↦ elim (usable rt) [
          | err x ↦ (some x, rt)
          | ok s ↦ sent_by rt s (write_to Out f s.outgoing)
        ]
      ]

  abbrev pub relay_transport : Transport (RelayTransport W) TransportError
  relay_transport = record {
    open_transport = open_relay;
    close_transport = close_relay;
    read_frame = read_relay_frame;
    write_frame = write_relay_frame;
    size = relay_size;
    read_less = read_relay_frame-less;
  }

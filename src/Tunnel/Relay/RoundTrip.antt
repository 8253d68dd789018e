-- ===== src/Tunnel/Relay/RoundTrip.antt =====
-- relay.go: the two ends of a connection.
use cloudbridge.Common.{
  ℕ, ◌≡◌, refl, sym, ap, ◌∙◌, List, [], ◌++◌, Option, none, some, ok, arith, Option-cases, inl, inr,
  ok_injective, append-nil,
}
use cloudbridge.Common.Words.{IsBytes}
use cloudbridge.Common.Reader.{Conn, stream}
use cloudbridge.Common.Reader.Laws.{conn_reader}
use cloudbridge.Common.Writer.{Writer}
use cloudbridge.Protocol.Frame.{
  Frame, FrameError, IsFrame, marshal_binary, unmarshal_binary, write_to,
}
use cloudbridge.Protocol.Frame.Decode.{unmarshal_binary_iff}
use cloudbridge.Protocol.Frame.Wire.{unmarshal_binary-marshal_binary}
use cloudbridge.Protocol.Frame.Sequence.{write_to-none, read_from-wire}
use cloudbridge.Relay.Client.{Socket}
use cloudbridge.Tunnel.Relay.{
  RelayTransport, usable, empty_frame, sent_by, read_relay_frame, write_relay_frame,
}

-- A frame and its encoding.
pub record IsWire (f : Frame) (wire : List ℕ) : Type 0 where
  pub frame : IsFrame f
  pub encoded : marshal_binary f ≡ ok wire

-- A read where the stream begins with a frame gives that frame's encoding.
pub read_relay_frame-wire :
    {W : Type 0} (rt : RelayTransport W) (s : Socket W) (f : Frame) (wire rest : List ℕ)
    → usable rt ≡ ok s
    → IsWire f wire
    → stream s.incoming ≡ wire ++ rest
    → (c : Conn) × (read_relay_frame rt
        ≡ ok (wire, record rt { conn = some (record s { incoming = c }) }))
      × (stream c ≡ rest)
unfolding read_relay_frame
read_relay_frame-wire rt s f wire rest u v c =
    let (t, e, left) = read_from-wire conn_reader f s.incoming wire rest v.frame v.encoded c in
    (t, rw (u, e, v.encoded) refl, left)

module _ {W : Type 0} (Out : Writer W) where
  sent_by-none :
      (rt rt' : RelayTransport W) (s : Socket W) (f : Frame)
      → sent_by rt s (write_to Out f s.outgoing) ≡ (none, rt')
      → (write_to Out f s.outgoing).1 ≡ none
        × (rt' ≡ record rt { conn = some (record s { outgoing = (write_to Out f s.outgoing).2 }) })
  sent_by-none rt rt' s f h = ground (arith, h)

  -- A write without an error has sent a frame with which the bytes begin, and no more.
  pub write_relay_frame-none :
      (rt rt' : RelayTransport W) (s : Socket W) (bytes : List ℕ)
      → usable rt ≡ ok s
      → IsBytes bytes
      → write_relay_frame Out bytes rt ≡ (none, rt')
      → (f : Frame) × (wire : List ℕ) × (extra : List ℕ) × (w : W) × IsWire f wire
        × (bytes ≡ wire ++ extra)
        × (rt' ≡ record rt { conn = some (record s { outgoing = w }) })
        × (Out.written w ≡ Out.written s.outgoing ++ wire)
  unfolding write_relay_frame
  write_relay_frame-none rt rt' s bytes u b h =
      let f = (unmarshal_binary empty_frame bytes).0 in
      elim (Option-cases (unmarshal_binary empty_frame bytes).1) [
        | inr (x, q) ↦ absurd (ground (arith, u, q, h))
        | inl q ↦
            let (extra, (v, (wire, m, split))) =
              (unmarshal_binary_iff empty_frame f bytes b).0
                (ap (λ (e : Option FrameError). (f, e)) q) in
            let (clean, is) = sent_by-none rt rt' s f (ground (arith, u, q, h)) in
            let (wire', m', _, out) = write_to-none Out f s.outgoing clean in
            let same : wire' ≡ wire = ok_injective (sym m' ∙ m) in
            (
              f,
              wire,
              extra,
              (write_to Out f s.outgoing).2,
              record { frame = v; encoded = m },
              split,
              is,
              rw (← same) out,
            )
      ]

  -- A frame's own encoding is sent whole.
  pub write_relay_frame-wire :
      (rt rt' : RelayTransport W) (s : Socket W) (f : Frame) (wire : List ℕ)
      → usable rt ≡ ok s
      → IsWire f wire
      → write_relay_frame Out wire rt ≡ (none, rt')
      → (w : W) × (rt' ≡ record rt { conn = some (record s { outgoing = w }) })
        × (Out.written w ≡ Out.written s.outgoing ++ wire)
  unfolding write_relay_frame
  write_relay_frame-wire rt rt' s f wire u v h =
      let um : unmarshal_binary empty_frame wire ≡ (f, none) =
        rw (append-nil wire) at
          (unmarshal_binary-marshal_binary f empty_frame wire [] v.frame v.encoded) in
      let (clean, is) = sent_by-none rt rt' s f (ground (arith, u, um, h)) in
      let (wire', m', _, out) = write_to-none Out f s.outgoing clean in
      let same : wire' ≡ wire = ok_injective (sym m' ∙ v.encoded) in
      ((write_to Out f s.outgoing).2, is, rw (← same) out)

-- What `WriteFrame` has sent without an error over a fresh connection, `ReadFrame` gives at the other
-- end, in whatever segments it comes: the frame with which the written bytes begin. What follows
-- that frame in them is lost.
pub read_relay_frame-write_relay_frame :
    {V W : Type 0} (Out : Writer W) (near near' : RelayTransport W) (s : Socket W)
    (far : RelayTransport V) (t : Socket V) (bytes rest : List ℕ)
    → usable near ≡ ok s
    → Out.written s.outgoing ≡ []
    → IsBytes bytes
    → write_relay_frame Out bytes near ≡ (none, near')
    → usable far ≡ ok t
    → ((s' : Socket W) → usable near' ≡ ok s' → stream t.incoming ≡ Out.written s'.outgoing ++ rest)
    → (f : Frame) × (wire : List ℕ) × (extra : List ℕ) × (c : Conn) × IsWire f wire
      × (bytes ≡ wire ++ extra)
      × (read_relay_frame far ≡ ok (wire, record far { conn = some (record t { incoming = c }) }))
      × (stream c ≡ rest)
read_relay_frame-write_relay_frame Out near near' s far t bytes rest u fresh b h v arrives =
    let (f, wire, extra, w, iw, split, is, out) =
      write_relay_frame-none Out near near' s bytes u b h in
    let open' : usable near' ≡ ok (record s { outgoing = w }) = ground (arith, is, u) in
    let (c, e, left) =
      read_relay_frame-wire far t f wire rest v iw
        (arrives (record s { outgoing = w }) open' ∙ rw (out, fresh) refl) in
    (f, wire, extra, c, iw, split, e, left)

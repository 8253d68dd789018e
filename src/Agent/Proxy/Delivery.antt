-- ===== src/Agent/Proxy/Delivery.antt =====
-- tunnel.go over relay.go: what the shell is given.
use cloudbridge.Common.{
  ℕ, zero, suc, ◌≤◌, ◌<◌, ◌≡◌, refl, sym, ap, ◌∙◌, Bool, true, false, List, [], ◌∷◌, ◌++◌, ◌&&◌,
  nat_eq, if◌then◌else◌, length, All, none, some, ok, err, arith, append_assoc, append-nil,
  length-append, Bool-cases, Result-cases, inl, inr,
}
use cloudbridge.Common.Reader.{Conn, stream}
use cloudbridge.Common.Reader.Laws.{conn_reader}
use cloudbridge.Common.Writer.{Writer}
use cloudbridge.Protocol.Frame.{Frame, IsFrame, FrameError, frame_data, unmarshal_binary, read_from}
use cloudbridge.Protocol.Frame.Stream.{read_from-less}
use cloudbridge.Protocol.Frame.Sequence.{Wires}
use cloudbridge.Protocol.Frame.Wire.{marshal_binary_shape, unmarshal_binary-marshal_binary}
use cloudbridge.Relay.Client.{Socket}
use cloudbridge.Tunnel.Relay.{
  TransportError, reading_frame, RelayTransport, usable, relay_size, empty_frame, read_relay_frame,
  relay_transport,
}
use cloudbridge.Tunnel.Relay.RoundTrip.{read_relay_frame-wire}
use cloudbridge.Agent.Proxy.{
  transport_failed, for_shell, deliver_frame, receive_frames, receive_all,
}

-- The payloads that are meant for the shell, one after another.
abbrev pub shell_bytes : ℕ → List Frame → List ℕ
shell_bytes id [] = []
shell_bytes id (f ∷ fs) =
    if nat_eq f.stream_id id && nat_eq f.frame_type frame_data
    then f.payload ++ shell_bytes id fs
    else shell_bytes id fs

read_from-empty : (c : Conn) → stream c ≡ [] → (e : FrameError) × (read_from conn_reader c ≡ err e)
read_from-empty c h = elim (Result-cases (read_from conn_reader c)) [
  | inr (e, r) ↦ (e, r)
  | inl ((f, t), r) ↦ absurd (omega (arith, read_from-less conn_reader c f t r, ap length h))
]

read_relay_frame-err :
    {W : Type 0} (rt : RelayTransport W) (s : Socket W) (e : FrameError)
    → usable rt ≡ ok s
    → read_from conn_reader s.incoming ≡ err e
    → read_relay_frame rt ≡ err (reading_frame e)
unfolding read_relay_frame
read_relay_frame-err rt s e u r = rw (u, r) refl

written_shell :
    (b : Bool) (old bytes rest : List ℕ)
    → (old ++ (if b then bytes else [])) ++ rest ≡ old ++ (if b then bytes ++ rest else rest)
written_shell true old bytes rest = append_assoc old bytes rest
written_shell false old bytes rest = rw (append-nil old) refl

-- Every write to the shell succeeds.
abbrev pub NeverFails : {S : Type 0} → Writer S → Type 0
NeverFails {S} Shell = (bytes : List ℕ) (sh : S) → (Shell.write bytes sh).1 ≡ none

module _ {W S : Type 0} (Out : Writer W) (Shell : Writer S) where
  deliver_frame-written :
      (id : ℕ) (f : Frame) (sh : S)
      → NeverFails Shell
      → ((deliver_frame (relay_transport Out) Shell id f sh).0 ≡ none)
        × (Shell.written (deliver_frame (relay_transport Out) Shell id f sh).1
            ≡ Shell.written sh ++ (if for_shell id f then f.payload else []))
  unfolding deliver_frame
  deliver_frame-written id f sh ok' = elim (Bool-cases (for_shell id f)) [
    | inl y ↦ rw y (ok' f.payload sh, (Shell.write_all f.payload sh (ok' f.payload sh)).1)
    | inr n ↦ rw n (refl, sym (append-nil (Shell.written sh)))
  ]

  -- A frame that was read, decoded and given to the shell.
  receive_frames-step :
      (fuel id : ℕ) (far far' : RelayTransport W) (f : Frame) (wire : List ℕ) (sh : S)
      → read_relay_frame far ≡ ok (wire, far')
      → unmarshal_binary empty_frame wire ≡ (f, none)
      → (deliver_frame (relay_transport Out) Shell id f sh).0 ≡ none
      → receive_frames (relay_transport Out) Shell (suc fuel) id far sh
        ≡ receive_frames
            (relay_transport Out)
            Shell
            fuel
            id
            far'
            (deliver_frame (relay_transport Out) Shell id f sh).1
  unfolding receive_frames
  receive_frames-step fuel id far far' f wire sh r um d = ground (arith, r, um, d)

  receive_frames-Wires :
      (fs : List Frame) (fuel id : ℕ) (far : RelayTransport W) (t : Socket W) (sent : List ℕ)
      (sh : S)
      → length fs < fuel
      → NeverFails Shell
      → usable far ≡ ok t
      → All IsFrame fs
      → Wires fs sent
      → stream t.incoming ≡ sent
      → (e : TransportError) × (far' : RelayTransport W) × (sh' : S) × (receive_frames
            (relay_transport Out)
            Shell
            fuel
            id
            far
            sh
          ≡ (some (transport_failed e), far', sh'))
        × (Shell.written sh' ≡ Shell.written sh ++ shell_bytes id fs)
  unfolding receive_frames
  receive_frames-Wires [] (suc fuel) id far t sent sh lt good u v ws c =
      let (e, r) = read_from-empty t.incoming (c ∙ ws) in
      (
        reading_frame e,
        far,
        sh,
        rw (read_relay_frame-err far t e u r, receive_frames) refl,
        sym (append-nil (Shell.written sh)),
      )
  receive_frames-Wires (f ∷ fs) (suc fuel) id far t sent sh lt good u v (wire, others, m, is, ws)
        c =
      let (c', e, left) =
        read_relay_frame-wire far t f wire others u (record { frame = v.0; encoded = m })
          (c ∙ is) in
      let t' = record t { incoming = c' } in
      let far1 = record far { conn = some t' } in
      let u' : usable far1 ≡ ok t' = ground (arith, u) in
      let um : unmarshal_binary empty_frame wire ≡ (f, none) =
        rw (append-nil wire) at (unmarshal_binary-marshal_binary f empty_frame wire [] v.0 m) in
      let (d, dw) = deliver_frame-written id f sh good in
      let sh1 = (deliver_frame (relay_transport Out) Shell id f sh).1 in
      let (x, far', sh', done, out) =
        receive_frames-Wires fs fuel id far1 t' others sh1 (omega arith) good u' v.1 ws left in
      (
        x,
        far',
        sh',
        receive_frames-step fuel id far far1 f wire sh e um d ∙ done,
        out
            ∙ rw dw
                (written_shell (for_shell id f) (Shell.written sh) f.payload (shell_bytes id fs)),
      )
  receive_frames-Wires fs zero id far t sent sh lt good u v ws c = absurd (omega arith)

  Wires-le :
      (fs : List Frame) (sent : List ℕ) → All IsFrame fs → Wires fs sent → length fs ≤ length sent
  Wires-le [] sent v ws = omega arith
  Wires-le (f ∷ fs) sent v (wire, others, m, is, ws) = omega (
    arith,
    ap length is,
    length-append {0} wire others,
    (marshal_binary_shape f wire v.0 m).0,
    Wires-le fs others v.1 ws,
  )

  -- When frames have arrived over a connection that then ends, the loop ends with an error of the
  -- transport, and the shell has been given the payloads of the data frames of its own stream, in
  -- order and nothing else. The writes to the shell are taken to succeed.
  pub receive_all-shell_bytes :
      (id : ℕ) (fs : List Frame) (far : RelayTransport W) (t : Socket W) (sh : S)
      → NeverFails Shell
      → usable far ≡ ok t
      → All IsFrame fs
      → Wires fs (stream t.incoming)
      → (e : TransportError) × (far' : RelayTransport W) × (sh' : S) × (receive_all
            (relay_transport Out)
            Shell
            id
            far
            sh
          ≡ (some (transport_failed e), far', sh'))
        × (Shell.written sh' ≡ Shell.written sh ++ shell_bytes id fs)
  unfolding receive_all
  receive_all-shell_bytes id fs far t sh good u v ws =
      receive_frames-Wires fs (suc (relay_size far)) id far t (stream t.incoming) sh
        (ground (arith, u, Wires-le fs (stream t.incoming) v ws)) good u v ws refl

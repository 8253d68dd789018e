-- ===== src/Agent/Proxy/EndToEnd.antt =====
-- tunnel.go on two agents: from the one shell to the other.
use cloudbridge.Common.{
  flatten, ℕ, ◌<◌, ◌≡◌, ◌^◌, refl, sym, ap, ◌∙◌, List, [], ◌∷◌, ◌++◌, nat_eq_iff, All, Option, some,
  ok, arith, append_assoc, append-nil, Result-cases, Option-cases, inl, inr,
}
use cloudbridge.Common.Words.{IsBytes}
use cloudbridge.Common.Reader.{stream}
use cloudbridge.Common.Writer.{Writer}
use cloudbridge.Protocol.Frame.{Frame, IsFrame, marshal_binary}
use cloudbridge.Protocol.Frame.Sequence.{Wires}
use cloudbridge.Relay.Client.{Socket}
use cloudbridge.Tunnel.Relay.{
  TransportError, RelayTransport, usable, write_relay_frame, relay_transport,
}
use cloudbridge.Tunnel.Relay.RoundTrip.{IsWire, write_relay_frame-wire}
use cloudbridge.Agent.Proxy.{transport_failed, shell_read, data_frame, send_chunks, receive_all}
use cloudbridge.Agent.Proxy.Delivery.{shell_bytes, NeverFails, receive_all-shell_bytes}

-- The frames that carry a shell's chunks.
abbrev pub data_frames : ℕ → List (List ℕ) → List Frame
data_frames id [] = []
data_frames id (c ∷ cs) = data_frame id c ∷ data_frames id cs

pub shell_bytes-data_frames :
    (id : ℕ) (cs : List (List ℕ)) → shell_bytes id (data_frames id cs) ≡ flatten cs
unfolding flatten
shell_bytes-data_frames id [] = refl
shell_bytes-data_frames id (c ∷ cs) =
    ground (arith, nat_eq_iff id id, shell_bytes-data_frames id cs)

pub data_frames-IsFrame :
    (id : ℕ) (cs : List (List ℕ)) → id < 2 ^ 16 → All IsBytes cs → All IsFrame (data_frames id cs)
data_frames-IsFrame id [] h v = tt
data_frames-IsFrame id (c ∷ cs) h v = (
  record { stream_id_fits = h; frame_type_fits = omega arith; payload_IsBytes = v.0 },
  data_frames-IsFrame id cs h v.1,
)

appended :
    (old mid new xs ys : List ℕ) → mid ≡ old ++ xs → new ≡ mid ++ ys → new ≡ old ++ (xs ++ ys)
appended old mid new xs ys e f = f ∙ rw e (append_assoc old xs ys)

module _ {W : Type 0} (Out : Writer W) where
  -- Where the loop from the shell ended because the shell did, all chunks have gone out.
  pub send_chunks-Wires :
      (id : ℕ) (cs : List (List ℕ)) (near near' : RelayTransport W) (s : Socket W)
      → id < 2 ^ 16
      → All IsBytes cs
      → usable near ≡ ok s
      → send_chunks (relay_transport Out) id cs near ≡ (shell_read, near')
      → (sent : List ℕ) × (s' : Socket W) × (usable near' ≡ ok s')
        × (Out.written s'.outgoing ≡ Out.written s.outgoing ++ sent)
        × Wires (data_frames id cs) sent
  unfolding send_chunks
  send_chunks-Wires id [] near near' s h v u e =
      ([], s, ground (arith, u, e), sym (append-nil (Out.written s.outgoing)), refl)
  send_chunks-Wires id (c ∷ cs) near near' s h v u e =
      elim (Result-cases (marshal_binary (data_frame id c))) [
        | inr (x, m) ↦ absurd (cc (rw (m, send_chunks) at e))
        | inl (wire, m) ↦ elim (Option-cases (write_relay_frame Out wire near).0) [
          | inr (x, q) ↦ absurd (ground (arith, m, q, e))
          | inl q ↦
              let near1 = (write_relay_frame Out wire near).1 in
              let f = data_frame id c in
              let fw : IsWire f wire = record {
                frame = (data_frames-IsFrame id (c ∷ []) h (v.0, tt)).0;
                encoded = m;
              } in
              let (w, is, out) =
                write_relay_frame-wire Out near near1 s f wire u fw
                  (ap (λ (o : Option TransportError). (o, near1)) q) in
              let s1 = record s { outgoing = w } in
              let (sent, s', u', out', ws) =
                send_chunks-Wires id cs near1 near' s1 h v.1 (ground (arith, is, u))
                  (ground (arith, m, q, e)) in
              (
                wire ++ sent,
                s',
                u',
                appended (Out.written s.outgoing) (Out.written w) (Out.written s'.outgoing) wire
                    sent out out',
                (wire, sent, m, refl, ws),
              )
        ]
      ]

-- One agent's loop sends what its shell gives, over a fresh connection, until the shell ends. The
-- bytes come to the other agent's loop in whatever segments, and the connection ends. Then the other
-- shell has been given all those bytes in order, if its writes succeed.
pub receive_all-send_chunks :
    {V W S : Type 0} (Out : Writer W) (FarOut : Writer V) (Shell : Writer S) (id : ℕ)
    (chunks : List (List ℕ)) (near near' : RelayTransport W) (s : Socket W) (far : RelayTransport V)
    (t : Socket V) (sh : S)
    → id < 2 ^ 16
    → All IsBytes chunks
    → usable near ≡ ok s
    → Out.written s.outgoing ≡ []
    → send_chunks (relay_transport Out) id chunks near ≡ (shell_read, near')
    → usable far ≡ ok t
    → ((s' : Socket W) → usable near' ≡ ok s' → stream t.incoming ≡ Out.written s'.outgoing)
    → NeverFails Shell
    → (e : TransportError) × (far' : RelayTransport V) × (sh' : S) × (receive_all
          (relay_transport FarOut)
          Shell
          id
          far
          sh
        ≡ (some (transport_failed e), far', sh'))
      × (Shell.written sh' ≡ Shell.written sh ++ flatten chunks)
receive_all-send_chunks Out FarOut Shell id chunks near near' s far t sh h v u fresh e r arrives
      good =
    let (sent, s', u', out, ws) = send_chunks-Wires Out id chunks near near' s h v u e in
    let came : stream t.incoming ≡ sent = arrives s' u' ∙ out ∙ rw fresh refl in
    let (x, far', sh', done, got) =
      receive_all-shell_bytes FarOut Shell id (data_frames id chunks) far t sh good r
        (data_frames-IsFrame id chunks h v) (rw came ws) in
    (x, far', sh', done, got ∙ rw (shell_bytes-data_frames id chunks) refl)

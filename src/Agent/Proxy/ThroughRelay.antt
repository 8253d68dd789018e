-- ===== src/Agent/Proxy/ThroughRelay.antt =====
-- tunnel.go, relay.go, client.go, handshake.go and server.go: from the shell of one agent through the
-- relay to the other end of the session.
use cloudbridge.Common.{
  ℕ, ◌<◌, ◌≡◌, ◌^◌, refl, sym, ◌∙◌, ap, List, [], ◌∷◌, ◌++◌, length, All, flatten, none, some, ok,
  arith, append_assoc, append_cancel_left, append-nil, length-append, Result-cases, inl, inr,
}
use cloudbridge.Common.Words.{IsBytes}
use cloudbridge.Common.Reader.{Conn, stream}
use cloudbridge.Common.Writer.{Writer}
use cloudbridge.Relay.Handshake.{HandshakeMessage, read_handshake}
use cloudbridge.Relay.Handshake.RoundTrip.{IsHandshake, wire}
use cloudbridge.Relay.Handshake.Segments.{read_handshake-ok, read_handshake-accepts}
use cloudbridge.Relay.Client.{Socket, connect_to_relay}
use cloudbridge.Relay.Client.Accepted.{connect_to_relay-sent}
use cloudbridge.Relay.Forward.{Copier}
use cloudbridge.Tunnel.Relay.{TransportError, RelayTransport, usable, open_relay, relay_transport}
use cloudbridge.Agent.Proxy.{transport_failed, shell_read, send_chunks, receive_all}
use cloudbridge.Agent.Proxy.Delivery.{NeverFails, receive_all-shell_bytes}
use cloudbridge.Agent.Proxy.EndToEnd.{
  data_frames, data_frames-IsFrame, send_chunks-Wires, shell_bytes-data_frames,
}

abbrev pub handshake_of : {W : Type 0} → RelayTransport W → HandshakeMessage
handshake_of rt = record { session_id = rt.session_id; peer_type = rt.peer_type }

stream-append : (c d : Conn) → stream (c ++ d) ≡ stream c ++ stream d
stream-append [] d = refl
stream-append (x ∷ c) d = rw (stream-append c d) (sym (append_assoc x (stream c) (stream d)))

nothing_left : (xs ys zs : List ℕ) → xs ≡ xs ++ (ys ++ zs) → zs ≡ []
nothing_left xs ys [] e = refl
nothing_left xs ys (z ∷ zs) e = absurd (
    omega
      (arith, ap length e, length-append {0} xs (ys ++ (z ∷ zs)), length-append {0} ys (z ∷ zs)))

module _ {W : Type 0} (Out : Writer W) (rt near : RelayTransport W) (s0 : Socket W) where
  -- An opened transport has sent its handshake.
  open_relay-sent :
      (s : Socket W)
      → rt.dialled ≡ some s0
      → Out.written s0.outgoing ≡ []
      → open_relay Out rt ≡ (none, near)
      → usable near ≡ ok s
      → Out.written s.outgoing ≡ wire (handshake_of rt)
  unfolding open_relay
  open_relay-sent s d fresh o u =
      elim (Result-cases (connect_to_relay Out rt.dialled rt.session_id rt.peer_type)) [
        | inr (e, c) ↦ absurd (ground (arith, o, c))
        | inl (s', c) ↦
            let same : s' ≡ s = ground (arith, o, c, u) in
            let c' : connect_to_relay Out (some s0) rt.session_id rt.peer_type ≡ ok s' =
              rw (← d) c in
            rw (← same)
              (connect_to_relay-sent Out s0 s' rt.session_id rt.peer_type c' ∙ rw fresh refl)
      ]

-- An agent's transport dials the relay over a fresh connection and is opened, and its loop sends
-- what its shell gives until the shell ends. On its end of that connection the relay reads the
-- handshake from the first segments `c0` and copies what comes after it, `c1 ++ more`, to the other
-- agent, without an error. That agent's loop reads those bytes, in whatever segments, until its
-- connection ends. Then the relay has read that agent's session ID and peer type, it has copied as
-- many bytes as come to the other agent, and the other shell has been given all the bytes of the
-- first one in order, if its writes succeed.
pub receive_all-relayed :
    {V W R S : Type 0} (Out : Writer W) (FarOut : Writer V) (RelayOut : Writer R) (Shell : Writer S)
    (io : Copier RelayOut) (id : ℕ) (chunks : List (List ℕ)) (rt near near' : RelayTransport W)
    (s0 s : Socket W) (c0 c1 more : Conn) (m : HandshakeMessage) (w w' : R) (n : ℕ)
    (far : RelayTransport V) (t : Socket V) (sh : S)
    → id < 2 ^ 16
    → All IsBytes chunks
    → IsHandshake (handshake_of rt)
    → rt.dialled ≡ some s0
    → Out.written s0.outgoing ≡ []
    → open_relay Out rt ≡ (none, near)
    → usable near ≡ ok s
    → send_chunks (relay_transport Out) id chunks near ≡ (shell_read, near')
    → IsBytes (stream c0)
    → stream c0 ≡ Out.written s.outgoing
    → read_handshake c0 ≡ ok (m, c1)
    → ((s' : Socket W) → usable near' ≡ ok s' → stream (c0 ++ more) ≡ Out.written s'.outgoing)
    → io.copy (c1 ++ more) w ≡ (n, none, w')
    → usable far ≡ ok t
    → RelayOut.written w' ≡ RelayOut.written w ++ stream t.incoming
    → NeverFails Shell
    → (m ≡ handshake_of rt)
      × (n ≡ length (stream t.incoming))
      × ((e : TransportError) × (far' : RelayTransport V) × (sh' : S) × (receive_all
              (relay_transport FarOut)
              Shell
              id
              far
              sh
            ≡ (some (transport_failed e), far', sh'))
          × (Shell.written sh' ≡ Shell.written sh ++ flatten chunks))
receive_all-relayed Out FarOut RelayOut Shell io id chunks rt near near' s0 s c0 c1 more m w w' n
      far t sh h v good d fresh o u snd b first hs arrives cp r passed nf =
    let first' = first ∙ open_relay-sent Out rt near s0 s d fresh o u in
    let (c1', same) =
      read_handshake-accepts c0 (handshake_of rt) [] b good
        (first' ∙ sym (append-nil (wire (handshake_of rt)))) in
    let got : m ≡ handshake_of rt = cc in
    let (lost, split) = (read_handshake-ok c0 c1 m b hs).1 in
    let none_left : stream c1 ≡ [] =
      nothing_left (wire m) lost (stream c1) (ap wire got ∙ sym first' ∙ split) in
    let (sent, s', u', out, ws) = send_chunks-Wires Out id chunks near near' s h v u snd in
    let behind : stream more ≡ sent =
      append_cancel_left (stream c0) (stream more) sent
        (sym (stream-append c0 more) ∙ arrives s' u' ∙ out ∙ rw (← first) refl) in
    let copied = io.copy_all (c1 ++ more) w (rw cp refl) in
    let all_of : stream (c1 ++ more) ≡ sent = stream-append c1 more ∙ rw (none_left, behind) refl in
    let came : stream t.incoming ≡ sent =
      append_cancel_left (RelayOut.written w) (stream t.incoming) sent
        (sym passed ∙ rw (cp, all_of) at copied.1) in
    let (x, far', sh', done, given) =
      receive_all-shell_bytes FarOut Shell id (data_frames id chunks) far t sh nf r
        (data_frames-IsFrame id chunks h v) (rw came ws) in
    (
      got,
      (rw (cp, all_of) at copied.0) ∙ rw came refl,
      (x, far', sh', done, given ∙ rw (shell_bytes-data_frames id chunks) refl),
    )

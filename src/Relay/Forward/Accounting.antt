-- ===== src/Relay/Forward/Accounting.antt =====
-- server.go with session.go: the counter of a session, and the connections at the end.
use cloudbridge.Common.{
  bytes_eq, ℕ, ◌+◌, ◌%◌, ◌^◌, ◌≤◌, ◌≡◌, refl, true, false, nat_eq_iff, List, [], ◌∷◌, ◌++◌, length,
  take, arith, length-append, length-take, ap, fun_ext,
}
use cloudbridge.Common.Reader.{stream}
use cloudbridge.Common.Writer.{Writer}
use cloudbridge.Relay.Session.{Session, Conns, close_conn, close}
use cloudbridge.Common.Map.{delete}
use cloudbridge.Relay.Server.{Server, store_session, end_relay}
use cloudbridge.Relay.Forward.{Copier, Wires, relay_session}

counted :
    (old new xs : List ℕ) (n : ℕ)
    → n ≤ length xs
    → new ≡ old ++ take n xs
    → length new ≡ length old + n
counted old new xs n le e =
    omega (arith, ap length e, length-append {0} old (take n xs), length-take {0} n xs)

add_twice :
    (x n m a a' b b' : ℕ)
    → a' ≡ a + n
    → b' ≡ b + m
    → (((x + n) % 2 ^ 64 + m) % 2 ^ 64 + b + a) % 2 ^ 64 ≡ (x + b' + a') % 2 ^ 64
add_twice x n m a a' b b' d e = rw (d, e) (omega arith)

-- The relaying of a session with two peers, whatever the copies do: the counter has grown by as many
-- bytes as the two peers have been sent, modulo 2 ^ 64, since it wraps; both connections are closed,
-- and so is the session.
pub relay_session-bytes :
    {W : Type 0} {Out : Writer W} (io : Copier Out) (v : Wires W) (x : Session) (conns : Conns)
    (a b : ℕ)
    → x.peers ≡ a ∷ b ∷ []
    → x.closed ≡ false
    → let (v', x', conns') = relay_session io v x conns in
      ((x'.bytes + length (Out.written v.to_first) + length (Out.written v.to_second)) % 2 ^ 64
        ≡ (x.bytes + length (Out.written v'.to_first) + length (Out.written v'.to_second)) % 2 ^ 64)
      × (conns' a ≡ false)
      × (conns' b ≡ false)
      × (x'.closed ≡ true)
unfolding relay_session close
relay_session-bytes {W} {Out} io v x conns a b two open' =
    let p = io.copy_part v.from_first v.to_second in
    let q = io.copy_part v.from_second v.to_first in
    rw (two, open')
      (
        add_twice x.bytes (io.copy v.from_first v.to_second).0 (io.copy v.from_second v.to_first).0
            (length (Out.written v.to_second))
            (length (Out.written (io.copy v.from_first v.to_second).2))
            (length (Out.written v.to_first))
            (length (Out.written (io.copy v.from_second v.to_first).2))
            (counted (Out.written v.to_second) _ (stream v.from_first) _ p.0 p.1)
            (counted (Out.written v.to_first) _ (stream v.from_second) _ q.0 q.1),
        ground (arith, nat_eq_iff a a, nat_eq_iff b a),
        ground (arith, nat_eq_iff b b),
        refl,
      )

close_conn_comm :
    (a b : ℕ) (conns : Conns)
    → close_conn a (close_conn b conns) ≡ close_conn b (close_conn a conns)
close_conn_comm a b conns = fun_ext (λ q. ground arith)

-- The relaying of a session with two peers, and the removal of the session behind it, do to
-- the server and the connections what `end_relay` does with the numbers of bytes that were copied.
relay_session-end_relay :
    {W : Type 0} {Out : Writer W} (io : Copier Out) (v : Wires W) (id : List ℕ) (s : ℕ)
    (srv : Server) (conns : Conns) (a b : ℕ)
    → (srv.cells s).peers ≡ a ∷ b ∷ []
    → let (v', x', conns') = relay_session io v (srv.cells s) conns in
      (record (store_session s x' srv) { sessions = delete id srv.sessions }, conns')
      ≡ end_relay id s
          (io.copy v.from_first v.to_second).0
          (io.copy v.from_second v.to_first).0
          srv
          conns
unfolding relay_session end_relay close
relay_session-end_relay io v id s srv conns a b two = rw (two, close_conn_comm a b conns) refl

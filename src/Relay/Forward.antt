-- ===== src/Relay/Forward.antt =====
-- server.go: `relaySession`, the bytes that go from one peer to the other. `io.Copy` is the standard
-- library's, a parameter with its documented laws.
pub mod Accounting
pub mod AtOnce
mod Tests
use cloudbridge.Common.{ℕ, ◌+◌, ◌≤◌, ◌≡◌, List, [], ◌∷◌, ◌++◌, length, take, Option, none, some}
use cloudbridge.Common.Reader.{IoError, Conn, stream}
use cloudbridge.Common.Writer.{Writer}
use cloudbridge.Relay.Session.{Session, Conns, get_peers, add_bytes, close, close_conn}

-- `io.Copy(dst, src)`, where `src` is what still comes in on a connection: how many bytes it copied,
-- an error, and the destination. Without an error the source has been copied to its end, and with
-- one a front of it.
pub record Copier {W : Type 0} (Out : Writer W) : Type 0 where
  pub copy : Conn → W → ℕ × Option IoError × W
  pub copy_all :
      (c : Conn) (w : W)
      → (copy c w).1 ≡ none
      → ((copy c w).0 ≡ length (stream c)) × (Out.written (copy c w).2 ≡ Out.written w ++ stream c)
  pub copy_part :
      (c : Conn) (w : W)
      → ((copy c w).0 ≤ length (stream c))
        × (Out.written (copy c w).2 ≡ Out.written w ++ take (copy c w).0 (stream c))

-- What the two peers of a session have sent, and the writers to them.
pub record Wires (W : Type 0) : Type 0 where
  pub from_first : Conn
  pub from_second : Conn
  pub to_first : W
  pub to_second : W

module _ {W : Type 0} {Out : Writer W} (io : Copier Out) where
  -- One goroutine: its error is only logged, and the destination is closed behind it.
  unfoldable pub forward : Conn → W → ℕ → Session → Conns → W × Session × Conns
  forward c w dst x conns =
      let (n, e, w') = io.copy c w in (w', add_bytes n x, close_conn dst conns)

  -- `relaySession`: nothing happens unless there are two peers. One goroutine writes to the connection
  -- that the other reads from, and the counter is added to under a lock. A goroutine that closes its
  -- destination can end the copy of the other early: that is a copy with an error.
  unfoldable pub relay_pair : List ℕ → Wires W → Session → Conns → Wires W × Session × Conns
  unfolding forward
  relay_pair [] v x conns = (v, x, conns)
  relay_pair (a ∷ []) v x conns = (v, x, conns)
  relay_pair (a ∷ b ∷ c ∷ cs) v x conns = (v, x, conns)
  relay_pair (a ∷ b ∷ []) v x conns =
      let (to_second, x', conns') = forward v.from_first v.to_second b x conns in
      let (to_first, x'', conns'') = forward v.from_second v.to_first a x' conns' in
      let (y, conns''') = close x'' conns'' in
      (record v { to_first = to_first; to_second = to_second }, y, conns''')

  unfoldable pub relay_session : Wires W → Session → Conns → Wires W × Session × Conns
  unfolding relay_pair
  relay_session v x conns = relay_pair (get_peers x) v x conns

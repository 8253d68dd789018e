-- ===== src/Relay/Session.antt =====
-- internal/relay/session.go: a session of the relay with its peers. A connection is a number, and
-- `Conns` says which are open.
use cloudbridge.Common.{
  ℕ, ◌+◌, ◌%◌, ◌^◌, Bool, true, false, List, [], ◌∷◌, ◌++◌, ltb, nat_eq, if◌then◌else◌, length,
  Result, ok, err,
}

pub data RelayError : Type 0 where
  session_already_full : RelayError

-- `peers` are the first `peerCount` entries of the source's array. The quotas are never read.
pub record Session : Type 0 where
  pub id : List ℕ
  pub created_at : ℕ
  pub peers : List ℕ
  pub bytes : ℕ
  pub quota_bytes : ℕ
  pub quota_rate : ℕ
  pub closed : Bool

abbrev pub Conns : Type 0
Conns = ℕ → Bool

-- `conn.Close()`
abbrev pub close_conn : ℕ → Conns → Conns
close_conn c conns q = if nat_eq c q then false else conns q

abbrev pub peer_count : Session → ℕ
peer_count x = length x.peers

unfoldable pub add_peer : ℕ → Session → Result RelayError Session
add_peer c x =
    if ltb 1 (peer_count x)
    then err session_already_full
    else ok (record x { peers = x.peers ++ (c ∷ []) })

abbrev pub get_peers : Session → List ℕ
get_peers x = x.peers

-- The counter is an `atomic.Int64`, by its bits: it wraps, and `n` is below 2 ^ 63.
abbrev pub add_bytes : ℕ → Session → Session
add_bytes n x = record x { bytes = (x.bytes + n) % 2 ^ 64 }

abbrev pub close_conns : List ℕ → Conns → Conns
close_conns [] conns = conns
close_conns (c ∷ cs) conns = close_conns cs (close_conn c conns)

-- `session.Close()`: the second call does nothing.
unfoldable pub close : Session → Conns → Session × Conns
close x conns =
    if x.closed then (x, conns) else (record x { closed = true }, close_conns x.peers conns)

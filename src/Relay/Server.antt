-- ===== src/Relay/Server.antt =====
-- internal/relay/server.go: the table of sessions and the handling of a connection. A connection has
-- its own goroutine, so `handleConnection` is split where it releases a lock, and a history takes
-- the parts of different connections in any order. A session stands in a heap, since the goroutines
-- keep a pointer to it.
pub mod Steps
pub mod Bounds
pub mod Pairs
pub mod Forwarding
pub mod Race
pub mod Accept
pub mod Names
pub mod Matching
pub mod SameSession
mod Tests
use cloudbridge.Common.{
  ℕ, suc, ◌+◌, Bool, true, false, List, [], ◌∷◌, bytes_eq, leb, nat_eq, if◌then◌else◌, Option, none,
  some, length,
}
use cloudbridge.Common.Map.{Map, lookup, insert, delete}
use cloudbridge.Relay.Session.{Session, Conns, peer_count, add_bytes, close_conns, close}

pub record ServerConfig : Type 0 where
  pub max_sessions : ℕ
  pub quota_bytes : ℕ
  pub quota_rate : ℕ

pub record Server : Type 0 where
  pub config : ServerConfig
  pub cells : ℕ → Session
  pub next : ℕ
  pub sessions : Map (List ℕ) ℕ

-- `*s = x`
abbrev pub store_session : ℕ → Session → Server → Server
store_session s x srv = record srv { cells = λ t. if nat_eq s t then x else srv.cells t }

abbrev pub new_session : List ℕ → ℕ → ServerConfig → Session
new_session id now cfg = record {
  id = id;
  created_at = now;
  peers = [];
  bytes = 0;
  quota_bytes = cfg.quota_bytes;
  quota_rate = cfg.quota_rate;
  closed = false;
}

-- The session of a handshake, found or made; `none` where there are too many.
unfoldable pub find_session : List ℕ → ℕ → Server → Option (ℕ × Server)
find_session id now srv = elim (lookup id srv.sessions) [
  | some s ↦ some (s, srv)
  | none ↦
      if leb srv.config.max_sessions (length srv.sessions)
      then none
      else some (
        srv.next,
        record (store_session srv.next (new_session id now srv.config) srv) {
          next = suc srv.next;
          sessions = insert id srv.next srv.sessions;
        },
      )
]

-- `if session.PeerCount() == 0 { delete(s.sessions, id) }`, after a peer was refused.
unfoldable pub clean_up : List ℕ → ℕ → Server → Server
clean_up id s srv =
    if nat_eq (peer_count (srv.cells s)) 0
    then record srv { sessions = delete id srv.sessions }
    else srv

abbrev pub session_count : Server → ℕ
session_count srv = length srv.sessions

-- The end of `relaySession`, when both copies have ended after `n` and `m` bytes and have closed
-- their destinations, and the removal of the session behind it.
unfoldable pub end_relay : List ℕ → ℕ → ℕ → ℕ → Server → Conns → Server × Conns
end_relay id s n m srv conns =
    let x = srv.cells s in
    let (y, conns') = close (add_bytes m (add_bytes n x)) (close_conns x.peers conns) in
    (record (store_session s y srv) { sessions = delete id srv.sessions }, conns')

-- The loop of the server's `Close` over its sessions.
unfoldable pub close_each : Map (List ℕ) ℕ → Server → Conns → Server × Conns
close_each [] srv conns = (srv, conns)
close_each ((id, s) ∷ m) srv conns =
    let (x, conns') = close (srv.cells s) conns in
    close_each m (record (store_session s x srv) { sessions = delete id srv.sessions }) conns'

unfoldable pub close_server : Server → Conns → Server × Conns
unfolding close_each
close_server srv conns = close_each srv.sessions srv conns

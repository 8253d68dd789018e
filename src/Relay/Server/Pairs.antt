-- ===== src/Relay/Server/Pairs.antt =====
-- server.go: what a step does to the number of peers of a session.
use cloudbridge.Common.{
  ℕ, ◌≡◌, ◌≤◌, ◌<◌, List, [], ◌∷◌, bytes_eq, nat_eq, nat_eq_iff, Option, none, some, ok, arith, All,
  All-weaken, inl, inr, Bool-cases,
}
use cloudbridge.Common.Map.{Map, lookup, delete, lookup-insert, lookup-delete}
use cloudbridge.Relay.Session.{Session, Conns, peer_count, add_peer, add_bytes, close_conns, close}
use cloudbridge.Relay.Server.{Server, store_session, find_session, clean_up, end_relay, close_each}
use cloudbridge.Relay.Server.Steps.{
  Phase, State, at_phase, reading, finished, found, joined, acked, full,
}

-- The table names sessions that have been made.
unfoldable pub IsMade : Server → Type 0
IsMade srv = (id : List ℕ) (s : ℕ) → lookup id srv.sessions ≡ some s → s < srv.next

-- What a step does not take back: a session stays made, a full one stays full.
pub record Extends (old new : Server) : Type 0 where
  pub more : old.next ≤ new.next
  pub full_stays :
      (s : ℕ) → s < old.next → peer_count (old.cells s) ≡ 2 → peer_count (new.cells s) ≡ 2
  pub stays_made : IsMade old → IsMade new

pub same-Extends : (srv : Server) → Extends srv srv
same-Extends srv = record { more = omega arith; full_stays = λ s l e. e; stays_made = λ w. w }

pub find_session-Extends :
    (id : List ℕ) (now s : ℕ) (srv srv' : Server)
    → find_session id now srv ≡ some (s, srv')
    → Extends srv srv'
unfolding find_session IsMade
find_session-Extends id now s srv srv' e = record {
  more = ground (arith, e);
  full_stays = λ t l f. ground (arith, e, l, f);
  stays_made =
      λ w id' t g. ground (arith, e, g, lookup-insert id id' srv.next srv.sessions, w id' t);
}

pub find_session-made :
    (id : List ℕ) (now s : ℕ) (srv srv' : Server)
    → IsMade srv
    → find_session id now srv ≡ some (s, srv')
    → s < srv'.next
unfolding find_session IsMade
find_session-made id now s srv srv' w e = ground (arith, e, w id s)

pub add_peer-Extends :
    (c s : ℕ) (x : Session) (srv : Server)
    → add_peer c (srv.cells s) ≡ ok x
    → Extends srv (store_session s x srv)
unfolding add_peer IsMade
add_peer-Extends c s x srv e = record {
  more = omega arith;
  full_stays = λ t l f. ground (arith, e, f, nat_eq_iff s t);
  stays_made = λ w. w;
}

delete-Extends :
    (id : List ℕ) (srv : Server) → Extends srv (record srv { sessions = delete id srv.sessions })
unfolding IsMade
delete-Extends id srv = record {
  more = omega arith;
  full_stays = λ t l f. f;
  stays_made = λ w id' t g. ground (arith, g, lookup-delete id id' srv.sessions, w id' t);
}

pub clean_up-Extends : (id : List ℕ) (s : ℕ) (srv : Server) → Extends srv (clean_up id s srv)
unfolding clean_up
clean_up-Extends id s srv = elim (Bool-cases (nat_eq (peer_count (srv.cells s)) 0)) [
  | inl e ↦ rw (e, clean_up) (delete-Extends id srv)
  | inr e ↦ rw (e, clean_up) (same-Extends srv)
]

-- A session that is closed keeps its peers.
closed-Extends :
    (id : List ℕ) (s : ℕ) (x : Session) (srv : Server)
    → peer_count x ≡ peer_count (srv.cells s)
    → Extends srv (record (store_session s x srv) { sessions = delete id srv.sessions })
unfolding IsMade
closed-Extends id s x srv e = record {
  more = omega arith;
  full_stays = λ t l f. ground (arith, e, f, nat_eq_iff s t);
  stays_made = λ w id' t g. ground (arith, g, lookup-delete id id' srv.sessions, w id' t);
}

close-peer_count : (x : Session) (conns : Conns) → peer_count (close x conns).0 ≡ peer_count x
unfolding close
close-peer_count x conns = ground arith

pub end_relay-Extends :
    (id : List ℕ) (s n m : ℕ) (srv : Server) (conns : Conns)
    → Extends srv (end_relay id s n m srv conns).0
unfolding end_relay
end_relay-Extends id s n m srv conns = closed-Extends id s _ srv (
    close-peer_count (add_bytes m (add_bytes n (srv.cells s)))
      (close_conns (srv.cells s).peers conns))

trans-Extends : (a b c : Server) → Extends a b → Extends b c → Extends a c
trans-Extends a b c x y = record {
  more = omega (arith, x.more, y.more);
  full_stays = λ s l e. y.full_stays s (omega (arith, l, x.more)) (x.full_stays s l e);
  stays_made = λ w. y.stays_made (x.stays_made w);
}

pub close_each-Extends :
    (m : Map (List ℕ) ℕ) (srv : Server) (conns : Conns) → Extends srv (close_each m srv conns).0
unfolding close_each
close_each-Extends [] srv conns = same-Extends srv
close_each-Extends ((id, s) ∷ m) srv conns =
    trans-Extends srv _ _
      (closed-Extends id s (close (srv.cells s) conns).0 srv (close-peer_count (srv.cells s) conns))
      (close_each-Extends m _ _)

-- The session that a connection's goroutine holds.
unfoldable pub session_of : Phase → Option ℕ
session_of reading = none
session_of finished = none
session_of (found id s) = some s
session_of (joined id s) = some s
session_of (acked id s) = some s
session_of (full id s) = some s

-- A made session with both its peers.
unfoldable pub IsPair : Server → List ℕ × ℕ → Type 0
IsPair srv e = (e.1 < srv.next) × (peer_count (srv.cells e.1) ≡ 2)

pub record IsPaired (st : State) : Type 0 where
  pub table : IsMade st.server
  pub held : (c s : ℕ) → session_of (st.phase c) ≡ some s → s < st.server.next
  pub pairs : All (IsPair st.server) st.relays

pub pairs-Extends :
    (old new : Server) (es : List (List ℕ × ℕ))
    → Extends old new
    → All (IsPair old) es
    → All (IsPair new) es
unfolding IsPair
pairs-Extends old new es x =
    All-weaken (IsPair old) (IsPair new)
      (λ e h. (omega (arith, h.0, x.more), x.full_stays e.1 h.0 h.1)) es

-- A step of one connection that changes the server and where the connection stands.
pub moved-IsPaired :
    (st : State) (c : ℕ) (ph : Phase) (srv : Server) (conns : Conns)
    → Extends st.server srv
    → ((s : ℕ) → session_of ph ≡ some s → s < srv.next)
    → IsPaired st
    → IsPaired (at_phase c ph (record st { server = srv; conns = conns }))
moved-IsPaired st c ph srv conns x h w = record {
  table = x.stays_made w.table;
  held = λ q s e. ground (arith, e, x.more, h s, w.held q s, nat_eq_iff c q);
  pairs = pairs-Extends st.server srv st.relays x w.pairs;
}

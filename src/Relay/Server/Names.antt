-- ===== src/Relay/Server/Names.antt =====
-- server.go: what a step does to the ID and the peers of a session.
use cloudbridge.Common.{
  ℕ, ◌≡◌, ◌≤◌, ◌<◌, refl, ◌∙◌, List, [], ◌∷◌, bytes_eq, nat_eq, nat_eq_iff, some, arith, inl, inr,
  Bool-cases,
}
use cloudbridge.Common.Map.{Map, lookup, delete, lookup-insert, lookup-delete}
use cloudbridge.Relay.Session.{Session, Conns, peer_count, add_bytes, close_conns, close}
use cloudbridge.Relay.Server.{Server, store_session, find_session, clean_up, end_relay, close_each}

-- The table gives a session under its own ID.
unfoldable pub IsNamed : Server → Type 0
IsNamed srv =
    (id : List ℕ) (s : ℕ)
    → lookup id srv.sessions ≡ some s
    → (s < srv.next) × ((srv.cells s).id ≡ id)

-- A step that takes no peer into a session.
pub record Keeps (old new : Server) : Type 0 where
  pub more : old.next ≤ new.next
  pub ids : (s : ℕ) → s < old.next → (new.cells s).id ≡ (old.cells s).id
  pub peers : (s : ℕ) → s < old.next → (new.cells s).peers ≡ (old.cells s).peers
  pub fresh : (s : ℕ) → old.next ≤ s → s < new.next → (new.cells s).peers ≡ []
  pub named : IsNamed old → IsNamed new

pub same-Keeps : (srv : Server) → Keeps srv srv
same-Keeps srv = record {
  more = omega arith;
  ids = λ s l. refl;
  peers = λ s l. refl;
  fresh = λ s l m. absurd (omega (arith, l, m));
  named = λ w. w;
}

pub find_session-Keeps :
    (id : List ℕ) (now s : ℕ) (srv srv' : Server)
    → find_session id now srv ≡ some (s, srv')
    → Keeps srv srv'
unfolding find_session IsNamed
find_session-Keeps id now s srv srv' e = record {
  more = ground (arith, e);
  ids = λ t l. ground (arith, e, l, nat_eq_iff srv.next t);
  peers = λ t l. ground (arith, e, l, nat_eq_iff srv.next t);
  fresh = λ t l m. ground (arith, e, l, m, nat_eq_iff srv.next t);
  named = λ w id' t g. ground (
    arith,
    e,
    g,
    lookup-insert id id' srv.next srv.sessions,
    w id' t,
    nat_eq_iff srv.next t,
    bytes_eq.beq_iff id id',
  );
}

pub find_session-named :
    (id : List ℕ) (now s : ℕ) (srv srv' : Server)
    → IsNamed srv
    → find_session id now srv ≡ some (s, srv')
    → (s < srv'.next) × ((srv'.cells s).id ≡ id)
unfolding find_session IsNamed
find_session-named id now s srv srv' w e = ground (arith, e, w id s, nat_eq_iff srv.next srv.next)

delete-Keeps :
    (id : List ℕ) (srv : Server) → Keeps srv (record srv { sessions = delete id srv.sessions })
unfolding IsNamed
delete-Keeps id srv = record {
  more = omega arith;
  ids = λ s l. refl;
  peers = λ s l. refl;
  fresh = λ s l m. absurd (omega (arith, l, m));
  named = λ w id' t g. ground (arith, g, lookup-delete id id' srv.sessions, w id' t);
}

pub clean_up-Keeps : (id : List ℕ) (s : ℕ) (srv : Server) → Keeps srv (clean_up id s srv)
unfolding clean_up
clean_up-Keeps id s srv = elim (Bool-cases (nat_eq (peer_count (srv.cells s)) 0)) [
  | inl e ↦ rw (e, clean_up) (delete-Keeps id srv)
  | inr e ↦ rw (e, clean_up) (same-Keeps srv)
]

-- A session that is closed keeps its ID and its peers.
closed-Keeps :
    (id : List ℕ) (s : ℕ) (x : Session) (srv : Server)
    → x.id ≡ (srv.cells s).id
    → x.peers ≡ (srv.cells s).peers
    → Keeps srv (record (store_session s x srv) { sessions = delete id srv.sessions })
unfolding IsNamed
closed-Keeps id s x srv e f = record {
  more = omega arith;
  ids = λ t l. ground (arith, e, nat_eq_iff s t);
  peers = λ t l. ground (arith, f, nat_eq_iff s t);
  fresh = λ t l m. absurd (omega (arith, l, m));
  named =
      λ w id' t g. ground (arith, g, e, lookup-delete id id' srv.sessions, w id' t, nat_eq_iff s t);
}

close-kept :
    (x : Session) (conns : Conns)
    → ((close x conns).0.id ≡ x.id) × ((close x conns).0.peers ≡ x.peers)
unfolding close
close-kept x conns = ground arith

pub end_relay-Keeps :
    (id : List ℕ) (s n m : ℕ) (srv : Server) (conns : Conns)
    → Keeps srv (end_relay id s n m srv conns).0
unfolding end_relay
end_relay-Keeps id s n m srv conns =
    let k =
      close-kept (add_bytes m (add_bytes n (srv.cells s)))
        (close_conns (srv.cells s).peers conns) in
    closed-Keeps id s _ srv k.0 k.1

trans-Keeps : (a b c : Server) → Keeps a b → Keeps b c → b.next ≡ a.next → Keeps a c
trans-Keeps a b c x y n = record {
  more = omega (arith, x.more, y.more);
  ids = λ s l. y.ids s (omega (arith, l, x.more)) ∙ x.ids s l;
  peers = λ s l. y.peers s (omega (arith, l, x.more)) ∙ x.peers s l;
  fresh = λ s l m. y.fresh s (omega (arith, l, n)) m;
  named = λ w. y.named (x.named w);
}

pub close_each-Keeps :
    (m : Map (List ℕ) ℕ) (srv : Server) (conns : Conns) → Keeps srv (close_each m srv conns).0
unfolding close_each
close_each-Keeps [] srv conns = same-Keeps srv
close_each-Keeps ((id, s) ∷ m) srv conns =
    let k = close-kept (srv.cells s) conns in
    trans-Keeps srv _ _ (closed-Keeps id s (close (srv.cells s) conns).0 srv k.0 k.1)
      (close_each-Keeps m _ _) refl

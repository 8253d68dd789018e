-- ===== src/Relay/Server/Bounds.antt =====
-- server.go: how many sessions and peers there are, whatever the order of the steps.
use cloudbridge.Common.{
  ℕ, ◌≡◌, ◌≤◌, refl, subst, List, [], ◌∷◌, bytes_eq, some, ok, arith, length, length-append,
}
use cloudbridge.Common.Map.{Map, length-insert_new, length-delete-le}
use cloudbridge.Relay.Session.{Session, Conns, peer_count, add_peer, close}
use cloudbridge.Relay.Server.{
  ServerConfig, Server, find_session, clean_up, end_relay, close_each, close_server,
}
use cloudbridge.Relay.Server.Steps.{
  State, Step, Reach, new_server, fails, finds, rejects, joins, overflows, cleans, acks, ack_fails,
  establishes, waits, ends, shuts, here, next,
}

-- No more sessions than the configuration allows, no more than two peers in any.
record IsBounded (cfg : ServerConfig) (srv : Server) : Type 0 where
  configured : srv.config ≡ cfg
  few_sessions : length srv.sessions ≤ srv.config.max_sessions
  few_peers : (s : ℕ) → peer_count (srv.cells s) ≤ 2

find_session-IsBounded :
    {cfg : ServerConfig} (id : List ℕ) (now s : ℕ) (srv srv' : Server)
    → IsBounded cfg srv
    → find_session id now srv ≡ some (s, srv')
    → IsBounded cfg srv'
unfolding find_session
find_session-IsBounded id now s srv srv' w e = record {
  configured = ground (arith, e, w.configured);
  few_sessions = ground (arith, e, w.few_sessions, length-insert_new id srv.next srv.sessions);
  few_peers = λ t. ground (arith, e, w.few_peers t);
}

add_peer-le : (c : ℕ) (x y : Session) → add_peer c x ≡ ok y → peer_count y ≤ 2
unfolding add_peer
add_peer-le c x y e = ground (arith, e, length-append x.peers (c ∷ []))

close-peers : (x : Session) (conns : Conns) → (close x conns).0.peers ≡ x.peers
unfolding close
close-peers x conns = ground arith

end_relay-IsBounded :
    {cfg : ServerConfig} (id : List ℕ) (s n m : ℕ) (srv : Server) (conns : Conns)
    → IsBounded cfg srv
    → IsBounded cfg (end_relay id s n m srv conns).0
unfolding end_relay close
end_relay-IsBounded id s n m srv conns w = record {
  configured = ground (arith, w.configured);
  few_sessions = ground (arith, w.few_sessions, length-delete-le id srv.sessions);
  few_peers = λ t. ground (arith, w.few_peers t, w.few_peers s);
}

close_each-IsBounded :
    {cfg : ServerConfig} (m : Map (List ℕ) ℕ) (srv : Server) (conns : Conns)
    → IsBounded cfg srv
    → IsBounded cfg (close_each m srv conns).0
unfolding close_each close
close_each-IsBounded [] srv conns w = w
close_each-IsBounded ((id, s) ∷ m) srv conns w = close_each-IsBounded m _ _ (record {
  configured = w.configured;
  few_sessions = ground (arith, w.few_sessions, length-delete-le id srv.sessions);
  few_peers = λ t. ground (arith, w.few_peers t, w.few_peers s);
})

clean_up-IsBounded :
    {cfg : ServerConfig} (id : List ℕ) (s : ℕ) (srv : Server)
    → IsBounded cfg srv
    → IsBounded cfg (clean_up id s srv)
unfolding clean_up
clean_up-IsBounded id s srv w = record {
  configured = ground (arith, w.configured);
  few_sessions = ground (arith, w.few_sessions, length-delete-le id srv.sessions);
  few_peers = λ t. ground (arith, w.few_peers t);
}

Step-IsBounded :
    {cfg : ServerConfig} (st st' : State)
    → Step st st'
    → IsBounded cfg st.server
    → IsBounded cfg st'.server
unfolding close_server
Step-IsBounded st _ (fails c p) w = w
Step-IsBounded st _ (finds c id now s srv p e) w = find_session-IsBounded id now s st.server srv w e
Step-IsBounded st _ (rejects c id now p e) w = w
Step-IsBounded st _ (joins c id s x p e) w = record {
  configured = w.configured;
  few_sessions = w.few_sessions;
  few_peers = λ t. ground (arith, add_peer-le c (st.server.cells s) x e, w.few_peers t);
}
Step-IsBounded st _ (overflows c id s e p q) w = w
Step-IsBounded st _ (cleans c id s p) w = clean_up-IsBounded id s st.server w
Step-IsBounded st _ (acks c id s p) w = w
Step-IsBounded st _ (ack_fails c id s p) w = w
Step-IsBounded st _ (establishes c id s p q) w = w
Step-IsBounded st _ (waits c id s p q) w = w
Step-IsBounded st _ (ends xs id s ys n m e) w = end_relay-IsBounded id s n m st.server st.conns w
Step-IsBounded st _ shuts w = close_each-IsBounded st.server.sessions st.server st.conns w

new_server-IsBounded : (cfg : ServerConfig) → IsBounded cfg (new_server cfg).server
new_server-IsBounded cfg = record {
  configured = refl;
  few_sessions = omega arith;
  few_peers = λ s. omega arith;
}

reached : (cfg : ServerConfig) (st : State) → Reach (new_server cfg) st → IsBounded cfg st.server
reached cfg _ here = new_server-IsBounded cfg
reached cfg _ (next {t} {u} r p) = Step-IsBounded t u p (reached cfg t r)

-- In every order of the connections' steps, the server has at most as many sessions as it may have,
-- and a session has at most two peers.
pub Reach-IsBounded :
    (cfg : ServerConfig) (st : State)
    → Reach (new_server cfg) st
    → (length st.server.sessions ≤ cfg.max_sessions)
      × ((s : ℕ) → peer_count (st.server.cells s) ≤ 2)
Reach-IsBounded cfg st r =
    let w = reached cfg st r in
    (
      subst (λ k. length st.server.sessions ≤ k.max_sessions) w.configured w.few_sessions,
      w.few_peers,
    )

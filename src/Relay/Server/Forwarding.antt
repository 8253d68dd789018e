-- ===== src/Relay/Server/Forwarding.antt =====
-- server.go: the sessions for which `relaySession` is started.
use cloudbridge.Common.{ℕ, ◌≡◌, ◌<◌, refl, ap, ◌∙◌, bytes_eq, some, arith, All}
use cloudbridge.Common.Map.{lookup}
use cloudbridge.Relay.Session.{Conns, close_conn, peer_count}
use cloudbridge.Relay.Server.{ServerConfig, Server, store_session, clean_up, close_server}
use cloudbridge.Relay.Server.Steps.{
  Phase, State, Step, Reach, with_server, new_server, finished, found, joined, acked, full, fails,
  finds, rejects, joins, overflows, cleans, acks, ack_fails, establishes, waits, ends, shuts, here,
  next,
}
use cloudbridge.Relay.Server.Pairs.{
  IsMade, session_of, IsPair, IsPaired, Extends, find_session-Extends, find_session-made,
  add_peer-Extends, clean_up-Extends, end_relay-Extends, close_each-Extends, same-Extends,
  moved-IsPaired, pairs-Extends,
}

-- A connection whose goroutine holds a session still holds a made one in its next phase.
held_in :
    (st : State) (c s : ℕ) (old new : Phase)
    → IsPaired st
    → st.phase c ≡ old
    → session_of old ≡ some s
    → session_of new ≡ some s
    → (t : ℕ) → session_of new ≡ some t
    → t < st.server.next
held_in st c s old new w p h k t e = ground (arith, e, k, h, w.held c s (ap session_of p ∙ h))

served-IsPaired :
    (st : State) (srv : Server) (conns : Conns)
    → Extends st.server srv
    → IsPaired st
    → IsPaired (with_server (srv, conns) st)
served-IsPaired st srv conns x w = record {
  table = x.stays_made w.table;
  held = λ q s e. omega (arith, x.more, w.held q s e);
  pairs = pairs-Extends st.server srv st.relays x w.pairs;
}

Step-IsPaired : (st st' : State) → Step st st' → IsPaired st → IsPaired st'
unfolding session_of close_server IsPair
Step-IsPaired st _ (fails c p) w =
    moved-IsPaired st c finished st.server (close_conn c st.conns) (same-Extends st.server)
      (λ s e. cc) w
Step-IsPaired st _ (finds c id now s srv p e) w =
    moved-IsPaired st c (found id s) srv st.conns (find_session-Extends id now s st.server srv e)
      (λ t f. ground (arith, f, find_session-made id now s st.server srv w.table e)) w
Step-IsPaired st _ (rejects c id now p e) w =
    moved-IsPaired st c finished st.server (close_conn c st.conns) (same-Extends st.server)
      (λ s e. cc) w
Step-IsPaired st _ (joins c id s x p e) w =
    moved-IsPaired st c (joined id s) (store_session s x st.server) st.conns
      (add_peer-Extends c s x st.server e) (held_in st c s (found id s) (joined id s) w p refl refl)
      w
Step-IsPaired st _ (overflows c id s e p q) w =
    moved-IsPaired st c (full id s) st.server (close_conn c st.conns) (same-Extends st.server)
      (held_in st c s (found id s) (full id s) w p refl refl) w
Step-IsPaired st _ (cleans c id s p) w =
    moved-IsPaired st c finished (clean_up id s st.server) st.conns
      (clean_up-Extends id s st.server) (λ s e. cc) w
Step-IsPaired st _ (acks c id s p) w =
    moved-IsPaired st c (acked id s) st.server st.conns (same-Extends st.server)
      (held_in st c s (joined id s) (acked id s) w p refl refl) w
Step-IsPaired st _ (ack_fails c id s p) w =
    moved-IsPaired st c finished st.server (close_conn c st.conns) (same-Extends st.server)
      (λ s e. cc) w
Step-IsPaired st _ (establishes c id s p q) w =
    let v =
      moved-IsPaired st c finished st.server st.conns (same-Extends st.server) (λ s e. cc) w in
    record { table = v.table; held = v.held; pairs = ((w.held c s (ap session_of p), q), v.pairs) }
Step-IsPaired st _ (waits c id s p q) w =
    moved-IsPaired st c finished st.server st.conns (same-Extends st.server) (λ s e. cc) w
Step-IsPaired st _ (ends xs id s ys n m e) w =
    served-IsPaired st _ _ (end_relay-Extends id s n m st.server st.conns) w
Step-IsPaired st _ shuts w =
    served-IsPaired st _ _ (close_each-Extends st.server.sessions st.server st.conns) w

new_server-IsPaired : (cfg : ServerConfig) → IsPaired (new_server cfg)
unfolding session_of IsMade lookup
new_server-IsPaired cfg = record { table = λ id s e. cc; held = λ c s e. cc; pairs = tt }

reached : (cfg : ServerConfig) (st : State) → Reach (new_server cfg) st → IsPaired st
reached cfg _ here = new_server-IsPaired cfg
reached cfg _ (next {t} {u} r p) = Step-IsPaired t u p (reached cfg t r)

-- In every order of the connections' steps, every session whose forwarding has been started has
-- been made and has its two peers, also after it is closed and forgotten.
pub Reach-IsPair :
    (cfg : ServerConfig) (st : State)
    → Reach (new_server cfg) st
    → All (λ e. (e.1 < st.server.next) × (peer_count (st.server.cells e.1) ≡ 2)) st.relays
unfolding IsPair
Reach-IsPair cfg st r = (reached cfg st r).pairs

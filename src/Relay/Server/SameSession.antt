-- ===== src/Relay/Server/SameSession.antt =====
-- server.go: the histories of the relay with the session IDs that were sent.
use cloudbridge.Common.{
  subst, fun_ext, ℕ, ◌≡◌, ◌≢◌, refl, ap, ◌∙◌, true, List, bytes_eq, nat_eq, nat_eq_iff,
  if◌then◌else◌, none, some, arith, All, All-weaken,
}
use cloudbridge.Common.Map.{lookup}
use cloudbridge.Relay.Session.{Conns, close_conn}
use cloudbridge.Relay.Server.{ServerConfig, Server, clean_up, close_server}
use cloudbridge.Relay.Server.Names.{
  IsNamed, Keeps, same-Keeps, find_session-Keeps, find_session-named, clean_up-Keeps,
  end_relay-Keeps, close_each-Keeps,
}
use cloudbridge.Relay.Server.Steps.{
  Phase, State, Step, Reach, with_server, new_server, finished, found, joined, acked, full, fails,
  finds, rejects, joins, overflows, cleans, acks, ack_fails, establishes, waits, ends, shuts, here,
  next,
}
use cloudbridge.Relay.Server.Matching.{
  Sent, note, sent_by_step, sent_ids, held_by, has_joined, Distinct, IsMatched, moved,
  joins-IsMatched, add_peer-ok,
}

-- A connection goes on to a phase with the same session.
stays :
    (sent : Sent) (st : State) (c s : ℕ) (id : List ℕ) (old new : Phase) (conns : Conns)
    → st.phase c ≡ old
    → held_by old ≡ some (id, s)
    → held_by new ≡ some (id, s)
    → (has_joined old ≡ true → has_joined new ≡ true)
    → IsMatched sent st
    → IsMatched sent
        (record st { phase = λ q. if nat_eq c q then new else st.phase q; conns = conns })
stays sent st c s id old new conns p h k j w =
    let g = w.held c s id (ap held_by p ∙ h) in
    moved sent sent st c new st.server conns (same-Keeps st.server) (λ q n. refl) (λ i a b. a)
      (λ b. j (rw p at b)) (λ t i e. ground (arith, e, k, g.0, g.1, g.2)) w

-- It ends, having joined or not.
leaves :
    (sent sent' : Sent) (st : State) (c : ℕ) (srv : Server) (conns : Conns)
    → Keeps st.server srv
    → ((q : ℕ) → c ≢ q → sent' q ≡ sent q)
    → ((id : List ℕ) → sent c ≡ some id → has_joined (st.phase c) ≡ true → sent' c ≡ some id)
    → IsMatched sent st
    → IsMatched sent' (record st {
      server = srv;
      conns = conns;
      phase = λ q. if nat_eq c q then finished else st.phase q;
    })
unfolding held_by has_joined
leaves sent sent' st c srv conns k others own w =
    moved sent sent' st c finished srv conns k others own (λ b. refl)
      (λ t i e. absurd (ground (arith, e))) w

served-IsMatched :
    (sent : Sent) (st : State) (srv : Server) (conns : Conns)
    → Keeps st.server srv
    → IsMatched sent st
    → IsMatched sent (with_server (srv, conns) st)
served-IsMatched sent st srv conns k w =
    subst
      (λ (phase : ℕ → Phase).
        IsMatched sent (record st { server = srv; conns = conns; phase = phase }))
      (fun_ext (λ q. ground (arith, ap st.phase, nat_eq_iff 0 q)))
      (moved sent sent st 0 (st.phase 0) srv conns k (λ q n. refl) (λ i a b. a) (λ b. b)
        (λ s i e. let g = w.held 0 s i e in (g.0, omega (arith, g.1, k.more), k.ids s g.1 ∙ g.2)) w)

Step-IsMatched :
    (sent : Sent) (st st' : State) (p : Step st st')
    → IsMatched sent st
    → IsMatched (sent_by_step p sent) st'
unfolding held_by has_joined close_server
Step-IsMatched sent st _ (fails c p) w =
    leaves sent sent st c st.server (close_conn c st.conns) (same-Keeps st.server) (λ q n. refl)
      (λ i a b. a) w
Step-IsMatched sent st _ (finds c id now s srv p e) w =
    let k = find_session-named id now s st.server srv w.named e in
    moved sent (note c id sent) st c (found id s) srv st.conns
      (find_session-Keeps id now s st.server srv e) (λ q n. ground (arith, n, nat_eq_iff c q))
      (λ i a b. absurd (ground (arith, ap has_joined p, b)))
      (λ b. absurd (ground (arith, ap has_joined p, b)))
      (λ t i f. ground (arith, f, k.0, k.1, nat_eq_iff c c)) w
Step-IsMatched sent st _ (rejects c id now p e) w =
    leaves sent (note c id sent) st c st.server (close_conn c st.conns) (same-Keeps st.server)
      (λ q n. ground (arith, n, nat_eq_iff c q))
      (λ i a b. absurd (ground (arith, ap has_joined p, b))) w
Step-IsMatched sent st _ (joins c id s x p e) w =
    let (i, ps) = add_peer-ok c (st.server.cells s) x e in joins-IsMatched sent st c id s x p i ps w
Step-IsMatched sent st _ (overflows c id s e p q) w =
    stays sent st c s id (found id s) (full id s) (close_conn c st.conns) p refl refl (λ b. b) w
Step-IsMatched sent st _ (cleans c id s p) w =
    leaves sent sent st c (clean_up id s st.server) st.conns (clean_up-Keeps id s st.server)
      (λ q n. refl) (λ i a b. a) w
Step-IsMatched sent st _ (acks c id s p) w =
    stays sent st c s id (joined id s) (acked id s) st.conns p refl refl (λ b. b) w
Step-IsMatched sent st _ (ack_fails c id s p) w =
    leaves sent sent st c st.server (close_conn c st.conns) (same-Keeps st.server) (λ q n. refl)
      (λ i a b. a) w
Step-IsMatched sent st _ (establishes c id s p q) w =
    let v =
      leaves sent sent st c st.server st.conns (same-Keeps st.server) (λ q n. refl) (λ i a b. a)
        w in
    let g = w.held c s id (ap held_by p) in
    record {
      named = v.named;
      held = v.held;
      peers = v.peers;
      distinct = v.distinct;
      relays = ((g.1, g.2), v.relays);
    }
Step-IsMatched sent st _ (waits c id s p q) w =
    leaves sent sent st c st.server st.conns (same-Keeps st.server) (λ q n. refl) (λ i a b. a) w
Step-IsMatched sent st _ (ends xs id s ys n m e) w =
    served-IsMatched sent st _ _ (end_relay-Keeps id s n m st.server st.conns) w
Step-IsMatched sent st _ shuts w =
    served-IsMatched sent st _ _ (close_each-Keeps st.server.sessions st.server st.conns) w

new_server-IsMatched : (cfg : ServerConfig) → IsMatched (λ c. none) (new_server cfg)
unfolding held_by IsNamed lookup
new_server-IsMatched cfg = record {
  named = λ id s e. absurd (ground (arith, e));
  held = λ c s id e. absurd (ground (arith, e));
  peers = λ s l. tt;
  distinct = λ s l. tt;
  relays = tt;
}

reached :
    (cfg : ServerConfig) (st : State) (r : Reach (new_server cfg) st) → IsMatched (sent_ids r) st
reached cfg _ here = new_server-IsMatched cfg
reached cfg _ (next {t} {u} r p) = Step-IsMatched (sent_ids r) t u p (reached cfg t r)

-- In every order of the connections' steps, for every session whose forwarding has been started under
-- an ID: all its peers are connections that have sent that ID in their handshakes, and no connection
-- is its peer twice.
pub Reach-same_session :
    (cfg : ServerConfig) (st : State) (r : Reach (new_server cfg) st)
    → All
        (λ e.
          All (λ c. sent_ids r c ≡ some e.0) (st.server.cells e.1).peers
          × Distinct (st.server.cells e.1).peers)
        st.relays
Reach-same_session cfg st r =
    let w = reached cfg st r in
    All-weaken _ _
      (λ e h. (
        All-weaken _ _ (λ c g. g.0 ∙ ap some h.1) (st.server.cells e.1).peers (w.peers e.1 h.0),
        w.distinct e.1 h.0,
      ))
      st.relays w.relays

-- ===== src/Relay/Server/Race.antt =====
-- server.go: two peers that come at the same time.
use cloudbridge.Common.{ℕ, ◌≡◌, ◌≢◌, ◌<◌, refl, List, [], ◌∷◌, bytes_eq, some, arith}
use cloudbridge.Common.Map.{lookup, insert, lookup-insert_self}
use cloudbridge.Relay.Session.{add_peer}
use cloudbridge.Relay.Server.{ServerConfig, Server, store_session, new_session, find_session}
use cloudbridge.Relay.Server.Steps.{
  State, Reach, at_phase, new_server, finished, found, joined, acked, finds, joins, acks,
  establishes, here, next,
}

-- The server when the first of two peers has made the session.
made : List ℕ → ℕ → ServerConfig → Server
made id now cfg = record (store_session 0 (new_session id now cfg) (new_server cfg).server) {
  next = 1;
  sessions = insert id 0 [];
}

find_session-first :
    (id : List ℕ) (now : ℕ) (cfg : ServerConfig)
    → 0 < cfg.max_sessions
    → find_session id now (new_server cfg).server ≡ some (0, made id now cfg)
unfolding find_session made lookup
find_session-first id now cfg h = ground arith

find_session-second :
    (id : List ℕ) (now later : ℕ) (cfg : ServerConfig)
    → find_session id later (made id now cfg) ≡ some (0, made id now cfg)
unfolding find_session made lookup insert
find_session-second id now later cfg =
    ground (arith, lookup-insert_self {V = ℕ} id 0 [], bytes_eq.beq_iff id id)

-- A server that takes sessions, and two connections that come at the same time with one session ID.
-- Both can have been acknowledged while the session has the two as its peers, and then each of them
-- can start the forwarding of that session, which so runs twice.
pub Reach-relay_twice :
    (cfg : ServerConfig) (id : List ℕ) (p q now later : ℕ)
    → 0 < cfg.max_sessions
    → p ≢ q
    → (st : State) × (u : State) × Reach (new_server cfg) st
      × (st.phase p ≡ acked id 0)
      × (st.phase q ≡ acked id 0)
      × ((st.server.cells 0).peers ≡ p ∷ q ∷ [])
      × Reach st u
      × (u.phase p ≡ finished)
      × (u.phase q ≡ finished)
      × (u.relays ≡ (id, 0) ∷ (id, 0) ∷ [])
unfolding made add_peer
Reach-relay_twice cfg id p q now later h n =
    let st0 = new_server cfg in
    let st1 = at_phase p (found id 0) (record st0 { server = made id now cfg }) in
    let st2 = at_phase q (found id 0) (record st1 { server = made id now cfg }) in
    let x = record (new_session id now cfg) { peers = p ∷ [] } in
    let st3 = at_phase p (joined id 0) (record st2 { server = store_session 0 x st2.server }) in
    let y = record x { peers = p ∷ q ∷ [] } in
    let st4 = at_phase q (joined id 0) (record st3 { server = store_session 0 y st3.server }) in
    let st5 = at_phase p (acked id 0) st4 in
    let st6 = at_phase q (acked id 0) st5 in
    let st7 = at_phase p finished (record st6 { relays = (id, 0) ∷ [] }) in
    let r1 =
      next here (finds p id now 0 (made id now cfg) refl (find_session-first id now cfg h)) in
    let r2 : Reach st0 st2 = next r1 (
      finds q id later 0 (made id now cfg) (ground (arith, n))
        (find_session-second id now later cfg)) in
    let r3 : Reach st0 st3 = next r2 (joins p id 0 x (ground (arith, n)) refl) in
    let r4 : Reach st0 st4 = next r3 (joins q id 0 y (ground (arith, n)) refl) in
    let r5 : Reach st0 st5 = next r4 (acks p id 0 (ground (arith, n))) in
    let r6 : Reach st0 st6 = next r5 (acks q id 0 (ground (arith, n))) in
    let st8 = at_phase q finished (record st7 { relays = (id, 0) ∷ (id, 0) ∷ [] }) in
    let r7 : Reach st6 st7 = next here (establishes p id 0 (ground (arith, n)) refl) in
    let r8 : Reach st6 st8 = next r7 (establishes q id 0 (ground (arith, n)) refl) in
    (
      st6,
      st8,
      r6,
      ground (arith, n),
      ground (arith, n),
      refl,
      r8,
      ground (arith, n),
      ground (arith, n),
      refl,
    )

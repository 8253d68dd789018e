-- ===== src/Relay/Server/Matching.antt =====
-- server.go: the peers of a session, and the session IDs that connections have sent.
use cloudbridge.Common.{
  ℕ, ◌≡◌, ◌≢◌, ◌⊎◌, ltb, ◌≤◌, ◌<◌, refl, sym, ap, ◌∙◌, Bool, true, false, List, [], ◌∷◌, ◌++◌,
  bytes_eq, nat_eq, nat_eq_iff, if◌then◌else◌, Option, none, some, ok, arith, All, All-weaken,
  All-append, inl, inr, Bool-cases, subst,
}
use cloudbridge.Relay.Session.{Session, Conns, add_peer}
use cloudbridge.Relay.Server.{Server, store_session}
use cloudbridge.Relay.Server.Names.{IsNamed, Keeps}
use cloudbridge.Relay.Server.Steps.{
  Phase, State, Step, Reach, at_phase, reading, finished, found, joined, acked, full, fails, finds,
  rejects, joins, overflows, cleans, acks, ack_fails, establishes, waits, ends, shuts, here, next,
}

-- The session IDs that the connections have sent in their handshakes.
abbrev pub Sent : Type 0
Sent = ℕ → Option (List ℕ)

abbrev pub note : ℕ → List ℕ → Sent → Sent
note c id sent q = if nat_eq c q then some id else sent q

abbrev pub sent_by_step : {st st' : State} → Step st st' → Sent → Sent
sent_by_step (finds c id now s srv p e) sent = note c id sent
sent_by_step (fails c p) sent = sent
sent_by_step (rejects c id now p e) sent = note c id sent
sent_by_step (joins c id s x p e) sent = sent
sent_by_step (overflows c id s e p q) sent = sent
sent_by_step (cleans c id s p) sent = sent
sent_by_step (acks c id s p) sent = sent
sent_by_step (ack_fails c id s p) sent = sent
sent_by_step (establishes c id s p q) sent = sent
sent_by_step (waits c id s p q) sent = sent
sent_by_step (ends xs id s ys n m e) sent = sent
sent_by_step shuts sent = sent

abbrev pub sent_ids : {st st' : State} → Reach st st' → Sent
sent_ids here = λ c. none
sent_ids (next r p) = sent_by_step p (sent_ids r)

-- The session that a connection's goroutine holds, and whether the connection may be a peer.
unfoldable pub held_by : Phase → Option (List ℕ × ℕ)
held_by reading = none
held_by finished = none
held_by (found id s) = some (id, s)
held_by (joined id s) = some (id, s)
held_by (acked id s) = some (id, s)
held_by (full id s) = some (id, s)

unfoldable pub has_joined : Phase → Bool
has_joined reading = false
has_joined finished = true
has_joined (found id s) = false
has_joined (joined id s) = true
has_joined (acked id s) = true
has_joined (full id s) = false

-- A connection that has joined and has sent the session's ID.
abbrev pub IsPeer : Sent → (ℕ → Phase) → Session → ℕ → Type 0
IsPeer sent phase x c = (sent c ≡ some x.id) × (has_joined (phase c) ≡ true)

abbrev pub Distinct : List ℕ → Type 0
Distinct [] = Unit
Distinct (c ∷ cs) = All (λ d. c ≢ d) cs × Distinct cs

pub record IsMatched (sent : Sent) (st : State) : Type 0 where
  pub named : IsNamed st.server
  pub held :
      (c s : ℕ) (id : List ℕ)
      → held_by (st.phase c) ≡ some (id, s)
      → (sent c ≡ some id) × (s < st.server.next) × ((st.server.cells s).id ≡ id)
  pub peers :
      (s : ℕ)
      → s < st.server.next
      → All (IsPeer sent st.phase (st.server.cells s)) (st.server.cells s).peers
  pub distinct : (s : ℕ) → s < st.server.next → Distinct (st.server.cells s).peers
  pub relays : All (λ e. (e.1 < st.server.next) × ((st.server.cells e.1).id ≡ e.0)) st.relays

pub old_or_new : (s n : ℕ) → (s < n) ⊎ (n ≤ s)
old_or_new s n = elim (Bool-cases (ltb s n)) [
  | inl y ↦ inl (ground (arith, y))
  | inr y ↦ inr (ground (arith, y))
]

-- A peer stays one where another connection moves, or where it moves on itself.
pub moved-IsPeer :
    (sent sent' : Sent) (phase : ℕ → Phase) (c : ℕ) (ph : Phase) (x y : Session)
    → ((q : ℕ) → c ≢ q → sent' q ≡ sent q)
    → ((id : List ℕ) → sent c ≡ some id → has_joined (phase c) ≡ true → sent' c ≡ some id)
    → (has_joined (phase c) ≡ true → has_joined ph ≡ true)
    → y.id ≡ x.id
    → (q : ℕ) → IsPeer sent phase x q
    → IsPeer sent' (λ z. if nat_eq c z then ph else phase z) y q
moved-IsPeer sent sent' phase c ph x y others own joined_still i q h =
    elim (Bool-cases (nat_eq c q)) [
      | inl z ↦
          let same : c ≡ q = (nat_eq_iff c q).0 z in
          rw (z, i)
            (
              subst (λ r. sent' r ≡ some x.id) same (own x.id (rw same h.0) (rw same h.1)),
              joined_still (rw same h.1),
            )
      | inr n ↦ rw (n, i) (others q (λ z. ground (arith, n, z, nat_eq_iff c q)) ∙ h.0, h.1)
    ]

-- A step of a connection that joins no session.
pub moved :
    (sent sent' : Sent) (st : State) (c : ℕ) (ph : Phase) (srv : Server) (conns : Conns)
    → Keeps st.server srv
    → ((q : ℕ) → c ≢ q → sent' q ≡ sent q)
    → ((id : List ℕ) → sent c ≡ some id → has_joined (st.phase c) ≡ true → sent' c ≡ some id)
    → (has_joined (st.phase c) ≡ true → has_joined ph ≡ true)
    → ((s : ℕ) (id : List ℕ)
        → held_by ph ≡ some (id, s)
        → (sent' c ≡ some id) × (s < srv.next) × ((srv.cells s).id ≡ id))
    → IsMatched sent st
    → IsMatched sent' (at_phase c ph (record st { server = srv; conns = conns }))
moved sent sent' st c ph srv conns k others own joined_still holds w = record {
  named = k.named w.named;
  held = λ q s id e. elim (Bool-cases (nat_eq c q)) [
    | inl y ↦ rw (← (nat_eq_iff c q).0 y) (holds s id (rw y at e))
    | inr n ↦
        let g = w.held q s id (rw n at e) in
        (
          others q (λ z. ground (arith, n, z, nat_eq_iff c q)) ∙ g.0,
          omega (arith, g.1, k.more),
          k.ids s g.1 ∙ g.2,
        )
  ];
  peers = λ s l. elim (old_or_new s st.server.next) [
    | inl o ↦ rw (k.peers s o) (
        All-weaken (IsPeer sent st.phase (st.server.cells s)) _
          (moved-IsPeer sent sent' st.phase c ph (st.server.cells s) (srv.cells s) others own
            joined_still (k.ids s o))
          (st.server.cells s).peers (w.peers s o))
    | inr o ↦ rw (k.fresh s o l) tt
  ];
  distinct = λ s l. elim (old_or_new s st.server.next) [
    | inl o ↦ rw (k.peers s o) (w.distinct s o)
    | inr o ↦ rw (k.fresh s o l) tt
  ];
  relays =
      All-weaken _ _ (λ e h. (omega (arith, h.0, k.more), k.ids e.1 h.0 ∙ h.1)) st.relays w.relays;
}

Distinct-append :
    (cs : List ℕ) (c : ℕ) → All (λ d. d ≢ c) cs → Distinct cs → Distinct (cs ++ (c ∷ []))
Distinct-append [] c n w = (tt, tt)
Distinct-append (d ∷ cs) c n w =
    (All-append (λ e. d ≢ e) cs (c ∷ []) w.0 (n.0, tt), Distinct-append cs c n.1 w.1)

pub add_peer-ok :
    (c : ℕ) (x y : Session) → add_peer c x ≡ ok y → (y.id ≡ x.id) × (y.peers ≡ x.peers ++ (c ∷ []))
unfolding add_peer
add_peer-ok c x y e = ground (arith, e)

-- A connection joins the session that it has found.
pub joins-IsMatched :
    (sent : Sent) (st : State) (c : ℕ) (id : List ℕ) (s : ℕ) (x : Session)
    → st.phase c ≡ found id s
    → x.id ≡ (st.server.cells s).id
    → x.peers ≡ (st.server.cells s).peers ++ (c ∷ [])
    → IsMatched sent st
    → IsMatched sent (at_phase c (joined id s) (record st { server = store_session s x st.server }))
unfolding IsNamed held_by has_joined
joins-IsMatched sent st c id s x p i ps w =
    let mine = w.held c s id (rw p refl) in
    let ids : (t : ℕ) → (if nat_eq s t then x else st.server.cells t).id ≡ (st.server.cells t).id =
      λ t. ground (arith, i, nat_eq_iff s t) in
    let moves : (y z : Session)
        → z.id ≡ y.id
        → (q : ℕ) → IsPeer sent st.phase y q
        → IsPeer sent (λ r. if nat_eq c r then joined id s else st.phase r) z q =
      λ y z e q h.
        moved-IsPeer sent sent st.phase c (joined id s) y z (λ r n. refl) (λ j a b. a) (λ b. refl) e
          q h in
    record {
      named = λ j t e. ((w.named j t e).0, ids t ∙ (w.named j t e).1);
      held =
          λ q t j e. ground (arith, e, nat_eq_iff c q, mine.0, mine.1, mine.2, ids t, w.held q t j);
      peers = λ t l. elim (Bool-cases (nat_eq s t)) [
        | inl z ↦
            rw (z, ps)
              (All-append _ (st.server.cells s).peers (c ∷ [])
                (All-weaken _ _ (moves (st.server.cells s) x i) (st.server.cells s).peers
                  (w.peers s mine.1))
                ((mine.0 ∙ ap some (sym (i ∙ mine.2)), ground (arith, nat_eq_iff c c)), tt))
        | inr n ↦ rw n (
            All-weaken _ _ (moves (st.server.cells t) (st.server.cells t) refl)
              (st.server.cells t).peers (w.peers t l))
      ];
      distinct = λ t l. elim (Bool-cases (nat_eq s t)) [
        | inl z ↦
            rw (z, ps)
              (Distinct-append (st.server.cells s).peers c
                (All-weaken _ _ (λ q g same. ground (arith, ap st.phase same, p, g.1))
                  (st.server.cells s).peers (w.peers s mine.1))
                (w.distinct s mine.1))
        | inr n ↦ rw n (w.distinct t l)
      ];
      relays = All-weaken _ _ (λ e h. (h.0, ids e.1 ∙ h.1)) st.relays w.relays;
    }

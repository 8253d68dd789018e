-- ===== src/Signal/Server/Invariant.antt =====
-- server.go: what is true of sessions and channels after any history.
use cloudbridge.Common.{
  ℕ, ◌≡◌, ◌≢◌, refl, sym, ◌∙◌, Bool, true, false, List, String, string_eq, nat_eq_iff, some, ok,
  arith, Option-cases, inl, inr,
}
use cloudbridge.Common.Map.{lookup}
use cloudbridge.Signal.Client.{Client, Heap, Message, store, close_send}
use cloudbridge.Signal.Hub.{Hub, unregister_client}
use cloudbridge.Signal.Sessions.{Session, remove_client_sessions}
use cloudbridge.Signal.Sessions.Index.{IsIndexed, involves}
use cloudbridge.Signal.Sessions.Removal.{
  remaining, removed_parties, remove_client_sessions-involves, remove_client_sessions-IsIndexed,
}
use cloudbridge.Signal.Handler.{World}
use cloudbridge.Signal.Server.{
  Phase, not_connected, reading, sessions_removed, unregistered, panicked, ServerState, set_phase,
  new_server, connected,
}

-- Whether the channel of a client is open.
abbrev pub has_channel : Phase → Bool
has_channel not_connected = false
has_channel reading = true
has_channel sessions_removed = true
has_channel unregistered = false
has_channel panicked = true

-- Whether the sessions of a client have not been removed: it is read from, or its reader has panicked.
abbrev pub has_sessions : Phase → Bool
has_sessions not_connected = false
has_sessions reading = true
has_sessions sessions_removed = false
has_sessions unregistered = false
has_sessions panicked = true

-- The session maps agree; a client of a session that can be found is still read from, or its
-- reader has panicked; a client has an open channel until it is unregistered.
pub record IsServed (phase : ℕ → Phase) (w : World) : Type 0 where
  pub indexed : IsIndexed w.heap w.manager
  pub initiator_there :
      (id : String) (s : ℕ)
      → lookup id w.manager.sessions ≡ some s
      → has_sessions (phase (w.manager.cells s).initiator) ≡ true
  pub responder_there :
      (id : String) (s r : ℕ)
      → lookup id w.manager.sessions ≡ some s
      → (w.manager.cells s).responder ≡ some r
      → has_sessions (phase r) ≡ true
  pub open_channel : (p : ℕ) → has_channel (phase p) ≡ true → (w.heap p).closed ≡ false

pub new_server-IsServed :
    (h : Heap) (cells : ℕ → Session)
    → IsServed (new_server h cells).phase (new_server h cells).world
unfolding lookup
new_server-IsServed h cells = record {
  indexed = record { filed = λ id s e. cc; allocated = λ id s e. cc; listed = λ id s c e f. cc };
  initiator_there = λ id s e. cc;
  responder_there = λ id s r e f. cc;
  open_channel = λ p e. cc;
}

involves_same :
    (h h' : Heap) (c : String) (x : Session)
    → (h' x.initiator).id ≡ (h x.initiator).id
    → ((r : ℕ) → x.responder ≡ some r → (h' r).id ≡ (h r).id)
    → involves h' c x ≡ involves h c x
involves_same h h' c x i r = elim (Option-cases x.responder) [
  | inl e ↦ rw (i, e) refl
  | inr (q, e) ↦ rw (i, e, r q e) refl
]

-- A change of the clients under which those that are read from keep their IDs, and channels stay
-- open as they must.
pub changed_clients :
    (phase phase' : ℕ → Phase) (w : World) (h : Heap) (u : Hub)
    → ((q : ℕ) → has_sessions (phase q) ≡ true → has_sessions (phase' q) ≡ true)
    → ((q : ℕ) → has_sessions (phase q) ≡ true → (h q).id ≡ (w.heap q).id)
    → ((q : ℕ) → has_channel (phase' q) ≡ true → (h q).closed ≡ false)
    → IsServed phase w
    → IsServed phase' (record w { heap = h; hub = u })
changed_clients phase phase' w h u stay same open' g = record {
  indexed = record {
    filed = g.indexed.filed;
    allocated = g.indexed.allocated;
    listed = λ id s c e f. g.indexed.listed id s c e (
        sym (
          involves_same w.heap h c (w.manager.cells s)
            (same (w.manager.cells s).initiator (g.initiator_there id s e))
            (λ r x. same r (g.responder_there id s r e x)))
        ∙ f);
  };
  initiator_there = λ id s e. stay (w.manager.cells s).initiator (g.initiator_there id s e);
  responder_there = λ id s r e x. stay r (g.responder_there id s r e x);
  open_channel = open';
}

pub connects-IsServed :
    (s : ServerState) (p : ℕ) (c : Client)
    → s.phase p ≡ not_connected
    → c.closed ≡ false
    → IsServed s.phase s.world
    → IsServed (connected p c s).phase (connected p c s).world
connects-IsServed s p c n o g =
    changed_clients s.phase (set_phase p reading s.phase) s.world _ _
      (λ q f. ground (arith, n, f, nat_eq_iff p q)) (λ q f. ground (arith, n, f, nat_eq_iff p q))
      (λ q f. ground (arith, o, f, g.open_channel q, nat_eq_iff p q)) g

-- A client whose reader has panicked keeps its sessions and its channel.
pub panics-IsServed :
    (s : ServerState) (p : ℕ) (w : World)
    → s.phase p ≡ reading
    → IsServed s.phase w
    → IsServed (set_phase p panicked s.phase) w
panics-IsServed s p w r g =
    changed_clients s.phase (set_phase p panicked s.phase) w w.heap w.hub
      (λ q f. ground (arith, f, nat_eq_iff p q)) (λ q f. refl)
      (λ q f. ground (arith, r, f, g.open_channel q, nat_eq_iff p q)) g

pub takes-IsServed :
    (s : ServerState) (p : ℕ) (rest : List Message)
    → IsServed s.phase s.world
    → IsServed s.phase
        (record s.world { heap = store p (record (s.world.heap p) { send = rest }) s.world.heap })
takes-IsServed s p rest g =
    changed_clients s.phase s.phase s.world _ s.world.hub (λ q f. f)
      (λ q f. ground (arith, nat_eq_iff p q))
      (λ q f. ground (arith, g.open_channel q f, nat_eq_iff p q)) g

pub unregisters-IsServed :
    (s : ServerState) (p : ℕ) (h : Heap) (u : Hub)
    → s.phase p ≡ sessions_removed
    → unregister_client p s.world.heap s.world.hub ≡ ok (h, u)
    → IsServed s.phase s.world
    → IsServed (set_phase p unregistered s.phase) (record s.world { heap = h; hub = u })
unfolding unregister_client close_send
unregisters-IsServed s p h u n e g =
    changed_clients s.phase (set_phase p unregistered s.phase) s.world h u
      (λ q f. ground (arith, n, f, nat_eq_iff p q)) (λ q f. ground (arith, e, nat_eq_iff p q))
      (λ q f. ground (arith, e, f, g.open_channel q, nat_eq_iff p q)) g

uninvolved :
    (h : Heap) (c : String) (x : Session)
    → involves h c x ≡ false
    → ((h x.initiator).id ≢ c) × ((r : ℕ) → x.responder ≡ some r → (h r).id ≢ c)
uninvolved h c x f = (
  λ e. ground (arith, f, string_eq.beq_iff (h x.initiator).id c, e),
  λ r e i. ground (arith, f, e, string_eq.beq_iff (h r).id c, i),
)

pub removes-IsServed :
    (s : ServerState) (p : ℕ)
    → s.phase p ≡ reading
    → IsServed s.phase s.world
    → IsServed
        (set_phase p sessions_removed s.phase)
        (record s.world { manager = remove_client_sessions (s.world.heap p).id s.world.manager })
removes-IsServed s p r g =
    let h = s.world.heap in
    let sm = s.world.manager in
    let gone = (h p).id in
    record {
      indexed = remove_client_sessions-IsIndexed h sm g.indexed gone;
      initiator_there = λ id t e.
          let (out, _) =
            uninvolved h gone ((remove_client_sessions gone sm).cells t)
              (remove_client_sessions-involves h sm g.indexed gone id t e) in
          let (before, _) = remaining h sm g.indexed gone id t e in
          let (i, _) = removed_parties h sm g.indexed gone t in
          ground
            (arith, out, i, g.initiator_there id t before, nat_eq_iff p (sm.cells t).initiator);
      responder_there = λ id t q e f.
          let (_, out) =
            uninvolved h gone ((remove_client_sessions gone sm).cells t)
              (remove_client_sessions-involves h sm g.indexed gone id t e) in
          let (before, _) = remaining h sm g.indexed gone id t e in
          let (_, i) = removed_parties h sm g.indexed gone t in
          ground (arith, out q f, g.responder_there id t q before (sym i ∙ f), nat_eq_iff p q);
      open_channel = λ q f. ground (arith, r, f, g.open_channel q, nat_eq_iff p q);
    }

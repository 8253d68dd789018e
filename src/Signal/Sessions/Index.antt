-- ===== src/Signal/Sessions/Index.antt =====
-- session.go: the two maps of the manager, and the sessions of a client that leaves.
use cloudbridge.Protocol.Json.{Strings}
use cloudbridge.Common.{
  ℕ, ◌<◌, ◌≡◌, refl, Bool, true, false, List, [], ◌∷◌, ◌++◌, String, ◌==◌, string_eq, nat_eq,
  nat_eq_iff, ◌||◌, if◌then◌else◌, some, arith, Option-cases, inl, inr,
}
use cloudbridge.Common.Map.{lookup, delete, lookup-insert, lookup-delete}
use cloudbridge.Signal.Client.{Heap}
use cloudbridge.Signal.Sessions.{
  Session, SessionManager, SessionStatus, accepted, closed, store_session, or_empty,
  client_sessions, append_session, create_session, accept_session, set_status, is_responder,
  remove_each,
}

abbrev pub has : ℕ → List ℕ → Bool
has s [] = false
has s (t ∷ ts) = nat_eq t s || has s ts

has-append : (s : ℕ) (xs ys : List ℕ) → has s (xs ++ ys) ≡ (has s xs || has s ys)
has-append s [] ys = refl
has-append s (x ∷ xs) ys = ground (arith, has-append s xs ys)

-- The client with this ID is one of the session's two.
abbrev pub involves : Heap → String → Session → Bool
involves h id x = (h x.initiator).id == id || is_responder x.responder id h

-- A session is filed under its ID, at a pointer that has been given out, and it is in the list of
-- each client that it involves.
pub record IsIndexed (h : Heap) (sm : SessionManager) : Type 0 where
  pub filed : (id : String) (s : ℕ) → lookup id sm.sessions ≡ some s → (sm.cells s).id ≡ id
  pub allocated : (id : String) (s : ℕ) → lookup id sm.sessions ≡ some s → s < sm.next
  pub listed :
      (id : String) (s : ℕ) (c : String)
      → lookup id sm.sessions ≡ some s
      → involves h c (sm.cells s) ≡ true
      → has s (client_sessions c sm) ≡ true

append_session-listed :
    (c d : String) (s t : ℕ) (sm : SessionManager)
    → has t (or_empty (lookup d (append_session c s sm))) ≡ (
        if c == d then has t (client_sessions d sm) || nat_eq s t else has t (client_sessions d sm))
append_session-listed c d s t sm = ground (
  arith,
  lookup-insert c d (client_sessions c sm ++ (s ∷ [])) sm.by_client,
  string_eq.beq_iff c d,
  has-append t (client_sessions c sm) (s ∷ []),
)

module _ (h : Heap) (sm : SessionManager) (w : IsIndexed h sm) where
  -- Creating a session keeps the session maps in agreement.
  pub create_session-IsIndexed :
      (id : String) (initiator : ℕ) (device : String) (protocols : Strings) (now : ℕ)
      → IsIndexed h (create_session id initiator device protocols now h sm).1
  create_session-IsIndexed id initiator device protocols now = record {
    filed = λ k s e.
        unfold create_session in
        ground (
          arith,
          e,
          lookup-insert id k sm.next sm.sessions,
          string_eq.beq_iff id k,
          nat_eq_iff sm.next s,
          w.filed k s,
          w.allocated k s,
        );
    allocated = λ k s e.
        unfold create_session in
        ground (arith, e, lookup-insert id k sm.next sm.sessions, w.allocated k s);
    listed = λ k s c e f.
        unfold create_session in
        ground (
          arith,
          e,
          f,
          lookup-insert id k sm.next sm.sessions,
          nat_eq_iff sm.next s,
          w.allocated k s,
          w.listed k s c,
          append_session-listed (h initiator).id c sm.next s sm,
        );
  }

  accept_lem :
      (id : String) (responder s : ℕ)
      → lookup id sm.sessions ≡ some s
      → IsIndexed h (record sm {
        cells =
            store_session s
              (record (sm.cells s) { responder = some responder; status = accepted })
              sm.cells;
        by_client = append_session (h responder).id s sm;
      })
  accept_lem id responder s e = record {
    filed = λ k t f. ground (arith, f, nat_eq_iff s t, w.filed k t);
    allocated = w.allocated;
    listed = λ k t c f g. ground (
      arith,
      f,
      g,
      nat_eq_iff s t,
      w.listed k t c f,
      append_session-listed (h responder).id c s t sm,
    );
  }

  -- Accepting a session keeps the session maps in agreement.
  pub accept_session-IsIndexed :
      (id : String) (responder : ℕ) → IsIndexed h (accept_session id responder h sm).1
  unfolding accept_session
  accept_session-IsIndexed id responder = elim (Option-cases (lookup id sm.sessions)) [
    | inl e ↦ rw (e, accept_session) w
    | inr (s, e) ↦ rw (e, accept_session) (accept_lem id responder s e)
  ]

  status_lem :
      (st : SessionStatus) (s : ℕ)
      → IsIndexed h
          (record sm { cells = store_session s (record (sm.cells s) { status = st }) sm.cells })
  status_lem st s = record {
    filed = λ k t f. ground (arith, f, nat_eq_iff s t, w.filed k t);
    allocated = w.allocated;
    listed = λ k t c f g. ground (arith, f, g, nat_eq_iff s t, w.listed k t c f);
  }

  -- Rejecting, activating or closing a session keeps the session maps in agreement.
  pub set_status-IsIndexed :
      (st : SessionStatus) (id : String) → IsIndexed h (set_status st id sm).1
  unfolding set_status
  set_status-IsIndexed st id = elim (Option-cases (lookup id sm.sessions)) [
    | inl e ↦ rw (e, set_status) w
    | inr (s, e) ↦ rw (e, set_status) (status_lem st s)
  ]

-- What the loop of `RemoveClientSessions` leaves alone: everything but the sessions map and the
-- status of the sessions in the list.
pub remove_each-keeps :
    (ss : List ℕ) (sm : SessionManager) (t : ℕ)
    → let sm' = remove_each ss sm in
      ((sm'.cells t).id ≡ (sm.cells t).id)
      × ((sm'.cells t).initiator ≡ (sm.cells t).initiator)
      × ((sm'.cells t).responder ≡ (sm.cells t).responder)
      × (sm'.next ≡ sm.next)
      × (sm'.by_client ≡ sm.by_client)
unfolding remove_each
remove_each-keeps [] sm t = (refl, refl, refl, refl, refl)
remove_each-keeps (s ∷ ss) sm t = ground (
  arith,
  nat_eq_iff s t,
  remove_each-keeps ss
      (record sm {
        cells = store_session s (record (sm.cells s) { status = closed }) sm.cells;
        sessions = delete (sm.cells s).id sm.sessions;
      })
      t,
)

-- A session that is still filed was filed before, and is not one of the list.
pub remove_each-sessions :
    (ss : List ℕ) (sm : SessionManager) (id : String) (t : ℕ)
    → lookup id (remove_each ss sm).sessions ≡ some t
    → (sm.cells t).id ≡ id
    → (lookup id sm.sessions ≡ some t) × (has t ss ≡ false)
unfolding remove_each
remove_each-sessions [] sm id t e f = (e, refl)
remove_each-sessions (s ∷ ss) sm id t e f = ground (
  arith,
  e,
  f,
  nat_eq_iff s t,
  string_eq.beq_iff (sm.cells s).id id,
  lookup-delete (sm.cells s).id id sm.sessions,
  remove_each-sessions ss
      (record sm {
        cells = store_session s (record (sm.cells s) { status = closed }) sm.cells;
        sessions = delete (sm.cells s).id sm.sessions;
      })
      id t,
)

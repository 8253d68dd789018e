-- ===== src/Agent/Sessions/Removal.antt =====
-- tunnel.go: the removal of sessions.
use cloudbridge.Common.{
  ℕ, ◌<◌, ◌≡◌, ◌≢◌, refl, true, false, String, string_eq, nat_eq_iff, Option, none, some, ok, arith,
  Option-cases, inl, inr, List, [], ◌∷◌,
}
use cloudbridge.Common.Map.{lookup, delete, lookup-insert, lookup-delete}
use cloudbridge.Tunnel.{Tunnel, new_tunnel, open_tunnel, close_tunnel}
use cloudbridge.Tunnel.Interface.{Transport}
use cloudbridge.Agent.Sessions.{
  Session, SessionManager, new_session_manager, store_session, create_session, close,
  remove_session, Operation, creates, removes, run_operations,
}

-- A session that can be found is filed under its ID, at a pointer that has been given out, and
-- neither it nor its tunnel has been closed.
pub record IsOpen {T : Type 0} (sm : SessionManager T) : Type 0 where
  pub filed : (id : String) (s : ℕ) → lookup id sm.sessions ≡ some s → (sm.cells s).id ≡ id
  pub allocated : (id : String) (s : ℕ) → lookup id sm.sessions ≡ some s → s < sm.next
  pub live :
      (id : String) (s : ℕ)
      → lookup id sm.sessions ≡ some s
      → ((sm.cells s).done ≡ false) × ((sm.cells s).tunnel.closed ≡ false)

pub new_session_manager-IsOpen :
    {T : Type 0} (cells : ℕ → Session T) → IsOpen (new_session_manager cells)
unfolding lookup
new_session_manager-IsOpen cells = record {
  filed = λ id s e. cc;
  allocated = λ id s e. cc;
  live = λ id s e. cc;
}

module _ {T E : Type 0} (net : Transport T E) where
  open_tunnel-closed : (tun : Tunnel T) → (open_tunnel net tun).1.closed ≡ tun.closed
  unfolding open_tunnel
  open_tunnel-closed tun = refl

  -- A creation, whether it succeeds or not, leaves every session that can be found open.
  pub create_session-IsOpen :
      (id : String) (t : T) (sm : SessionManager T)
      → IsOpen sm
      → IsOpen (create_session net id t sm).1
  unfolding create_session
  create_session-IsOpen id t sm w = elim (Option-cases (open_tunnel net (new_tunnel t)).0) [
    | inr (x, e) ↦ rw (e, create_session) w
    | inl e ↦ record {
      filed = λ k s f. ground (
        arith,
        e,
        f,
        lookup-insert id k sm.next sm.sessions,
        string_eq.beq_iff id k,
        nat_eq_iff sm.next s,
        w.filed k s,
        w.allocated k s,
      );
      allocated =
          λ k s f. ground (arith, e, f, lookup-insert id k sm.next sm.sessions, w.allocated k s);
      live = λ k s f. ground (
        arith,
        e,
        f,
        lookup-insert id k sm.next sm.sessions,
        nat_eq_iff sm.next s,
        w.allocated k s,
        w.live k s,
        open_tunnel-closed (new_tunnel t),
      );
    }
  ]

  close-live :
      (x : Session T)
      → x.done ≡ false
      → x.tunnel.closed ≡ false
      → (e : Option E) × (y : Session T) × (close net x ≡ ok (e, y))
        × (y.done ≡ true)
        × (y.tunnel.closed ≡ true)
        × (y.id ≡ x.id)
  unfolding close close_tunnel
  close-live x d c =
      let (e, t) = net.close_transport x.tunnel.transport in
      (
        e,
        record x {
          tunnel = record { transport = t; closed = true };
          shell = elim x.shell [ none ↦ none | some b ↦ some true ];
          done = true;
        },
        rw (d, c) refl,
        refl,
        refl,
        refl,
      )

  -- Where sessions that can be found are open: the removal of one succeeds, closes it and its tunnel,
  -- takes it out of the map and leaves the other entries, and the sessions found after it are open.
  pub remove_session-closes :
      (id : String) (s : ℕ) (sm : SessionManager T)
      → IsOpen sm
      → lookup id sm.sessions ≡ some s
      → (sm' : SessionManager T) × (remove_session net id sm ≡ ok sm')
        × ((sm'.cells s).done ≡ true)
        × ((sm'.cells s).tunnel.closed ≡ true)
        × (lookup id sm'.sessions ≡ none)
        × ((k : String) → k ≢ id → lookup k sm'.sessions ≡ lookup k sm.sessions)
        × IsOpen sm'
  unfolding remove_session
  remove_session-closes id s sm w f =
      let (e, y, c, done', shut, same) =
        close-live (sm.cells s) (w.live id s f).0 (w.live id s f).1 in
      let sm' : SessionManager T = record sm {
        cells = store_session s y sm.cells;
        sessions = delete id sm.sessions;
      } in
      (
        sm',
        rw (f, remove_session) (rw c refl),
        ground (arith, done'),
        ground (arith, shut),
        ground (arith, lookup-delete id id sm.sessions, string_eq.beq_iff id id),
        λ k n. ground (arith, n, lookup-delete id k sm.sessions, string_eq.beq_iff id k),
        record {
          filed = λ k t g.
              ground (arith, g, same, lookup-delete id k sm.sessions, nat_eq_iff s t, w.filed k t);
          allocated = λ k t g. ground (arith, g, lookup-delete id k sm.sessions, w.allocated k t);
          live = λ k t g. ground (
            arith,
            g,
            f,
            lookup-delete id k sm.sessions,
            string_eq.beq_iff id k,
            nat_eq_iff s t,
            w.filed k t,
            w.filed id s f,
            w.live k t,
          );
        },
      )

  remove_session-IsOpen :
      (id : String) (sm : SessionManager T)
      → IsOpen sm
      → (sm' : SessionManager T) × (remove_session net id sm ≡ ok sm') × IsOpen sm'
  unfolding remove_session
  remove_session-IsOpen id sm w = elim (Option-cases (lookup id sm.sessions)) [
    | inl n ↦ (sm, rw (n, remove_session) refl, w)
    | inr (s, f) ↦ let (sm', e, _, _, _, _, w') = remove_session-closes id s sm w f in (sm', e, w')
  ]

  run-IsOpen :
      (os : List (Operation net)) (sm : SessionManager T)
      → IsOpen sm
      → (sm' : SessionManager T) × (run_operations net os sm ≡ ok sm') × IsOpen sm'
  unfolding run_operations
  run-IsOpen [] sm w = (sm, refl, w)
  run-IsOpen (creates id t ∷ os) sm w =
      run-IsOpen os (create_session net id t sm).1 (create_session-IsOpen id t sm w)
  run-IsOpen (removes id ∷ os) sm w =
      let (sm1, e, w1) = remove_session-IsOpen id sm w in
      let (sm', f, w') = run-IsOpen os sm1 w1 in (sm', rw e f, w')

  -- From a new manager on, any sequence of creations and removals runs without a panic, whatever the
  -- transports do, and the sessions that can be found then are open.
  pub run_operations-IsOpen :
      (os : List (Operation net)) (cells : ℕ → Session T)
      → (sm : SessionManager T) × (run_operations net os (new_session_manager cells) ≡ ok sm)
        × IsOpen sm
  run_operations-IsOpen os cells =
      run-IsOpen os (new_session_manager cells) (new_session_manager-IsOpen cells)

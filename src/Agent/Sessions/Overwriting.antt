-- ===== src/Agent/Sessions/Overwriting.antt =====
-- tunnel.go: what a second session under one ID leaves behind, and a second close.
use cloudbridge.Common.{
  ℕ, ◌≡◌, ◌≢◌, true, false, String, string_eq, nat_eq_iff, Option, some, ok, err, arith,
  Option-cases, inl, inr,
}
use cloudbridge.Common.Map.{lookup, lookup-insert}
use cloudbridge.Signal.Client.{close_of_closed_channel}
use cloudbridge.Tunnel.{new_tunnel, open_tunnel, close_tunnel}
use cloudbridge.Tunnel.Interface.{Transport}
use cloudbridge.Agent.Sessions.{
  Session, SessionManager, store_session, create_session, close, remove_session,
}
use cloudbridge.Agent.Sessions.Removal.{IsOpen}

module _ {T E : Type 0} (net : Transport T E) where
  -- Where a session is open under an ID and another is created under it, the first is found under no
  -- ID any more, so it cannot be removed, and it and its tunnel are still open.
  pub create_session-overwritten :
      (id : String) (s n : ℕ) (t : T) (sm sm' : SessionManager T)
      → IsOpen sm
      → lookup id sm.sessions ≡ some s
      → create_session net id t sm ≡ (ok n, sm')
      → ((k : String) → lookup k sm'.sessions ≢ some s)
        × ((sm'.cells s).done ≡ false)
        × ((sm'.cells s).tunnel.closed ≡ false)
  unfolding create_session
  create_session-overwritten id s n t sm sm' w f c =
      elim (Option-cases (open_tunnel net (new_tunnel t)).0) [
        | inr (x, e) ↦ absurd (ground (arith, c, e))
        | inl e ↦ (
          λ k g. ground (
            arith,
            c,
            e,
            g,
            lookup-insert id k sm.next sm.sessions,
            string_eq.beq_iff id k,
            w.allocated id s f,
            w.filed id s f,
            w.filed k s,
          ),
          ground (arith, c, e, nat_eq_iff sm.next s, w.allocated id s f, w.live id s f),
          ground (arith, c, e, nat_eq_iff sm.next s, w.allocated id s f, w.live id s f),
        )
      ]

  close-done : (x y : Session T) (e : Option E) → close net x ≡ ok (e, y) → y.done ≡ true
  unfolding close close_tunnel
  close-done x y e c = ground (arith, c)

  -- A session that was closed by its own method is still in the manager, and its removal panics.
  pub remove_session-closed :
      (id : String) (s : ℕ) (e : Option E) (y : Session T) (sm : SessionManager T)
      → lookup id sm.sessions ≡ some s
      → close net (sm.cells s) ≡ ok (e, y)
      → remove_session net id (record sm { cells = store_session s y sm.cells })
        ≡ err close_of_closed_channel
  unfolding remove_session close
  remove_session-closed id s e y sm f c =
      ground (arith, f, close-done (sm.cells s) y e c, nat_eq_iff s s)

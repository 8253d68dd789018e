-- ===== src/Signal/Sessions/Removal.antt =====
-- session.go: `RemoveClientSessions`, which the server calls when a client has disconnected.
use cloudbridge.Common.{
  ℕ, ◌≡◌, sym, ◌∙◌, true, false, List, [], ◌∷◌, String, string_eq, some, arith,
}
use cloudbridge.Common.Map.{lookup, delete, lookup-delete}
use cloudbridge.Signal.Client.{Heap}
use cloudbridge.Signal.Sessions.{
  SessionManager, closed, store_session, client_sessions, remove_each, remove_client_sessions,
}
use cloudbridge.Signal.Sessions.Index.{
  has, involves, IsIndexed, remove_each-keeps, remove_each-sessions,
}

remove_each-subset :
    (ss : List ℕ) (sm : SessionManager) (id : String) (t : ℕ)
    → lookup id (remove_each ss sm).sessions ≡ some t
    → lookup id sm.sessions ≡ some t
unfolding remove_each
remove_each-subset [] sm id t e = e
remove_each-subset (s ∷ ss) sm id t e = ground (
  arith,
  e,
  lookup-delete (sm.cells s).id id sm.sessions,
  remove_each-subset ss
      (record sm {
        cells = store_session s (record (sm.cells s) { status = closed }) sm.cells;
        sessions = delete (sm.cells s).id sm.sessions;
      })
      id t,
)

module _ (h : Heap) (sm : SessionManager) (w : IsIndexed h sm) (gone : String) where
  pub remaining :
      (id : String) (t : ℕ)
      → lookup id (remove_client_sessions gone sm).sessions ≡ some t
      → (lookup id sm.sessions ≡ some t) × (has t (client_sessions gone sm) ≡ false)
  unfolding remove_client_sessions
  remaining id t e =
      let before = remove_each-subset (client_sessions gone sm) sm id t e in
      remove_each-sessions (client_sessions gone sm) sm id t e (w.filed id t before)

  pub removed_cell :
      (t : ℕ) (c : String)
      → involves h c ((remove_client_sessions gone sm).cells t) ≡ involves h c (sm.cells t)
  unfolding remove_client_sessions
  removed_cell t c = ground (arith, remove_each-keeps (client_sessions gone sm) sm t)

  pub removed_parties :
      (t : ℕ)
      → (((remove_client_sessions gone sm).cells t).initiator ≡ (sm.cells t).initiator)
        × (((remove_client_sessions gone sm).cells t).responder ≡ (sm.cells t).responder)
  unfolding remove_client_sessions
  removed_parties t = ground (arith, remove_each-keeps (client_sessions gone sm) sm t)

  -- Once a client's sessions are removed from maps that agree, no session that can be found has it on either side.
  pub remove_client_sessions-involves :
      (id : String) (t : ℕ)
      → lookup id (remove_client_sessions gone sm).sessions ≡ some t
      → involves h gone ((remove_client_sessions gone sm).cells t) ≡ false
  remove_client_sessions-involves id t e =
      let (before, out) = remaining id t e in
      ground (arith, out, removed_cell t gone, w.listed id t gone before)

  -- The removal of a client's sessions keeps the session maps in agreement.
  pub remove_client_sessions-IsIndexed : IsIndexed h (remove_client_sessions gone sm)
  remove_client_sessions-IsIndexed = record {
    filed = λ id t e.
        let (before, _) = remaining id t e in
        unfold remove_client_sessions in
        ground (arith, remove_each-keeps (client_sessions gone sm) sm t, w.filed id t before);
    allocated = λ id t e.
        let (before, _) = remaining id t e in
        unfold remove_client_sessions in
        ground (arith, remove_each-keeps (client_sessions gone sm) sm t, w.allocated id t before);
    listed = λ id t c e f.
        let (before, out) = remaining id t e in
        let involved : involves h c (sm.cells t) ≡ true = sym (removed_cell t c) ∙ f in
        unfold remove_client_sessions in
        ground (
          arith,
          out,
          remove_each-keeps (client_sessions gone sm) sm t,
          w.listed id t c before involved,
          lookup-delete gone c sm.by_client,
          string_eq.beq_iff gone c,
        );
  }

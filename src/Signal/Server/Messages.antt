-- ===== src/Signal/Server/Messages.antt =====
-- server.go with handler.go: a message that is handled keeps the invariant.
use cloudbridge.Protocol.Json.{Strings}
use cloudbridge.Common.{
  ℕ, ◌≡◌, ◌∙◌, Bool, true, String, string_eq, nat_eq_iff, ok, arith, Option-cases, inl, inr,
  Bool-cases,
}
use cloudbridge.Common.Map.{lookup, lookup-insert}
use cloudbridge.Signal.Client.{Heap, Message, try_send}
use cloudbridge.Protocol.Messages.{RegisterPayload}
use cloudbridge.Signal.Hub.Invariant.{register_device_same}
use cloudbridge.Signal.Hub.{DeviceInfo}
use cloudbridge.Signal.Sessions.{SessionStatus, create_session, accept_session, set_status}
use cloudbridge.Signal.Sessions.Index.{
  create_session-IsIndexed, accept_session-IsIndexed, set_status-IsIndexed,
}
use cloudbridge.Signal.Handler.{World, note_device}
use cloudbridge.Signal.Handler.Rule.{IsKept}
use cloudbridge.Signal.Server.Invariant.{IsServed, has_sessions, changed_clients}
use cloudbridge.Signal.Server.{Phase}

module _ (phase : ℕ → Phase) (p : ℕ) (r : has_sessions (phase p) ≡ true) where
  sends_kept :
      (q : ℕ) (msg : Message) (w : World) (sent : Bool) (h : Heap)
      → try_send q msg w.heap ≡ ok (sent, h)
      → IsServed phase w
      → IsServed phase (record w { heap = h })
  unfolding try_send
  sends_kept q msg w sent h e g =
      changed_clients phase phase w h w.hub (λ x f. f) (λ x f. ground (arith, e, nat_eq_iff q x))
        (λ x f. ground (arith, e, g.open_channel x f, nat_eq_iff q x)) g

  registers_kept :
      (reg : RegisterPayload) (now later : ℕ) (w : World)
      → IsServed phase w
      → IsServed phase (note_device p reg now later w)
  unfolding note_device
  registers_kept reg now later w g = elim (Bool-cases (w.heap p).is_agent) [
    | inr n ↦ rw (n, note_device) g
    | inl y ↦
        let info : DeviceInfo = record {
          id = reg.device_id;
          name = reg.device_name;
          platform = reg.platform;
          version = reg.version;
          public_key = reg.public_key;
          registered = 0;
          last_seen = 0;
        } in
        let same = register_device_same p info now later w.heap w.hub in
        rw (y, note_device)
          (changed_clients phase phase w _ _ (λ x f. f) (λ x f. (same x).0)
            (λ x f. (same x).1 ∙ g.open_channel x f) g)
  ]

  creates_kept :
      (id device : String) (protocols : Strings) (now : ℕ) (w : World)
      → IsServed phase w
      → IsServed phase
          (record w { manager = (create_session id p device protocols now w.heap w.manager).1 })
  creates_kept id device protocols now w g = record {
    indexed = create_session-IsIndexed w.heap w.manager g.indexed id p device protocols now;
    initiator_there = λ k s e.
        unfold create_session in
        ground (
          arith,
          e,
          r,
          lookup-insert id k w.manager.next w.manager.sessions,
          nat_eq_iff w.manager.next s,
          g.indexed.allocated k s,
          g.initiator_there k s,
        );
    responder_there = λ k s q e f.
        unfold create_session in
        ground (
          arith,
          e,
          f,
          lookup-insert id k w.manager.next w.manager.sessions,
          nat_eq_iff w.manager.next s,
          g.indexed.allocated k s,
          g.responder_there k s q,
        );
    open_channel = g.open_channel;
  }

  accepts_kept :
      (id : String) (w : World)
      → IsServed phase w
      → IsServed phase (record w { manager = (accept_session id p w.heap w.manager).1 })
  unfolding accept_session
  accepts_kept id w g = elim (Option-cases (lookup id w.manager.sessions)) [
    | inl n ↦ rw (n, accept_session) g
    | inr (t, n) ↦ record {
      indexed = accept_session-IsIndexed w.heap w.manager g.indexed id p;
      initiator_there = λ k s e.
          unfold accept_session in ground (arith, n, e, nat_eq_iff t s, g.initiator_there k s);
      responder_there = λ k s q e f.
          unfold accept_session in
          ground (arith, n, e, f, r, nat_eq_iff t s, g.responder_there k s q);
      open_channel = g.open_channel;
    }
  ]

  sets_kept :
      (st : SessionStatus) (id : String) (w : World)
      → IsServed phase w
      → IsServed phase (record w { manager = (set_status st id w.manager).1 })
  unfolding set_status
  sets_kept st id w g = elim (Option-cases (lookup id w.manager.sessions)) [
    | inl n ↦ rw (n, set_status) g
    | inr (t, n) ↦ record {
      indexed = set_status-IsIndexed w.heap w.manager g.indexed st id;
      initiator_there =
          λ k s e. unfold set_status in ground (arith, n, e, nat_eq_iff t s, g.initiator_there k s);
      responder_there = λ k s q e f.
          unfold set_status in ground (arith, n, e, f, nat_eq_iff t s, g.responder_there k s q);
      open_channel = g.open_channel;
    }
  ]

  pub messages_kept : IsKept p (IsServed phase)
  messages_kept = record {
    sends = sends_kept;
    registers = registers_kept;
    beats = λ d now w g. record {
      indexed = g.indexed;
      initiator_there = g.initiator_there;
      responder_there = g.responder_there;
      open_channel = g.open_channel;
    };
    creates = creates_kept;
    accepts = accepts_kept;
    sets = sets_kept;
  }

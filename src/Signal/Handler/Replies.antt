-- ===== src/Signal/Handler/Replies.antt =====
-- handler.go: what the messages of an app cannot change.
use cloudbridge.Common.{ℕ, ◌≡◌, String, refl, ◌∙◌, subst, false, Option, arith, ok, nat_eq_iff}
use cloudbridge.Common.Map.{Map}
use cloudbridge.Protocol.Json.{Json}
use cloudbridge.Signal.Client.{try_send}
use cloudbridge.Signal.Hub.{Hub, update_heartbeat}
use cloudbridge.Signal.Handler.{World, note_device, handle_message}
use cloudbridge.Signal.Handler.Rule.{IsKept, Handled}
use cloudbridge.Signal.Handler.Rule.Messages.{handle_message-Handled}

update_heartbeat-by_device :
    (d : String) (now : ℕ) (u : Hub) → (update_heartbeat d now u).by_device ≡ u.by_device
unfolding update_heartbeat
update_heartbeat-by_device d now u = ground arith

-- The routes of the devices, and that the client is no agent.
abbrev HasRoutes : ℕ → Map String ℕ → World → Type 0
HasRoutes p m w = (w.hub.by_device ≡ m) × ((w.heap p).is_agent ≡ false)

HasRoutes-IsKept : (p : ℕ) (m : Map String ℕ) → IsKept p (HasRoutes p m)
HasRoutes-IsKept p m = record {
  sends = λ q msg w sent h e g. unfold try_send in ground (arith, e, g, nat_eq_iff q p);
  registers = λ reg now later w g. unfold note_device in rw g.1 g;
  beats = λ d now w g. (update_heartbeat-by_device d now w.hub ∙ g.0, g.1);
  creates = λ id device protocols now w g. g;
  accepts = λ id w g. g;
  sets = λ st id w g. g;
}

-- Whatever a client that is no agent sends, the devices' routes are as before when it is handled.
pub handle_message-by_device :
    (p : ℕ) (raw : Option Json) (now later : ℕ) (w w' : World)
    → (w.heap p).is_agent ≡ false
    → handle_message p raw now later w ≡ ok w'
    → w'.hub.by_device ≡ w.hub.by_device
handle_message-by_device p raw now later w w' n e =
    let P : World → Type 0 = HasRoutes p w.hub.by_device in
    (subst (Handled P) e
      (handle_message-Handled p P (HasRoutes-IsKept p w.hub.by_device) raw now later w (refl, n))).0

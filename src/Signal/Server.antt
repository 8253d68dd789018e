-- ===== src/Signal/Server.antt =====
-- internal/signal/server.go: connections over time. The read loops of the clients run side by side;
-- what a loop does for one message, and each of the two calls after the loop, is one step.
pub mod Invariant
pub mod Messages
pub mod Safety
pub mod Race
pub mod Pump
pub mod Routes
mod Tests
use cloudbridge.Common.{
  ℕ, ◌≡◌, Bool, true, false, List, [], ◌∷◌, String, nat_eq, if◌then◌else◌, Option, Result, ok, err,
}
use cloudbridge.Protocol.Json.{Json}
use cloudbridge.Signal.Client.{Client, Heap, Message, Panic, store}
use cloudbridge.Signal.Hub.{Hub, new_hub, register_client, unregister_client}
use cloudbridge.Signal.Sessions.{
  Session, SessionManager, new_session_manager, remove_client_sessions,
}
use cloudbridge.Signal.Handler.{World, handle_message}
use cloudbridge.Signal.Handler.Rule.{Moves}
use Prim.Native.String.{◌++◌ as concat}

-- Where `handleWebSocket` stands for a client; `net/http` recovers a panic, and then `handleWebSocket`
-- has ended without its clean-up.
pub data Phase : Type 0 where
  not_connected reading sessions_removed unregistered panicked : Phase

pub record ServerState : Type 0 where
  pub world : World
  pub phase : ℕ → Phase

abbrev pub set_phase : ℕ → Phase → (ℕ → Phase) → ℕ → Phase
set_phase p f phase q = if nat_eq p q then f else phase q

-- `now` is the time to the second, as a text.
abbrev pub generate_client_id : String → String
generate_client_id now = concat "cl-" now

abbrev pub new_client : String → Bool → Client
new_client now is_agent = record {
  id = generate_client_id now;
  is_agent = is_agent;
  device_id = "";
  send = [];
  closed = false;
}

-- A server before its first client; `cells` is the store of sessions that are not made yet.
abbrev pub new_server : Heap → (ℕ → Session) → ServerState
new_server h cells = record {
  world = record { heap = h; hub = new_hub; manager = new_session_manager cells };
  phase = λ p. not_connected;
}

abbrev pub connected : ℕ → Client → ServerState → ServerState
connected p c s =
    let h = store p c s.world.heap in
    record {
      world = record s.world { heap = h; hub = register_client p h s.world.hub };
      phase = set_phase p reading s.phase;
    }

-- `RemoveClientSessions`, after the read loop.
abbrev pub cleaned : ℕ → ServerState → ServerState
cleaned p s = record {
  world = record s.world { manager = remove_client_sessions (s.world.heap p).id s.world.manager };
  phase = set_phase p sessions_removed s.phase;
}

-- A panic leaves what the handler has done so far, of which the relation says that it is made of the
-- handlers' moves. The writer goroutine takes messages off a channel.
pub data Step (s : ServerState) : ServerState → Type 0 where
  connects :
      (p : ℕ) (now : String) (is_agent : Bool)
      → s.phase p ≡ not_connected
      → Step s (connected p (new_client now is_agent) s)
  handles :
      (p : ℕ) (raw : Option Json) (now later : ℕ) (w : World)
      → s.phase p ≡ reading
      → handle_message p raw now later s.world ≡ ok w
      → Step s (record s { world = w })
  panics :
      (p : ℕ) (raw : Option Json) (now later : ℕ) (x : Panic) (w : World)
      → s.phase p ≡ reading
      → handle_message p raw now later s.world ≡ err x
      → Moves p s.world w
      → Step s (record { world = w; phase = set_phase p panicked s.phase })
  takes :
      (p : ℕ) (msg : Message) (rest : List Message)
      → (s.world.heap p).send ≡ msg ∷ rest
      → Step s (record s {
        world = record s.world {
          heap = store p (record (s.world.heap p) { send = rest }) s.world.heap;
        };
      })
  removes : (p : ℕ) → s.phase p ≡ reading → Step s (cleaned p s)
  unregisters :
      (p : ℕ) (h : Heap) (u : Hub)
      → s.phase p ≡ sessions_removed
      → unregister_client p s.world.heap s.world.hub ≡ ok (h, u)
      → Step s (record {
        world = record s.world { heap = h; hub = u };
        phase = set_phase p unregistered s.phase;
      })

pub data Reach (s : ServerState) : ServerState → Type 0 where
  here : Reach s s
  next : {t u : ServerState} → Reach s t → Step t u → Reach s u

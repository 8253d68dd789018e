-- ===== src/Agent/Register/Tests.antt =====
-- register.go at concrete inputs, and the theorems at inputs that meet their hypotheses.
use cloudbridge.Common.{
  ℕ, ◌≡◌, refl, true, false, [], ◌∷◌, string_eq, ne_of_beq, nat_eq, if◌then◌else◌, none, some, ok,
  arith,
}
use cloudbridge.Common.Map.{lookup}
use cloudbridge.Protocol.Json.{pos, Json}
use cloudbridge.Protocol.Messages.{
  ConnectRequestPayload, decode_type, unmarshal_envelope, decode, unmarshal_register_ack, encode,
  marshal_register_ack, marshal_register, msg_type_register_ack,
}
use cloudbridge.Signal.Client.{Client, Heap}
use cloudbridge.Signal.Hub.{new_hub}
use cloudbridge.Signal.Sessions.{Session, closed, accepted}
use cloudbridge.Signal.Handler.{World, handle_message}
use cloudbridge.Signal.Handler.Connect.{queued}
use cloudbridge.Agent.Register.{
  default_config, Agent, Attempt, Link, message, tick, new_agent, connect, register, read_messages,
  handle_incoming, handle_register_ack, new_link, write_message,
}
use cloudbridge.Agent.Register.Reconnect.{Round, running, run, run-backoffs}
use cloudbridge.Agent.Register.Answers.{request_message, request-accepted}

abbrev box : Agent
box = record { config = default_config; device_id = "dev-1"; token = "" }

abbrev token_message : Json
token_message =
    encode msg_type_register_ack
      (marshal_register_ack (record { token = "token-1"; expires_at = pos 0 }))

-- A connection that registers, gets its token and is lost.
abbrev registers : Attempt
registers = record {
  dials = true;
  accepts = λ n. true;
  events = message (some token_message) ∷ tick 7 ∷ [];
  cancelled = false;
}

abbrev unreachable : Attempt
unreachable = record registers { dials = false }

named : new_agent (record default_config { device_name = "" }) (some "dev-1") ≡ some box
unfolding new_agent
named = refl

token_kept : (connect registers box).1.token ≡ "token-1"
unfolding connect register read_messages handle_incoming handle_register_ack write_message encode
    decode decode_type unmarshal_envelope unmarshal_register_ack marshal_register_ack
    marshal_register
token_kept = refl

abbrev up : Round
up = record { context_done = false; closed = false; attempt = registers }

abbrev down : Round
down = record up { attempt = unreachable }

-- The agent is closed, and its next connections still hold for a while.
abbrev after_close : Round
after_close = record up { closed = true }

abbrev stopped : Round
stopped = record up { context_done = true }

run-backoffs_example :
    ((run none (up ∷ down ∷ after_close ∷ []) box).0 ≡ 1_000_000_000 ∷ 2_000_000_000 ∷ [])
    × ((run none (up ∷ down ∷ after_close ∷ []) box).1 ≡ running)
run-backoffs_example = run-backoffs up (down ∷ after_close ∷ []) box refl (refl, (refl, (refl, tt)))

abbrev app : Client
app = record { id = "cl-1"; is_agent = false; device_id = ""; send = []; closed = false }

abbrev agent : Client
agent = record { id = "cl-2"; is_agent = true; device_id = "dev-1"; send = []; closed = false }

-- Pointer 0 is the app, the others are the agent.
abbrev both : Heap
both p = if nat_eq p 0 then app else agent

abbrev blank : Session
blank = record {
  id = "";
  initiator = 0;
  responder = none;
  device_id = "";
  protocols = none;
  created_at = 0;
  status = closed;
}

abbrev world : World
world = record {
  heap = both;
  hub = record new_hub { by_device = ("dev-1", 1) ∷ [] };
  manager = record { cells = λ s. blank; next = 0; sessions = []; by_client = [] };
}

abbrev request : ConnectRequestPayload
request = record { session_id = "s"; device_id = "dev-1"; protocols = some ("shell" ∷ []) }

request-accepted_example :
    (w1 : World) × (w2 : World) × (l' : Link) × (answer : Json) × (handle_message 0
        (some (request_message request))
        5
        6
        world
      ≡ ok w1)
    × (w1.heap ≡ queued 1 (request_message request) both)
    × (handle_incoming (some (request_message request)) box (new_link (λ n. true)) ≡ (box, l'))
    × (l'.written ≡ answer ∷ [])
    × (handle_message 1 (some answer) 5 6 w1 ≡ ok w2)
    × (w2.heap ≡ queued 0 answer w1.heap)
    × ((s : ℕ) × (lookup "s" w2.manager.sessions ≡ some s)
        × ((w2.manager.cells s).status ≡ accepted)
        × ((w2.manager.cells s).responder ≡ some 1))
unfolding lookup
request-accepted_example =
    request-accepted 0 1 request 5 6 world box (new_link (λ n. true)) refl
      (ne_of_beq "cl-1" "cl-2" refl) refl refl (omega arith) (omega arith) refl

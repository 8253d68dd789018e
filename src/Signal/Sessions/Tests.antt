-- ===== src/Signal/Sessions/Tests.antt =====
-- session.go at concrete inputs, and the theorems at inputs that meet their hypotheses.
use cloudbridge.Protocol.Json.{num}
use cloudbridge.Common.{
  ◌≡◌, refl, true, false, [], ◌∷◌, string_eq, ne_of_beq, nat_eq, if◌then◌else◌, none, some, ok,
  arith,
}
use cloudbridge.Common.Map.{lookup, insert, delete}
use cloudbridge.Signal.Client.{Client, Heap, store}
use cloudbridge.Signal.Sessions.{
  Session, SessionManager, closed, create_session, accept_session, remove_each,
  remove_client_sessions, list_sessions, route_to_peer,
}
use cloudbridge.Signal.Sessions.Index.{
  IsIndexed, create_session-IsIndexed, accept_session-IsIndexed,
}
use cloudbridge.Signal.Sessions.Peers.{route_to_peer-accepted}

abbrev app : Client
app = record { id = "cl-1"; is_agent = false; device_id = ""; send = []; closed = false }

abbrev agent : Client
agent = record { id = "cl-2"; is_agent = true; device_id = "dev-1"; send = []; closed = false }

-- Pointer 0 is the app, the others are the agent.
abbrev two : Heap
two p = if nat_eq p 0 then app else agent

abbrev blank : Session
blank = record {
  id = "";
  initiator = 0;
  responder = none;
  device_id = "";
  protocols = none;
  created_at = 0;
  status = closed;
}

abbrev fresh : SessionManager
fresh = record { cells = λ s. blank; next = 0; sessions = []; by_client = [] }

opened : SessionManager
opened = (create_session "s" 0 "dev-1" (some ("ssh" ∷ [])) 5 two fresh).1

talking : SessionManager
talking = (accept_session "s" 1 two opened).1

fresh-IsIndexed : (h : Heap) → IsIndexed h fresh
unfolding lookup
fresh-IsIndexed h = record {
  filed = λ id s e. cc;
  allocated = λ id s e. cc;
  listed = λ id s c e f. cc;
}

opened-IsIndexed : IsIndexed two opened
unfolding opened
opened-IsIndexed =
    create_session-IsIndexed two fresh (fresh-IsIndexed two) "s" 0 "dev-1" (some ("ssh" ∷ [])) 5

talking-IsIndexed : IsIndexed two talking
unfolding talking
talking-IsIndexed = accept_session-IsIndexed two opened opened-IsIndexed "s" 1

-- The app leaves, and the session is gone.
app_leaves : list_sessions (remove_client_sessions "cl-1" talking) ≡ []
unfolding list_sessions remove_client_sessions remove_each talking opened create_session
    accept_session lookup insert delete
app_leaves = refl

-- A session between the client of pointer 1 and itself stays when the app leaves.
two_sessions : SessionManager
two_sessions = (create_session "t" 1 "dev-2" none 6 two talking).1

two_sessions-IsIndexed : IsIndexed two two_sessions
unfolding two_sessions
two_sessions-IsIndexed = create_session-IsIndexed two talking talking-IsIndexed "t" 1 "dev-2" none 6

-- A session between the agent and itself, in which the app has no part.
agents_only : SessionManager
agents_only = (accept_session "s" 1 two (create_session "s" 1 "dev-1" none 5 two fresh).1).1

route_to_peer-accepted_example :
    route_to_peer "s" 1 (num 7) two talking
    ≡ ok (true, store 0 (record app { send = num 7 ∷ [] }) two)
unfolding talking opened
route_to_peer-accepted_example =
    (route_to_peer-accepted two fresh "s" "dev-1" (some ("ssh" ∷ [])) 5 0 1 (num 7)
      (ne_of_beq "cl-1" "cl-2" refl) refl refl (omega arith) (omega arith)).1

-- ===== src/Agent/Sessions/Tests.antt =====
-- The agent's sessions at concrete inputs, and the theorems at inputs that meet their hypotheses.
use cloudbridge.Common.{
  ℕ, ◌<◌, ◌≡◌, refl, true, false, List, [], ◌∷◌, string_eq, nat_eq, if◌then◌else◌, none, some,
  Result, ok, err,
}
use cloudbridge.Common.Map.{lookup, insert}
use cloudbridge.Tunnel.{new_tunnel, open_tunnel, close_tunnel}
use cloudbridge.Tunnel.Interface.{Transport}
use cloudbridge.Agent.Sessions.{
  Session, SessionManager, new_session_manager, create_session, close, creates, removes,
  run_operations, list_sessions,
}
use cloudbridge.Agent.Sessions.Removal.{
  IsOpen, create_session-IsOpen, new_session_manager-IsOpen, run_operations-IsOpen,
}

no_frame :
    (t : ℕ) (bytes : List ℕ) (t' : ℕ)
    → ◌≡◌ {A = Result ℕ (List ℕ × ℕ)} (err 0) (ok (bytes, t'))
    → 0 < 0
no_frame t bytes t' e = cc

-- A transport that opens where its number is not 0, and has no frames.
abbrev plain : Transport ℕ ℕ
plain = record {
  open_transport = λ t. if nat_eq t 0 then (some 7, t) else (none, t);
  close_transport = λ t. (none, t);
  read_frame = λ t. err 0;
  write_frame = λ bytes t. (none, t);
  size = λ t. 0;
  read_less = no_frame;
}

abbrev no_session : ℕ → Session ℕ
no_session s = record { id = ""; tunnel = new_tunnel 0; shell = none; done = false }

abbrev empty_manager : SessionManager ℕ
empty_manager = new_session_manager no_session

abbrev one_session : SessionManager ℕ
one_session = (create_session plain "s" 1 empty_manager).1

failed_open : create_session plain "s" 0 empty_manager ≡ (err 7, empty_manager)
unfolding create_session open_tunnel
failed_open = refl

abbrev opened : Session ℕ
opened = record { id = "s"; tunnel = new_tunnel 1; shell = none; done = false }

listed : list_sessions one_session ≡ opened ∷ []
unfolding create_session open_tunnel insert
listed = refl

one_session-IsOpen : IsOpen one_session
one_session-IsOpen =
    create_session-IsOpen plain "s" 1 empty_manager (new_session_manager-IsOpen no_session)

one_session-found : lookup "s" one_session.sessions ≡ some 0
unfolding create_session open_tunnel insert lookup
one_session-found = refl

run_operations-IsOpen_example :
    (sm : SessionManager ℕ) × (run_operations plain
        (creates "s" 1 ∷ creates "s" 2 ∷ removes "s" ∷ creates "u" 0 ∷ removes "s" ∷ [])
        empty_manager
      ≡ ok sm)
    × IsOpen sm
run_operations-IsOpen_example =
    run_operations-IsOpen plain
      (creates "s" 1 ∷ creates "s" 2 ∷ removes "s" ∷ creates "u" 0 ∷ removes "s" ∷ []) no_session

abbrev second : SessionManager ℕ
second = (create_session plain "s" 2 one_session).1

second_created : create_session plain "s" 2 one_session ≡ (ok 1, second)
unfolding create_session open_tunnel
second_created = refl

abbrev shut : Session ℕ
shut = record opened { tunnel = record { transport = 1; closed = true }; done = true }

shut_is : close plain (one_session.cells 0) ≡ ok (none, shut)
unfolding close close_tunnel create_session open_tunnel
shut_is = refl

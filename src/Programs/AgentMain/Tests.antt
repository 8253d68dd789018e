-- ===== src/Programs/AgentMain/Tests.antt =====
-- The agent program at concrete inputs, and the theorem at an input that meets its hypotheses.
use cloudbridge.Common.{◌≡◌, refl, true, false, [], ◌∷◌, none, some}
use cloudbridge.Agent.Register.{Attempt, new_agent}
use cloudbridge.Agent.Register.Reconnect.{Round}
use cloudbridge.Programs.AgentMain.{default_flags, exited, runs, agent_main, agent_main-signalled}

abbrev unreachable : Attempt
unreachable = record { dials = false; accepts = λ n. true; events = []; cancelled = false }

abbrev down : Round
down = record { context_done = false; closed = false; attempt = unreachable }

abbrev signal : Round
signal = record down { context_done = true }

prints_version : agent_main (record default_flags { version = true }) none [] ≡ exited 0
unfolding agent_main new_agent
prints_version = refl

no_random_bytes : agent_main default_flags none (down ∷ []) ≡ exited 1
unfolding agent_main new_agent
no_random_bytes = refl

agent_main-signalled_example :
    (agent_main default_flags (some "dev-1") (down ∷ down ∷ []) ≡ runs)
    × (agent_main default_flags (some "dev-1") (down ∷ down ∷ signal ∷ down ∷ []) ≡ exited 1)
agent_main-signalled_example =
    agent_main-signalled default_flags "dev-1" (down ∷ down ∷ []) signal (down ∷ []) refl
      ((refl, refl), ((refl, refl), tt)) refl

-- ===== src/Programs/AgentMain.antt =====
-- cmd/agent/main.go: the agent program. The flags are an argument, and so is what the network does;
-- a signal is seen at the round at which the context is done. A round begins when the connection before
-- it has ended: a read of a connection does not watch the context, so that a signal on an idle
-- connection is not seen, and the program still runs.
mod Tests
use cloudbridge.Common.{
  ℕ, ◌≡◌, ◌⊎◌, inl, inr, refl, Bool, true, false, List, [], ◌∷◌, ◌++◌, String, Option, none, some,
  All, All-weaken, if◌then◌else◌, arith, Option-cases, Bool-cases,
}
use cloudbridge.Agent.Register.{Config, Agent, default_config, new_agent, connect, or_default}
use cloudbridge.Agent.Register.Reconnect.{
  Round, Outcome, context_error, returned_nil, running, run, run-context_done, next_delay,
  reconnect_base_delay,
}

pub record Flags : Type 0 where
  pub server_url : String
  pub device_name : String
  pub version : Bool

-- The flags without arguments.
abbrev pub default_flags : Flags
default_flags = record {
  server_url = default_config.server_url;
  device_name = default_config.device_name;
  version = false;
}

-- The status of the program, or it still runs.
pub data Status : Type 0 where
  exited : ℕ → Status
  runs : Status

-- An error of `Run` is logged.
abbrev pub status_of : Outcome → Status
status_of context_error = exited 1
status_of returned_nil = exited 0
status_of running = runs

abbrev pub config_of : Flags → Config
config_of f = record default_config { server_url = f.server_url; device_name = f.device_name }

-- `main`; `device_id` is the generated ID, or the error of the random bytes.
unfoldable pub agent_main : Flags → Option String → List Round → Status
agent_main f device_id rounds =
    if f.version then exited 0 else elim (new_agent (config_of f) device_id) [
      | none ↦ exited 1
      | some a ↦ status_of (run none rounds a).1
    ]

-- The agent of a program that is started to run.
abbrev started : Flags → String → Agent
started f id = record {
  config = record default_config {
    server_url = or_default default_config.server_url f.server_url;
    device_name = or_default default_config.device_name f.device_name;
  };
  device_id = id;
  token = "";
}

run-signalled :
    (rs : List Round) (r : Round) (ts : List Round) (a : Agent)
    → All (λ (z : Round). (z.closed ≡ false) × (z.context_done ≡ false)) rs
    → r.context_done ≡ true
    → (run none (rs ++ (r ∷ ts)) a).1 ≡ context_error
unfolding run
run-signalled [] r ts a o c = rw c refl
run-signalled (t ∷ rs) r ts a o c =
    (run-context_done t rs r ts a o.0.0 (o.0.1, All-weaken _ _ (λ z k. k.1) rs o.1) c).1

run-runs :
    (phase : Option ℕ) (rs : List Round) (a : Agent)
    → All (λ (z : Round). (z.closed ≡ false) × (z.context_done ≡ false)) rs
    → (run phase rs a).1 ≡ running
unfolding run
run-runs phase [] a o = refl
run-runs none (r ∷ rs) a o =
    rw (o.0.0, o.0.1, run) (run-runs (some reconnect_base_delay) rs (connect r.attempt a).1 o.1)
run-runs (some d) (r ∷ rs) a o = elim (Option-cases (connect r.attempt a).0) [
  | inl n ↦ rw (o.0.1, n, run) (run-runs none rs (connect r.attempt a).1 o.1)
  | inr (x, n) ↦ rw (o.0.1, n, run) (run-runs (some (next_delay d)) rs (connect r.attempt a).1 o.1)
]

-- The program is started to run, and the generation of its ID gives no error. Nothing in it calls
-- `Close`. However the connections go, it runs as long as no round finds the context done, and so
-- until a connection that was there at a signal has ended. The first round that finds the context
-- done ends it with status 1.
pub agent_main-signalled :
    (f : Flags) (id : String) (rs : List Round) (r : Round) (ts : List Round)
    → f.version ≡ false
    → All (λ (z : Round). (z.closed ≡ false) × (z.context_done ≡ false)) rs
    → r.context_done ≡ true
    → (agent_main f (some id) rs ≡ runs) × (agent_main f (some id) (rs ++ (r ∷ ts)) ≡ exited 1)
unfolding agent_main new_agent
agent_main-signalled f id rs r ts v o c = (
  rw (v, run-runs none rs (started f id) o) refl,
  rw (v, run-signalled rs r ts (started f id) o c) refl,
)

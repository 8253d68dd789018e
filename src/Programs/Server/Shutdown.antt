-- ===== src/Programs/Server/Shutdown.antt =====
-- cmd/server/main.go: in which order the servers stop.
use cloudbridge.Common.{◌≡◌, ◌⊎◌, refl, Bool, true, false, arith}
use cloudbridge.Programs.Server.{
  Main, starting_stun, starting_relay, stopped, returned, Closer, waiting, cancelled, stun_closed,
  relay_closed, shutting_down, finished, panicked, State, initial, Step, starts_stun, fails_stun,
  starts_relay, fails_relay, makes_server, listens, fails_signal, stops, returns, signalled,
  closes_stun, closes_relay, shuts_down, drains, Reach, here, next,
}

-- How far the goroutine is.
abbrev pub has_closed_stun : Closer → Bool
has_closed_stun waiting = false
has_closed_stun cancelled = false
has_closed_stun stun_closed = true
has_closed_stun relay_closed = true
has_closed_stun shutting_down = true
has_closed_stun finished = true
has_closed_stun panicked = true

abbrev pub has_closed_relay : Closer → Bool
has_closed_relay waiting = false
has_closed_relay cancelled = false
has_closed_relay stun_closed = false
has_closed_relay relay_closed = true
has_closed_relay shutting_down = true
has_closed_relay finished = true
has_closed_relay panicked = true

abbrev pub IsShut : Closer → Type 0
IsShut c = (c ≡ shutting_down) ⊎ (c ≡ finished)

-- Whether the signal server has ended, and whether the goroutine is not there yet.
abbrev is_past : Main → Bool
is_past stopped = true
is_past returned = true
is_past m = false

abbrev is_early : Main → Bool
is_early starting_stun = true
is_early starting_relay = true
is_early m = false

record IsOrderly (s : State) : Type 0 where
  stun : has_closed_stun s.closer ≡ true → s.stun_open ≡ false
  relay : has_closed_relay s.closer ≡ true → s.relay_open ≡ false
  past : is_past s.main ≡ true → s.failed ≡ false → IsShut s.closer
  early : is_early s.main ≡ true → s.closer ≡ waiting

initial-IsOrderly : IsOrderly initial
initial-IsOrderly = record {
  stun = λ e. refl;
  relay = λ e. refl;
  past = λ e f. ground (arith, e);
  early = λ e. refl;
}

Step-IsOrderly : (s s' : State) → Step s s' → IsOrderly s → IsOrderly s'
Step-IsOrderly s _ (starts_stun e) w = record {
  stun = λ a. ground (arith, a, w.stun, w.early, e);
  relay = λ a. ground (arith, a, w.relay, w.early, e);
  past = λ a f. ground (arith, a, f, w.past, w.early, e);
  early = λ a. ground (arith, a, w.early, e);
}
Step-IsOrderly s _ (fails_stun e) w = record {
  stun = λ a. ground (arith, a, w.stun, w.early, e);
  relay = λ a. ground (arith, a, w.relay, w.early, e);
  past = λ a f. ground (arith, a, f, w.past, w.early, e);
  early = λ a. ground (arith, a, w.early, e);
}
Step-IsOrderly s _ (starts_relay e) w = record {
  stun = λ a. ground (arith, a, w.stun, w.early, e);
  relay = λ a. ground (arith, a, w.relay, w.early, e);
  past = λ a f. ground (arith, a, f, w.past, w.early, e);
  early = λ a. ground (arith, a, w.early, e);
}
Step-IsOrderly s _ (fails_relay e) w = record {
  stun = λ a. ground (arith, a, w.stun, w.early, e);
  relay = λ a. ground (arith, a, w.relay, w.early, e);
  past = λ a f. ground (arith, a, f, w.past, w.early, e);
  early = λ a. ground (arith, a, w.early, e);
}
Step-IsOrderly s _ (makes_server e) w = record {
  stun = λ a. ground (arith, a, w.stun, w.early, e);
  relay = λ a. ground (arith, a, w.relay, w.early, e);
  past = λ a f. ground (arith, a, f, w.past, w.early, e);
  early = λ a. ground (arith, a, w.early, e);
}
Step-IsOrderly s _ (listens e) w = record {
  stun = λ a. ground (arith, a, w.stun, w.early, e);
  relay = λ a. ground (arith, a, w.relay, w.early, e);
  past = λ a f. ground (arith, a, f, w.past, w.early, e);
  early = λ a. ground (arith, a, w.early, e);
}
Step-IsOrderly s _ (fails_signal e) w = record {
  stun = λ a. ground (arith, a, w.stun, w.early, e);
  relay = λ a. ground (arith, a, w.relay, w.early, e);
  past = λ a f. ground (arith, a, f, w.past, w.early, e);
  early = λ a. ground (arith, a, w.early, e);
}
Step-IsOrderly s _ (stops e c) w = record {
  stun = λ a. ground (arith, a, w.stun, w.early, e, c);
  relay = λ a. ground (arith, a, w.relay, w.early, e, c);
  past = λ a f. ground (arith, a, f, w.past, w.early, e, c);
  early = λ a. ground (arith, a, w.early, e, c);
}
Step-IsOrderly s _ (returns e n) w = record {
  stun = λ a. ground (arith, a, w.stun, w.early, e, n);
  relay = λ a. ground (arith, a, w.relay, w.early, e, n);
  past = λ a f. ground (arith, a, f, w.past, w.early, e, n);
  early = λ a. ground (arith, a, w.early, e, n);
}
Step-IsOrderly s _ (signalled h e) w = record {
  stun = λ a. ground (arith, a, w.stun, w.early, h, e);
  relay = λ a. ground (arith, a, w.relay, w.early, h, e);
  past = λ a f. ground (arith, a, f, w.past, w.early, h, e);
  early = λ a. ground (arith, a, w.early, h, e);
}
Step-IsOrderly s _ (closes_stun h e) w = record {
  stun = λ a. ground (arith, a, w.stun, w.early, h, e);
  relay = λ a. ground (arith, a, w.relay, w.early, h, e);
  past = λ a f. ground (arith, a, f, w.past, w.early, h, e);
  early = λ a. ground (arith, a, w.early, h, e);
}
Step-IsOrderly s _ (closes_relay h e) w = record {
  stun = λ a. ground (arith, a, w.stun, w.early, h, e);
  relay = λ a. ground (arith, a, w.relay, w.early, h, e);
  past = λ a f. ground (arith, a, f, w.past, w.early, h, e);
  early = λ a. ground (arith, a, w.early, h, e);
}
Step-IsOrderly s _ (shuts_down h e) w = record {
  stun = λ a. ground (arith, a, w.stun, w.early, h, e);
  relay = λ a. ground (arith, a, w.relay, w.early, h, e);
  past = λ a f. ground (arith, a, f, w.past, w.early, h, e);
  early = λ a. ground (arith, a, w.early, h, e);
}
Step-IsOrderly s _ (drains h e) w = record {
  stun = λ a. ground (arith, a, w.stun, w.early, h, e);
  relay = λ a. ground (arith, a, w.relay, w.early, h, e);
  past = λ a f. ground (arith, a, f, w.past, w.early, h, e);
  early = λ a. ground (arith, a, w.early, h, e);
}

reached : (s : State) → Reach initial s → IsOrderly s
reached _ here = initial-IsOrderly
reached _ (next {t} {u} r p) = Step-IsOrderly t u p (reached t r)

-- In every order of `main` and of the goroutine that waits for a signal: where the server program
-- has returned, and the signal server has not failed by itself, the STUN server and the relay have
-- been closed, and `Shutdown` of the signal server has been called.
pub Reach-IsShut :
    (s : State)
    → Reach initial s
    → s.main ≡ returned
    → s.failed ≡ false
    → (s.stun_open ≡ false) × (s.relay_open ≡ false) × IsShut s.closer
Reach-IsShut s r e f =
    let w = reached s r in
    let c = w.past (ground (arith, e)) f in
    (w.stun (ground (arith, c)), w.relay (ground (arith, c)), c)

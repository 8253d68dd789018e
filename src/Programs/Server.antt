-- ===== src/Programs/Server.antt =====
-- cmd/server/main.go with the parts of stun/server.go, relay/server.go and signal/server.go that
-- start and stop: `main` and the goroutine that waits for a signal, side by side.
pub mod Shutdown
mod Tests
use cloudbridge.Common.{ℕ, ◌≡◌, ◌≢◌, ◌⊎◌, Bool, true, false}

-- Where `main` stands: before the start of the STUN server, before that of the relay, before
-- `Start` has made its `http.Server`, before that listens, while it serves, when it has ended with
-- an error, and at the end.
pub data Main : Type 0 where
  starting_stun starting_relay starting_signal binding serving stopped returned : Main
  exited : ℕ → Main

-- Where the goroutine stands: before a signal, after `cancel()`, after each of its three calls, and
-- after a panic in the last one.
pub data Closer : Type 0 where
  waiting cancelled stun_closed relay_closed shutting_down finished panicked : Closer

-- Which servers run; `failed` says that the signal server ended by itself.
pub record State : Type 0 where
  pub main : Main
  pub closer : Closer
  pub stun_open : Bool
  pub relay_open : Bool
  pub failed : Bool

abbrev pub initial : State
initial = record {
  main = starting_stun;
  closer = waiting;
  stun_open = false;
  relay_open = false;
  failed = false;
}

-- The goroutine is started behind the relay, and ends with the program.
abbrev pub HasCloser : Main → Type 0
HasCloser m = (m ≡ starting_signal) ⊎ ((m ≡ binding) ⊎ ((m ≡ serving) ⊎ (m ≡ stopped)))

-- `Shutdown` on a server that `Start` has not made yet is a call on nil.
abbrev pub shut : Main → Closer
shut starting_signal = panicked
shut binding = shutting_down
shut serving = shutting_down
shut stopped = shutting_down
shut starting_stun = panicked
shut starting_relay = panicked
shut returned = shutting_down
shut (exited n) = shutting_down

pub data Step (s : State) : State → Type 0 where
  starts_stun :
      s.main ≡ starting_stun → Step s (record s { main = starting_relay; stun_open = true })
  fails_stun : s.main ≡ starting_stun → Step s (record s { main = exited 1 })
  starts_relay :
      s.main ≡ starting_relay → Step s (record s { main = starting_signal; relay_open = true })
  fails_relay : s.main ≡ starting_relay → Step s (record s { main = exited 1 })
  makes_server : s.main ≡ starting_signal → Step s (record s { main = binding })
  listens : s.main ≡ binding → Step s (record s { main = serving })
  -- The address cannot be listened on, or an accept fails for good.
  fails_signal :
      (s.main ≡ binding) ⊎ (s.main ≡ serving) → Step s (record s { main = stopped; failed = true })
  -- `ListenAndServe` returns as soon as `Shutdown` is called.
  stops :
      (s.main ≡ binding) ⊎ (s.main ≡ serving)
      → (s.closer ≡ shutting_down) ⊎ (s.closer ≡ finished)
      → Step s (record s { main = stopped })
  -- `<-ctx.Done()`
  returns : s.main ≡ stopped → s.closer ≢ waiting → Step s (record s { main = returned })
  signalled : HasCloser s.main → s.closer ≡ waiting → Step s (record s { closer = cancelled })
  closes_stun :
      HasCloser s.main
      → s.closer ≡ cancelled
      → Step s (record s { closer = stun_closed; stun_open = false })
  closes_relay :
      HasCloser s.main
      → s.closer ≡ stun_closed
      → Step s (record s { closer = relay_closed; relay_open = false })
  shuts_down :
      HasCloser s.main → s.closer ≡ relay_closed → Step s (record s { closer = shut s.main })
  -- The last connection has ended.
  drains : HasCloser s.main → s.closer ≡ shutting_down → Step s (record s { closer = finished })

pub data Reach (s : State) : State → Type 0 where
  here : Reach s s
  next : {t u : State} → Reach s t → Step t u → Reach s u

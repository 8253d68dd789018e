-- ===== src/Agent/Register/Reconnect.antt =====
-- register.go: `Run`, which connects again and again.
use cloudbridge.Common.{
  ℕ, zero, suc, ◌*◌, ◌^◌, ◌≤◌, ◌<◌, ◌≡◌, refl, ap, Bool, true, false, List, [], ◌∷◌, ◌++◌, ltb,
  if◌then◌else◌, Option, none, some, arith, length, All, min, Bool-cases, inl, inr,
}
use cloudbridge.Agent.Register.{
  Agent, Attempt, Event, Link, ConnectError, connect, read_messages, register, message, tick,
  dial_failed, register_failed, ending_of, new_link,
}
use native.Mathlib.Nat.{pow-suc}

-- Durations in nanoseconds.
abbrev pub reconnect_base_delay : ℕ
reconnect_base_delay = 1_000_000_000

abbrev pub reconnect_max_delay : ℕ
reconnect_max_delay = 30_000_000_000

-- `delay *= 2; if delay > ReconnectMaxDelay { delay = ReconnectMaxDelay }`
unfoldable pub next_delay : ℕ → ℕ
next_delay d = if ltb reconnect_max_delay (d * 2) then reconnect_max_delay else d * 2

-- A turn of a loop of `Run`: whether the context is done and whether the agent has been closed when
-- the loop looks, and what the network does with the connection that it tries then.
pub record Round : Type 0 where
  pub context_done : Bool
  pub closed : Bool
  pub attempt : Attempt

-- How `Run` stands after the rounds: its result, or it still runs.
pub data Outcome : Type 0 where
  context_error returned_nil running : Outcome

-- `none` is the outer loop, `some d` the wait of the inner loop for the delay `d`. The delays that
-- were waited for are collected.
unfoldable pub run : Option ℕ → List Round → Agent → List ℕ × Outcome × Agent
unfolding next_delay
run phase [] a = ([], running, a)
run none (r ∷ rs) a =
    let rest = run (some reconnect_base_delay) rs (connect r.attempt a).1 in
    if r.context_done
    then ([], context_error, a)
    else if r.closed
    then ([], returned_nil, a)
    else rest
run (some d) (r ∷ rs) a =
    let (e, a', l) = connect r.attempt a in
    let broken = run none rs a' in
    let again = run (some (next_delay d)) rs a' in
    if r.context_done then ([], context_error, a) else elim e [
      | none ↦ (d ∷ broken.0, broken.1, broken.2)
      | some x ↦ (d ∷ again.0, again.1, again.2)
    ]

read_messages-error :
    (es : List Event) (x : ConnectError) (beating : Bool) (a : Agent) (l : Link)
    → (read_messages es x beating a l).0 ≡ some x
unfolding read_messages
read_messages-error [] x beating a l = refl
read_messages-error (message raw ∷ es) x beating a l = read_messages-error es x beating _ _
read_messages-error (tick now ∷ es) x beating a l = read_messages-error es x _ a _

-- `connect` returns when its connection has failed or ended, and always with an error.
pub connect-error : (at : Attempt) (a : Agent) → (x : ConnectError) × ((connect at a).0 ≡ some x)
unfolding connect
connect-error at a = elim (Bool-cases at.dials) [
  | inl d ↦ elim (Bool-cases (register a (new_link at.accepts)).0) [
    | inl s ↦ (
      ending_of at.cancelled,
      rw (d, s) (read_messages-error at.events (ending_of at.cancelled) true a _),
    )
    | inr s ↦ (register_failed, rw (d, s) refl)
  ]
  | inr d ↦ (dial_failed, rw d refl)
]

-- The wait before a reconnection, by the number of those before it.
abbrev pub backoff : ℕ → ℕ
backoff k = min (reconnect_base_delay * 2 ^ k) reconnect_max_delay

-- The first `n` waits from number `k` on.
abbrev pub backoffs : ℕ → ℕ → List ℕ
backoffs k zero = []
backoffs k (suc n) = backoff k ∷ backoffs (suc k) n

next_delay-backoff : (k : ℕ) → next_delay (backoff k) ≡ backoff (suc k)
unfolding next_delay
next_delay-backoff k = ground (arith, pow-suc 2 k)

-- The loop of reconnections with no cancelled context: whatever the connections do, and whether the
-- agent is closed or not.
waits_from :
    (k : ℕ) (rs : List Round) (a : Agent)
    → All (λ r. r.context_done ≡ false) rs
    → ((run (some (backoff k)) rs a).0 ≡ backoffs k (length rs))
      × ((run (some (backoff k)) rs a).1 ≡ running)
unfolding run
waits_from k [] a h = (refl, refl)
waits_from k (r ∷ rs) a h =
    let (x, e) = connect-error r.attempt a in
    let (d, o) = waits_from (suc k) rs (connect r.attempt a).1 h.1 in
    rw (h.0, e, next_delay-backoff k) (ap (λ (t : List ℕ). backoff k ∷ t) d, o)

backoff_bounds : (k : ℕ) → (reconnect_base_delay ≤ backoff k) × (backoff k ≤ reconnect_max_delay)
backoff_bounds k = omega (arith, pow_pos k)
  where
    pow_pos : (k : ℕ) → 0 < 2 ^ k
    pow_pos zero = omega arith
    pow_pos (suc k) = omega (arith, pow_pos k, pow-suc 2 k)

-- The waits of an agent whose context is never done, from its start, are the base delay, doubled
-- each time up to the maximum: no connection, however long it held, sets them back. And the agent
-- never stops, also where it has been closed after its first connection.
pub run-backoffs :
    (r : Round) (rs : List Round) (a : Agent)
    → r.closed ≡ false
    → All (λ t. t.context_done ≡ false) (r ∷ rs)
    → ((run none (r ∷ rs) a).0 ≡ backoffs 0 (length rs)) × ((run none (r ∷ rs) a).1 ≡ running)
unfolding run
run-backoffs r rs a c h = rw (h.0, c) (waits_from 0 rs (connect r.attempt a).1 h.1)

run-some-bounded :
    (d : ℕ) (rs : List Round) (a : Agent)
    → reconnect_base_delay ≤ d
    → d ≤ reconnect_max_delay
    → All (λ t. (reconnect_base_delay ≤ t) × (t ≤ reconnect_max_delay)) (run (some d) rs a).0
unfolding run next_delay
run-some-bounded d [] a lo hi = tt
run-some-bounded d (r ∷ rs) a lo hi =
    let (x, e) = connect-error r.attempt a in
    elim (Bool-cases r.context_done) [
      | inl c ↦ rw c tt
      | inr c ↦
          rw (c, e)
            (
              (lo, hi),
              run-some-bounded (next_delay d) rs (connect r.attempt a).1 (ground arith)
                  (ground arith),
            )
    ]

-- Every wait of every run lies between the base delay and the maximum.
pub run-bounded :
    (rs : List Round) (a : Agent)
    → All (λ t. (reconnect_base_delay ≤ t) × (t ≤ reconnect_max_delay)) (run none rs a).0
unfolding run
run-bounded [] a = tt
run-bounded (r ∷ rs) a = elim (Bool-cases r.context_done) [
  | inl c ↦ rw c tt
  | inr c ↦ elim (Bool-cases r.closed) [
    | inl d ↦ rw (c, d) tt
    | inr d ↦
        rw (c, d)
          (run-some-bounded reconnect_base_delay rs (connect r.attempt a).1 (omega arith)
            (omega arith))
  ]
]

cancelled_from :
    (k : ℕ) (rs : List Round) (r : Round) (ts : List Round) (a : Agent)
    → All (λ t. t.context_done ≡ false) rs
    → r.context_done ≡ true
    → ((run (some (backoff k)) (rs ++ (r ∷ ts)) a).0 ≡ backoffs k (length rs))
      × ((run (some (backoff k)) (rs ++ (r ∷ ts)) a).1 ≡ context_error)
unfolding run
cancelled_from k [] r ts a h c = rw c (refl, refl)
cancelled_from k (t ∷ rs) r ts a h c =
    let (x, e) = connect-error t.attempt a in
    let (d, o) = cancelled_from (suc k) rs r ts (connect t.attempt a).1 h.1 c in
    rw (h.0, e, next_delay-backoff k) (ap (λ (z : List ℕ). backoff k ∷ z) d, o)

-- An agent whose context is done returns the context's error at the next wait.
pub run-context_done :
    (t : Round) (rs : List Round) (r : Round) (ts : List Round) (a : Agent)
    → t.closed ≡ false
    → All (λ z. z.context_done ≡ false) (t ∷ rs)
    → r.context_done ≡ true
    → ((run none (t ∷ (rs ++ (r ∷ ts))) a).0 ≡ backoffs 0 (length rs))
      × ((run none (t ∷ (rs ++ (r ∷ ts))) a).1 ≡ context_error)
unfolding run
run-context_done t rs r ts a n h c =
    rw (h.0, n) (cancelled_from 0 rs r ts (connect t.attempt a).1 h.1 c)

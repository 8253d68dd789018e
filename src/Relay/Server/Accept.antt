-- ===== src/Relay/Server/Accept.antt =====
-- server.go: the accept loop, on what the listener gives.
use cloudbridge.Common.{
  ℕ, ◌≡◌, refl, Bool, true, false, if◌then◌else◌, List, [], ◌∷◌, ◌++◌, All, Option, none, some,
}

-- A turn of the loop: whether the server is closed at its start, the connection that `Accept` gives
-- or its error, and whether the server is closed behind an error.
pub record AcceptTurn : Type 0 where
  pub closed : Bool
  pub accepted : Option ℕ
  pub closed_after : Bool

-- A turn of a server that was open at its start, before the rest of the turns: the connections that
-- are given to `handleConnection`, each in a goroutine, and whether the loop has returned.
abbrev pub accept_turn : Option ℕ → Bool → List ℕ × Bool → List ℕ × Bool
accept_turn (some c) closed rest = (c ∷ rest.0, rest.1)
accept_turn none closed rest = if closed then ([], true) else rest

unfoldable pub accept_loop : List AcceptTurn → List ℕ × Bool
accept_loop [] = ([], false)
accept_loop (t ∷ ts) =
    let rest = accept_loop ts in
    if t.closed then ([], true) else accept_turn t.accepted t.closed_after rest

-- The connections of all turns.
abbrev pub connections : List AcceptTurn → List ℕ
connections [] = []
connections (t ∷ ts) = elim t.accepted [ none ↦ connections ts | some c ↦ c ∷ connections ts ]

accept_turn-open :
    (o : Option ℕ) (rest : List ℕ × Bool) (cs : List ℕ)
    → rest ≡ (cs, true)
    → accept_turn o false rest ≡ (elim o [ none ↦ cs | some c ↦ c ∷ cs ], true)
accept_turn-open none rest cs e = e
accept_turn-open (some c) rest cs e = rw e refl

-- While the server is open, every connection that comes is handled, in order, over all errors; the
-- loop returns at the turn that finds the server closed, and handles no more.
accept_loop-handles :
    (ts : List AcceptTurn) (t : AcceptTurn) (us : List AcceptTurn)
    → All (λ u. (u.closed ≡ false) × (u.closed_after ≡ false)) ts
    → t.closed ≡ true
    → accept_loop (ts ++ (t ∷ us)) ≡ (connections ts, true)
unfolding accept_loop
accept_loop-handles [] t us o c = rw c refl
accept_loop-handles (v ∷ ts) t us o c =
    rw (o.0.0, o.0.1)
      (accept_turn-open v.accepted (accept_loop (ts ++ (t ∷ us))) (connections ts)
        (accept_loop-handles ts t us o.1 c))

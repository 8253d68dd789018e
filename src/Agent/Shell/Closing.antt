-- ===== src/Agent/Shell/Closing.antt =====
-- shell.go: calls that close the session.
use cloudbridge.Common.{
  ℕ, ◌≡◌, refl, true, false, List, [], ◌∷◌, ◌++◌, Option, none, arith, append_assoc,
}
use cloudbridge.Common.Reader.{IoError}
use cloudbridge.Agent.Shell.{
  Effect, set_size, ShellSession, resize, close, tear_down, Call, resizes, closes, run_calls,
}

-- The sizes that calls ask for before the first close.
abbrev pub sizes : List (ℕ × ℕ × Option IoError) → List Effect
sizes [] = []
sizes ((rows, cols, e) ∷ rs) = set_size rows cols ∷ sizes rs

abbrev pub resize_calls : List (ℕ × ℕ × Option IoError) → List Call
resize_calls [] = []
resize_calls ((rows, cols, e) ∷ rs) = resizes rows cols e ∷ resize_calls rs

abbrev pub no_errors : List Call → List (Option IoError)
no_errors [] = []
no_errors (c ∷ cs) = none ∷ no_errors cs

abbrev pub errors_of : List (ℕ × ℕ × Option IoError) → List (Option IoError)
errors_of [] = []
errors_of ((rows, cols, e) ∷ rs) = e ∷ errors_of rs

closed_calls :
    (cs : List Call) (s : ShellSession) → s.closed ≡ true → run_calls cs s ≡ (no_errors cs, s)
unfolding run_calls resize close
closed_calls [] s c = refl
closed_calls (resizes rows cols e ∷ cs) s c = ground (arith, c, closed_calls cs s c)
closed_calls (closes e ∷ cs) s c = ground (arith, c, closed_calls cs s c)

-- On an open session: the sizes that are asked for are set in order, the first close tears the
-- session down, and the calls after it, whatever they are, do nothing and give no error.
pub run_calls-once :
    (rs : List (ℕ × ℕ × Option IoError)) (e : Option IoError) (cs : List Call) (s : ShellSession)
    → s.closed ≡ false
    → run_calls (resize_calls rs ++ (closes e ∷ cs)) s ≡ (
      errors_of rs ++ (e ∷ no_errors cs),
      record s { closed = true; effects = s.effects ++ (sizes rs ++ tear_down s) },
    )
unfolding run_calls resize close
run_calls-once [] e cs s o =
    let t : ShellSession = record s { closed = true; effects = s.effects ++ tear_down s } in
    ground (arith, o, closed_calls cs t refl)
run_calls-once ((rows, cols, x) ∷ rs) e cs s o =
    let t : ShellSession = record s { effects = s.effects ++ (set_size rows cols ∷ []) } in
    ground (
      arith,
      o,
      run_calls-once rs e cs t o,
      append_assoc s.effects (set_size rows cols ∷ []) (sizes rs ++ tear_down s),
    )

-- ===== src/Agent/Shell.antt =====
-- internal/agent/proxy/shell.go: a shell behind a pseudo-terminal. What the session does to the
-- process and the terminal is kept as a list.
pub mod Closing
mod Tests
use cloudbridge.Common.{
  ℕ, Bool, true, false, List, [], ◌∷◌, ◌++◌, String, ◌==◌, string_eq, if◌then◌else◌, Option, none,
  some,
}
use cloudbridge.Common.Reader.{IoError}
use cloudbridge.Agent.Proxy.{Returned, first_error, in_order}

pub data Effect : Type 0 where
  signal_hangup close_terminal wait_process call_back : Effect
  set_size : ℕ → ℕ → Effect

-- `started` says that the command has a process, `has_callback` that `onClose` was set.
pub record ShellSession : Type 0 where
  pub started : Bool
  pub closed : Bool
  pub has_callback : Bool
  pub effects : List Effect

-- `NewShellSession`, with the error of `pty.Start`.
abbrev pub new_shell_session : Option IoError → Option IoError × Option ShellSession
new_shell_session (some e) = (some e, none)
new_shell_session none =
    (none, some (record { started = true; closed = false; has_callback = false; effects = [] }))

abbrev pub on_close : ShellSession → ShellSession
on_close s = record s { has_callback = true }

-- `e` is the error of the terminal.
unfoldable pub resize : ℕ → ℕ → Option IoError → ShellSession → Option IoError × ShellSession
resize rows cols e s =
    if s.closed
    then (none, s)
    else (e, record s { effects = s.effects ++ (set_size rows cols ∷ []) })

-- What the first `Close` does, in its order.
abbrev pub tear_down : ShellSession → List Effect
tear_down s =
    (if s.started then signal_hangup ∷ [] else [])
    ++ (close_terminal ∷ [])
    ++ (if s.started then wait_process ∷ [] else [])
    ++ (if s.has_callback then call_back ∷ [] else [])

-- `e` is the error of closing the terminal.
unfoldable pub close : Option IoError → ShellSession → Option IoError × ShellSession
close e s =
    if s.closed
    then (none, s)
    else (e, record s { closed = true; effects = s.effects ++ tear_down s })

pub data Call : Type 0 where
  resizes : ℕ → ℕ → Option IoError → Call
  closes : Option IoError → Call

-- The lock makes each call one step. The errors are collected.
unfoldable pub run_calls : List Call → ShellSession → List (Option IoError) × ShellSession
unfolding resize close
run_calls [] s = ([], s)
run_calls (resizes rows cols e ∷ cs) s =
    let (x, s') = resize rows cols e s in let (xs, t) = run_calls cs s' in (x ∷ xs, t)
run_calls (closes e ∷ cs) s =
    let (x, s') = close e s in let (xs, t) = run_calls cs s' in (x ∷ xs, t)

-- What `Pipe` returns, by the errors of its two copies and which ended first.
abbrev pub pipe : {E : Type 0} → Bool → Option E → Option E → Returned E
pipe first a b = first_error true (in_order first a b)

-- The first path that exists.
abbrev pub first_existing : (String → Bool) → List String → String
first_existing exists [] = "/bin/sh"
first_existing exists (path ∷ paths) = if exists path then path else first_existing exists paths

-- `shell` is the variable SHELL, empty where it is not set; `exists` is `os.Stat` without an error.
unfoldable pub default_shell : String → (String → Bool) → String
default_shell shell exists =
    if shell == "" then first_existing exists ("/bin/bash" ∷ "/bin/zsh" ∷ "/bin/sh" ∷ []) else shell

-- ===== src/Agent/Shell/Tests.antt =====
-- shell.go at concrete inputs, and the theorem at an input that meets its hypotheses.
use cloudbridge.Common.{◌≡◌, refl, true, false, [], ◌∷◌, ◌==◌, string_eq, none, some}
use cloudbridge.Common.Reader.{broken_pipe}
use cloudbridge.Agent.Proxy.{returned}
use cloudbridge.Agent.Shell.{
  signal_hangup, close_terminal, wait_process, call_back, set_size, ShellSession, resizes, closes,
  run_calls, pipe, default_shell, on_close,
}
use cloudbridge.Agent.Shell.Closing.{run_calls-once}

abbrev started_shell : ShellSession
started_shell = record { started = true; closed = false; has_callback = false; effects = [] }

second_error : pipe true none (some broken_pipe) ≡ returned (some broken_pipe)
second_error = refl

shell_of_user : default_shell "/bin/fish" (λ path. false) ≡ "/bin/fish"
unfolding default_shell
shell_of_user = refl

shell_found : default_shell "" (λ path. path == "/bin/zsh") ≡ "/bin/zsh"
unfolding default_shell
shell_found = refl

run_calls-once_example :
    run_calls
      (resizes 24 80 none
        ∷ closes (some broken_pipe)
        ∷ closes none
        ∷ resizes 9 9 (some broken_pipe)
        ∷ [])
      (on_close started_shell)
    ≡ (
      none ∷ some broken_pipe ∷ none ∷ none ∷ [],
      record (on_close started_shell) {
        closed = true;
        effects = set_size 24 80 ∷ signal_hangup ∷ close_terminal ∷ wait_process ∷ call_back ∷ [];
      },
    )
run_calls-once_example =
    run_calls-once ((24, 80, none) ∷ []) (some broken_pipe)
      (closes none ∷ resizes 9 9 (some broken_pipe) ∷ []) (on_close started_shell) refl

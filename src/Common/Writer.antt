-- ===== src/Common/Writer.antt =====
-- `io.Writer`, and a writer that takes so many bytes before its peer is gone.
use cloudbridge.Common.Lists.{length, take, take-length}
use cloudbridge.Common.Tests.{leb, if◌then◌else◌}
use cloudbridge.Common.Reader.{IoError, broken_pipe}
use Prim.Native.Nat.{ℕ, ◌-◌, ◌≤◌}
use mathlib.Core.Path.{◌≡◌}
use mathlib.Core.List.{List, ◌++◌}
use mathlib.Core.Option.{Option, none, some}
use native.Mathlib.Omega.{arith}

-- `Write(p)` answers with the bytes it took, an error, and the writer after it. `written` is what
-- has gone out. Without an error all of `p` was taken, with one a front of `p`.
pub record Writer (W : Type 0) : Type 0 where
  pub write : List ℕ → W → ℕ × Option IoError × W
  pub written : W → List ℕ
  pub write_all :
      (bs : List ℕ) (w : W)
      → (write bs w).1 ≡ none
      → ((write bs w).0 ≡ length bs) × (written (write bs w).2 ≡ written w ++ bs)
  pub write_part :
      (bs : List ℕ) (w : W)
      → ((write bs w).0 ≤ length bs)
        × (written (write bs w).2 ≡ written w ++ take (write bs w).0 bs)

-- What has been sent, and how many bytes more will be taken.
pub record Pipe : Type 0 where
  pub sent : List ℕ
  pub room : ℕ

unfoldable pub pipe_write : List ℕ → Pipe → ℕ × Option IoError × Pipe
pipe_write bs p =
    if leb (length bs) p.room
    then (length bs, none, record { sent = p.sent ++ bs; room = p.room - length bs })
    else (p.room, some broken_pipe, record { sent = p.sent ++ take p.room bs; room = 0 })

pub pipe_write_all :
    (bs : List ℕ) (p : Pipe)
    → (pipe_write bs p).1 ≡ none
    → ((pipe_write bs p).0 ≡ length bs) × ((pipe_write bs p).2.sent ≡ p.sent ++ bs)
unfolding pipe_write
pipe_write_all bs p h = ground arith

pub pipe_write_part :
    (bs : List ℕ) (p : Pipe)
    → ((pipe_write bs p).0 ≤ length bs)
      × ((pipe_write bs p).2.sent ≡ p.sent ++ take (pipe_write bs p).0 bs)
unfolding pipe_write
pipe_write_part bs p = ground (arith, take-length bs)

abbrev pub pipe_writer : Writer Pipe
pipe_writer = record {
  write = pipe_write;
  written = λ p. p.sent;
  write_all = pipe_write_all;
  write_part = pipe_write_part;
}

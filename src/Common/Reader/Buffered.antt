-- ===== src/Common/Reader/Buffered.antt =====
-- A `bufio.Reader` that has what is asked for in its buffer, or in the connection's next segment.
use cloudbridge.Common.Lists.{length, take-append_left, drop-append_left}
use cloudbridge.Common.Results.{ok}
use cloudbridge.Common.Reader.{
  Conn, BufReader, default_buf_size, new_buf_reader, buf_read, read_loop, read_full, read_byte,
}
use cloudbridge.Common.Reader.Laws.{buf_reader}
use Prim.Native.Nat.{ℕ, zero, suc, ◌-◌, ◌≤◌, ◌<◌}
use mathlib.Core.Path.{◌≡◌, refl}
use mathlib.Core.Option.{some}
use mathlib.Core.List.{List, [], ◌∷◌, ◌++◌}
use native.Mathlib.Omega.{arith}

-- A reader over `front` in the buffer and `c` behind it.
abbrev pub holding : List ℕ → Conn → BufReader
holding front c = record { buffered = front; conn = c }

buf_read-holding :
    (x : ℕ) (xs ys : List ℕ) (c : Conn)
    → buf_read (suc (length xs)) (holding ((x ∷ xs) ++ ys) c) ≡ some (x ∷ xs, holding ys c)
unfolding buf_read
buf_read-holding x xs ys c = rw (take-append_left xs ys, drop-append_left xs ys)

read_loop_done :
    (fuel k : ℕ) (got : List ℕ) (r : BufReader)
    → k ≡ 0
    → read_loop buf_reader fuel got k r ≡ ok (got, r)
unfolding read_loop
read_loop_done fuel zero got r h = refl
read_loop_done fuel (suc k) got r h = absurd (omega arith)

read_loop_once :
    (n : ℕ) (r t : BufReader) (bs : List ℕ)
    → length bs ≡ suc n
    → buf_read (suc n) r ≡ some (bs, t)
    → read_full buf_reader (suc n) r ≡ ok (bs, t)
unfolding read_full
read_loop_once n r t bs size e =
    ground (arith, read_loop_done n (suc n - length bs) bs t (omega arith))

-- The connection is not read, so it stays as it was.
pub read_full-holding :
    (n : ℕ) (xs ys : List ℕ) (c : Conn)
    → 0 < n
    → length xs ≡ n
    → read_full buf_reader n (holding (xs ++ ys) c) ≡ ok (xs, holding ys c)
read_full-holding n [] ys c h e = absurd (omega arith)
read_full-holding n (x ∷ xs) ys c h e =
    rw (← e)
      (read_loop_once (length xs) _ (holding ys c) (x ∷ xs) refl (buf_read-holding x xs ys c))

pub read_byte-holding :
    (b : ℕ) (ys : List ℕ) (c : Conn)
    → read_byte buf_reader (holding (b ∷ ys) c) ≡ ok (b, holding ys c)
unfolding read_byte
read_byte-holding b ys c = rw (read_full-holding 1 (b ∷ []) ys c (omega arith) refl)

buf_read-fill :
    (n x : ℕ) (xs : List ℕ) (c : Conn)
    → n < default_buf_size
    → length (x ∷ xs) ≤ default_buf_size
    → buf_read n (new_buf_reader ((x ∷ xs) ∷ c)) ≡ buf_read n (holding (x ∷ xs) c)
unfolding buf_read
buf_read-fill n x xs c h k = ground arith

-- The first small read takes the whole of a segment that the buffer has room for.
pub read_full-fill :
    (n x : ℕ) (xs : List ℕ) (c : Conn)
    → suc n < default_buf_size
    → length (x ∷ xs) ≤ default_buf_size
    → read_full buf_reader (suc n) (new_buf_reader ((x ∷ xs) ∷ c))
      ≡ read_full buf_reader (suc n) (holding (x ∷ xs) c)
unfolding read_full
read_full-fill n x xs c h k = rw (buf_read-fill (suc n) x xs c h k, read_loop)

-- ===== src/Common/Reader.antt =====
-- `io.Reader` and `io.ReadFull`, and the two readers the program uses: a connection, which hands
-- out one segment of the byte stream at a time, and a `bufio.Reader` over a connection.
pub mod Laws
pub mod Buffered
use cloudbridge.Common.Lists.{length, take, drop}
use cloudbridge.Common.Results.{Result, ok, err, ◌>>=◌}
use cloudbridge.Common.Words.{byte_at}
use cloudbridge.Common.Tests.{leb, if◌then◌else◌}
use Prim.Native.Nat.{ℕ, zero, suc, ◌-◌, ◌≤◌, ◌<◌}
use mathlib.Core.Path.{◌≡◌}
use mathlib.Core.List.{List, [], ◌∷◌, ◌++◌}
use mathlib.Core.Option.{Option, none, some}

-- `io.EOF`, `io.ErrUnexpectedEOF` and the error of a write. A timeout or a reset ends a stream as its end does.
pub data IoError : Type 0 where
  eof unexpected_eof broken_pipe : IoError

-- `Read(p)` with `len(p) = n`: the bytes it gave and the reader after it, or `none` for an error.
-- `content` is what the reader has still to give.
pub record Reader (S : Type 0) : Type 0 where
  pub read : ℕ → S → Option (List ℕ × S)
  pub content : S → List ℕ
  pub read_none : (n : ℕ) (s : S) → 0 < n → read n s ≡ none → content s ≡ []
  pub read_some :
      (n : ℕ) (s : S) (bs : List ℕ) (t : S)
      → 0 < n
      → read n s ≡ some (bs, t)
      → (content s ≡ bs ++ content t) × (length bs ≤ n) × (0 < length bs)

-- A connection's input: the segments that have not been read. No read gives an empty segment.
abbrev pub Conn : Type 0
Conn = List (List ℕ)

abbrev pub stream : Conn → List ℕ
stream [] = []
stream (c ∷ cs) = c ++ stream cs

-- `conn.Read(p)` gives at most one segment, and keeps what `p` has no room for.
unfoldable pub conn_read : ℕ → Conn → Option (List ℕ × Conn)
conn_read n [] = none
conn_read n ([] ∷ cs) = conn_read n cs
conn_read n ((b ∷ bs) ∷ cs) =
    if leb (length (b ∷ bs)) n
    then some (b ∷ bs, cs)
    else some (take n (b ∷ bs), drop n (b ∷ bs) ∷ cs)

-- `bufio.Reader`: what it has taken from the connection and not given, and the connection.
pub record BufReader : Type 0 where
  pub buffered : List ℕ
  pub conn : Conn

abbrev pub default_buf_size : ℕ
default_buf_size = 4096

-- `bufio.NewReader(conn)`
abbrev pub new_buf_reader : Conn → BufReader
new_buf_reader c = record { buffered = []; conn = c }

abbrev pub buf_content : BufReader → List ℕ
buf_content r = r.buffered ++ stream r.conn

-- `copy(p, b.buf)` after a fill.
give : ℕ → Option (List ℕ × Conn) → Option (List ℕ × BufReader)
give n none = none
give n (some (bs, c)) = some (take n bs, record { buffered = drop n bs; conn = c })

direct : Option (List ℕ × Conn) → Option (List ℕ × BufReader)
direct none = none
direct (some (bs, c)) = some (bs, record { buffered = []; conn = c })

-- An empty buffer is filled by one read, or passed by where `p` is as large as the buffer.
read_buffered : ℕ → List ℕ → Conn → Option (List ℕ × BufReader)
unfolding give direct
read_buffered n [] c =
    if leb default_buf_size n then direct (conn_read n c) else give n (conn_read default_buf_size c)
read_buffered n (b ∷ bs) c = some (take n (b ∷ bs), record { buffered = drop n (b ∷ bs); conn = c })

-- `(*bufio.Reader).Read(p)`
unfoldable pub buf_read : ℕ → BufReader → Option (List ℕ × BufReader)
unfolding read_buffered conn_read
buf_read n r = read_buffered n r.buffered r.conn

-- The error of a `ReadFull` that met the end: `io.EOF` only if it had no byte yet.
abbrev pub end_error : List ℕ → IoError
end_error [] = eof
end_error (b ∷ bs) = unexpected_eof

module _ {S : Type 0} (R : Reader S) where
  -- The loop of `io.ReadAtLeast`. A read gives a byte at least, so `n` rounds are enough.
  read_loop : ℕ → List ℕ → ℕ → S → Result IoError (List ℕ × S)
  read_loop fuel got zero s = ok (got, s)
  read_loop zero got (suc n) s = err (end_error got)
  read_loop (suc fuel) got (suc n) s = elim (R.read (suc n) s) [
    | none ↦ err (end_error got)
    | some (bs, t) ↦ read_loop fuel (got ++ bs) (suc n - length bs) t
  ]

  -- `io.ReadFull(r, p)` with `len(p) = n`
  unfoldable pub read_full : ℕ → S → Result IoError (List ℕ × S)
  unfolding read_loop
  read_full n s = read_loop n [] n s

  -- `ReadByte` of a `bufio.Reader`: a read of one byte.
  unfoldable pub read_byte : S → Result IoError (ℕ × S)
  unfolding read_full
  read_byte s = read_full 1 s >>= λ (bs, t). ok (byte_at bs 0, t)

-- ===== src/Tunnel/Stream.antt =====
-- tunnel.go: `ReadWriteCloser`, a stream over two channels of byte slices.
mod Tests
use cloudbridge.Common.{
  ℕ, Bool, true, false, List, [], ◌∷◌, ◌++◌, ◌&&◌, ◌||◌, ltb, if◌then◌else◌, length, take, Option,
  none, some, Result, ok, err,
}
use cloudbridge.Signal.Client.{Panic, close_of_closed_channel}

-- The slices in each channel; `ended` says that `readCh` was closed, `closed` that the stream was.
pub record Stream : Type 0 where
  pub read_queue : List (List ℕ)
  pub ended : Bool
  pub write_queue : List (List ℕ)
  pub closed : Bool

abbrev pub channel_size : ℕ
channel_size = 64

abbrev pub new_stream : Stream
new_stream = record { read_queue = []; ended = false; write_queue = []; closed = false }

-- What a call gives: it waits, or it ends with bytes or an error.
pub data ReadResult : Type 0 where
  read_waits read_eof : ReadResult
  read_got : List ℕ → ReadResult

pub data WriteResult : Type 0 where
  write_waits write_closed_pipe : WriteResult
  wrote : ℕ → WriteResult

abbrev pub take_chunk : ℕ → List (List ℕ) → Stream → ReadResult × Stream
take_chunk n [] s = (if s.ended then read_eof else read_waits, s)
take_chunk n (bytes ∷ rest) s = (read_got (take n bytes), record s { read_queue = rest })

-- `Read(p)` with `len(p) = n`. Where both cases of the `select` are ready, `closing` chooses.
unfoldable pub read : ℕ → Bool → Stream → ReadResult × Stream
read n closing s =
    if s.closed && (closing || (if s.ended then false else ltb (length s.read_queue) 1))
    then (read_eof, s)
    else take_chunk n s.read_queue s

-- `Write(p)`; the slice itself goes into the channel.
unfoldable pub write : List ℕ → Bool → Stream → WriteResult × Stream
write bytes closing s =
    let room = ltb (length s.write_queue) channel_size in
    if room && (if s.closed && closing then false else true)
    then (wrote (length bytes), record s { write_queue = s.write_queue ++ (bytes ∷ []) })
    else if s.closed
    then (write_closed_pipe, s)
    else (write_waits, s)

-- A second call panics.
unfoldable pub close : Stream → Result Panic Stream
close s = if s.closed then err close_of_closed_channel else ok (record s { closed = true })

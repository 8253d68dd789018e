-- ===== src/Protocol/Frame.antt =====
-- internal/protocol/frame.go. A byte slice is a list of numbers below 256.
pub mod Wire
pub mod Decode
pub mod Stream
pub mod Sequence
pub mod Names
mod Tests
use cloudbridge.Common.{
  ℕ, zero, suc, ◌+◌, ◌-◌, ◌*◌, ◌%◌, ◌^◌, ◌≤◌, ◌<◌, Bool, true, false, List, [], ◌∷◌, ◌++◌, Option,
  none, some, String, ltb, leb, nat_eq, if◌then◌else◌, length, take, drop, Result, ok, err, ◌>>=◌,
  ◌>>◌, guard, wrap,
}
use cloudbridge.Common.Words.{IsBytes, put_uint16, put_uint32, byte_at, uint16_at, uint32_at}
use cloudbridge.Common.Reader.{IoError, Reader, read_full}
use cloudbridge.Common.Writer.{Writer}

abbrev pub stream_control : ℕ
stream_control = 0

abbrev pub stream_ssh : ℕ
stream_ssh = 1

abbrev pub stream_shell : ℕ
stream_shell = 2

abbrev pub stream_rdp : ℕ
stream_rdp = 3

abbrev pub stream_docker : ℕ
stream_docker = 4

abbrev pub stream_vnc : ℕ
stream_vnc = 5

abbrev pub frame_data : ℕ
frame_data = 1

abbrev pub frame_open_stream : ℕ
frame_open_stream = 2

abbrev pub frame_close_stream : ℕ
frame_close_stream = 3

abbrev pub frame_window_update : ℕ
frame_window_update = 4

abbrev pub frame_ping : ℕ
frame_ping = 5

abbrev pub frame_pong : ℕ
frame_pong = 6

abbrev pub frame_header_size : ℕ
frame_header_size = 7

abbrev pub max_payload_size : ℕ
max_payload_size = 64 * 1024

pub record Frame : Type 0 where
  pub stream_id : ℕ
  pub frame_type : ℕ
  pub payload : List ℕ

-- What Go's types give: a uint16, a uint8 and bytes.
pub record IsFrame (f : Frame) : Type 0 where
  pub stream_id_fits : f.stream_id < 2 ^ 16
  pub frame_type_fits : f.frame_type < 256
  pub payload_IsBytes : IsBytes f.payload

-- An error message with the numbers it prints.
pub data FrameError : Type 0 where
  payload_too_large : ℕ → FrameError
  frame_too_short : FrameError
  frame_truncated : ℕ → ℕ → FrameError
  reading_header reading_payload writing : IoError → FrameError

-- The seven bytes before a payload: the uint16 of the stream, the type, the uint32 of the length.
abbrev pub header : Frame → List ℕ
header f =
    put_uint16 (f.stream_id % 2 ^ 16)
    ++ ((f.frame_type % 256) ∷ put_uint32 (length f.payload % 2 ^ 32))

unfoldable pub marshal_binary : Frame → Result FrameError (List ℕ)
marshal_binary f =
    if ltb max_payload_size (length f.payload)
    then err (payload_too_large (length f.payload))
    else ok (header f ++ f.payload)

-- The checks behind the header, with the two fields already set in the receiver.
unmarshal_payload : Frame → List ℕ → ℕ → Frame × Option FrameError
unmarshal_payload f bytes n =
    if ltb (length bytes) (frame_header_size + n)
    then (f, some (frame_truncated n (length bytes - frame_header_size)))
    else if ltb max_payload_size n
    then (f, some (payload_too_large n))
    else (record f { payload = take n (drop frame_header_size bytes) }, none)

-- A method on a receiver: the receiver after the call, and the error.
unfoldable pub unmarshal_binary : Frame → List ℕ → Frame × Option FrameError
unfolding unmarshal_payload
unmarshal_binary f bytes =
    if ltb (length bytes) frame_header_size
    then (f, some frame_too_short)
    else unmarshal_payload
        (record f { stream_id = uint16_at bytes 0; frame_type = byte_at bytes 2 }) bytes
        (uint32_at bytes 3)

module _ {W : Type 0} (Out : Writer W) where
  write_bytes : ℕ × Option IoError × W → ℕ × Option FrameError × W
  write_bytes (n, none, w) = (n, none, w)
  write_bytes (n, some e, w) = (n, some (writing e), w)

  -- `f.WriteTo(w)`: the number of bytes, the error and the writer after it.
  unfoldable pub write_to : Frame → W → ℕ × Option FrameError × W
  unfolding write_bytes
  write_to f w = elim (marshal_binary f) [
    | err e ↦ (0, some e, w)
    | ok bytes ↦ write_bytes (Out.write bytes w)
  ]

module _ {S : Type 0} (R : Reader S) where
  -- `if length > 0 { io.ReadFull(r, payload) }`
  read_payload : ℕ → S → Result FrameError (List ℕ × S)
  read_payload n s = if nat_eq n 0 then ok ([], s) else wrap reading_payload (read_full R n s)

  -- `ReadFrom(r)`, with the reader after it.
  unfoldable pub read_from : S → Result FrameError (Frame × S)
  unfolding read_payload
  read_from s = do
    (head, s') ← wrap reading_header (read_full R frame_header_size s)
    let n = uint32_at head 3
    guard (leb n max_payload_size) (payload_too_large n)
    (bytes, s'') ← read_payload n s'
    ok (record { stream_id = uint16_at head 0; frame_type = byte_at head 2; payload = bytes }, s'')

-- ===== src/Protocol/Frame/Tests.antt =====
-- frame.go at concrete inputs, and the theorems at inputs that meet their hypotheses.
use cloudbridge.Common.{◌↔◌, ℕ, ◌≡◌, refl, List, [], ◌∷◌, ◌++◌, none, some, arith, ok, err}
use cloudbridge.Common.Reader.{Conn, stream, unexpected_eof, conn_read, read_full}
use cloudbridge.Common.Reader.Laws.{flat, conn_reader}
use cloudbridge.Common.Writer.{Pipe, pipe_write, pipe_writer}
use cloudbridge.Protocol.Frame.{
  Frame, IsFrame, payload_too_large, frame_too_short, frame_truncated, reading_header,
  marshal_binary, unmarshal_binary, read_from, write_to, frame_data, frame_ping, stream_shell,
  stream_control,
}
use cloudbridge.Protocol.Frame.Decode.{Encodes, unmarshal_binary_iff}
use cloudbridge.Protocol.Frame.Stream.{read_from_iff}
use cloudbridge.Protocol.Frame.Sequence.{write_frames, read_frames, read_frames-write_frames}

abbrev hello : Frame
hello = record { stream_id = stream_shell; frame_type = frame_data; payload = 104 ∷ 105 ∷ [] }

abbrev ping : Frame
ping = record { stream_id = stream_control; frame_type = frame_ping; payload = [] }

abbrev hello_wire : List ℕ
hello_wire = 0 ∷ 2 ∷ 1 ∷ 0 ∷ 0 ∷ 0 ∷ 2 ∷ 104 ∷ 105 ∷ []

abbrev ping_wire : List ℕ
ping_wire = 0 ∷ 0 ∷ 5 ∷ 0 ∷ 0 ∷ 0 ∷ 0 ∷ []

-- The two frames in segments that cut both.
abbrev segments : Conn
segments =
    (0 ∷ 2 ∷ 1 ∷ [])
    ∷ (0 ∷ 0 ∷ 0 ∷ 2 ∷ 104 ∷ [])
    ∷ (105 ∷ 0 ∷ 0 ∷ 5 ∷ 0 ∷ [])
    ∷ (0 ∷ 0 ∷ 0 ∷ 9 ∷ [])
    ∷ []

abbrev fresh : Pipe
fresh = record { sent = []; room = 100 }

marshal_hello : marshal_binary hello ≡ ok hello_wire
unfolding marshal_binary
marshal_hello = refl

unmarshal_short : unmarshal_binary hello (0 ∷ 1 ∷ []) ≡ (hello, some frame_too_short)
unfolding unmarshal_binary
unmarshal_short = refl

-- A failed call has changed the receiver's stream and type.
unmarshal_cut : unmarshal_binary hello ping_wire ≡ (ping, none)
unfolding unmarshal_binary
unmarshal_cut = refl

unmarshal_truncated :
    unmarshal_binary hello (0 ∷ 0 ∷ 5 ∷ 0 ∷ 0 ∷ 0 ∷ 3 ∷ 7 ∷ [])
    ≡ (record ping { payload = hello.payload }, some (frame_truncated 3 1))
unfolding unmarshal_binary
unmarshal_truncated = refl

read_cut : read_from conn_reader ((0 ∷ 0 ∷ []) ∷ []) ≡ err (reading_header unexpected_eof)
unfolding read_from read_full conn_read
read_cut = refl

read_large :
    read_from conn_reader ((0 ∷ 0 ∷ 1 ∷ 0 ∷ 1 ∷ 0 ∷ 1 ∷ []) ∷ []) ≡ err (payload_too_large 65537)
unfolding read_from read_full conn_read
read_large = refl

hello-IsFrame : IsFrame hello
hello-IsFrame = omega arith

unmarshal_binary_iff_example :
    (unmarshal_binary ping hello_wire ≡ (hello, none))
    ↔ ((rest : List ℕ) × Encodes hello hello_wire rest)
unmarshal_binary_iff_example = unmarshal_binary_iff ping hello hello_wire (omega arith)

read_from_iff_example :
    (flat conn_reader (read_from conn_reader segments) ≡ ok (hello, ping_wire ++ (9 ∷ [])))
    ↔ Encodes hello (stream segments) (ping_wire ++ (9 ∷ []))
read_from_iff_example =
    read_from_iff conn_reader segments hello (ping_wire ++ (9 ∷ [])) (omega arith)

read_frames-write_frames_example :
    (t : Conn) × (read_frames conn_reader 2 segments ≡ ok (hello ∷ ping ∷ [], t))
    × (stream t ≡ 9 ∷ [])
unfolding pipe_write write_frames write_to marshal_binary
read_frames-write_frames_example =
    read_frames-write_frames conn_reader pipe_writer (hello ∷ ping ∷ []) fresh
      (record { sent = hello_wire ++ ping_wire; room = 84 }) segments (9 ∷ []) (omega arith) refl
      refl refl

-- ===== src/Protocol/Frame/Names.antt =====
-- frame.go: the names of frame types and streams, for logs.
use cloudbridge.Common.{ℕ, ◌≡◌, refl, nat_eq, if◌then◌else◌, String}
use cloudbridge.Protocol.Frame.{
  stream_control, stream_ssh, stream_shell, stream_rdp, stream_docker, stream_vnc, frame_data,
  frame_open_stream, frame_close_stream, frame_window_update, frame_ping, frame_pong,
}

-- `unknown` is the text that `fmt.Sprintf` makes of a number.
unfoldable pub frame_type_string : (ℕ → String) → ℕ → String
frame_type_string unknown t =
    if nat_eq t frame_data
    then "DATA"
    else if nat_eq t frame_open_stream
    then "OPEN_STREAM"
    else if nat_eq t frame_close_stream
    then "CLOSE_STREAM"
    else if nat_eq t frame_window_update
    then "WINDOW_UPDATE"
    else if nat_eq t frame_ping
    then "PING"
    else if nat_eq t frame_pong
    then "PONG"
    else unknown t

unfoldable pub stream_id_string : (ℕ → String) → ℕ → String
stream_id_string unknown s =
    if nat_eq s stream_control
    then "control"
    else if nat_eq s stream_ssh
    then "ssh"
    else if nat_eq s stream_shell
    then "shell"
    else if nat_eq s stream_rdp
    then "rdp"
    else if nat_eq s stream_docker
    then "docker"
    else if nat_eq s stream_vnc
    then "vnc"
    else unknown s

names_ping : (unknown : ℕ → String) → frame_type_string unknown frame_ping ≡ "PING"
unfolding frame_type_string
names_ping unknown = refl

names_stream : (unknown : ℕ → String) → stream_id_string unknown 77 ≡ unknown 77
unfolding stream_id_string
names_stream unknown = refl

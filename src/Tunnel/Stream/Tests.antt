-- ===== src/Tunnel/Stream/Tests.antt =====
-- The stream at concrete inputs.
use cloudbridge.Common.{◌≡◌, refl, true, false, [], ◌∷◌, err}
use cloudbridge.Signal.Client.{close_of_closed_channel}
use cloudbridge.Tunnel.Stream.{
  Stream, new_stream, read, write, close, read_waits, read_eof, read_got, wrote,
}

abbrev two_slices : Stream
two_slices = record new_stream { read_queue = (1 ∷ 2 ∷ 3 ∷ []) ∷ (4 ∷ []) ∷ [] }

read_nothing : (read 8 false new_stream).0 ≡ read_waits
unfolding read
read_nothing = refl

write_then_close : (write (7 ∷ 8 ∷ []) false new_stream).0 ≡ wrote 2
unfolding write
write_then_close = refl

close_twice : close (record new_stream { closed = true }) ≡ err close_of_closed_channel
unfolding close
close_twice = refl

read_closed : (read 8 true (record two_slices { closed = true })).0 ≡ read_eof
unfolding read
read_closed = refl

-- What does not fit of a slice is lost.
read_short :
    read 2 false two_slices
    ≡ (read_got (1 ∷ 2 ∷ []), record two_slices { read_queue = (4 ∷ []) ∷ [] })
unfolding read
read_short = refl

-- ===== src/Tunnel/Interface.antt =====
-- tunnel.go: what a transport does. `size` bounds the frames that can still be read, so that a loop
-- of reads ends.
use cloudbridge.Common.{ℕ, ◌<◌, ◌≡◌, List, Option, Result, ok}

pub record Transport (T E : Type 0) : Type 0 where
  pub open_transport : T → Option E × T
  pub close_transport : T → Option E × T
  pub read_frame : T → Result E (List ℕ × T)
  pub write_frame : List ℕ → T → Option E × T
  pub size : T → ℕ
  pub read_less :
      (t : T) (bytes : List ℕ) (t' : T) → read_frame t ≡ ok (bytes, t') → size t' < size t

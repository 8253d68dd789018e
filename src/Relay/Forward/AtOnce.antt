-- ===== src/Relay/Forward/AtOnce.antt =====
-- An `io.Copy` for concrete inputs: it writes all that comes in with one call.
use cloudbridge.Common.Reader.{stream}
use cloudbridge.Common.Writer.{Writer}
use cloudbridge.Relay.Forward.{Copier}

abbrev pub copy_at_once : {W : Type 0} (Out : Writer W) → Copier Out
copy_at_once Out = record {
  copy = λ c w. Out.write (stream c) w;
  copy_all = λ c w h. Out.write_all (stream c) w h;
  copy_part = λ c w. Out.write_part (stream c) w;
}

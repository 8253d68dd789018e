-- ===== src/Relay/Forward/Tests.antt =====
-- `relaySession` at concrete inputs, and the theorem at an input that meets its hypotheses.
use cloudbridge.Common.{ℕ, ◌≡◌, refl, true, false, [], ◌∷◌, length, ◌+◌, ◌%◌, ◌^◌}
use cloudbridge.Common.Writer.{Pipe, pipe_write, pipe_writer}
use cloudbridge.Relay.Session.{Session, Conns, close}
use cloudbridge.Relay.Forward.{Wires, forward, relay_pair, relay_session}
use cloudbridge.Relay.Forward.Accounting.{relay_session-bytes}
use cloudbridge.Relay.Forward.AtOnce.{copy_at_once}

abbrev room_for : ℕ → Pipe
room_for n = record { sent = []; room = n }

-- The first peer sends three bytes in two segments, the second one two bytes.
abbrev wires : Wires Pipe
wires = record {
  from_first = (1 ∷ 2 ∷ []) ∷ (3 ∷ []) ∷ [];
  from_second = (8 ∷ 9 ∷ []) ∷ [];
  to_first = room_for 1;
  to_second = room_for 10;
}

abbrev pair : Session
pair = record {
  id = 115 ∷ [];
  created_at = 5;
  peers = 0 ∷ 1 ∷ [];
  bytes = 7;
  quota_bytes = 2;
  quota_rate = 1;
  closed = false;
}

abbrev all_open : Conns
all_open c = true

-- The first peer goes away after a byte.
relays : (relay_session (copy_at_once pipe_writer) wires pair all_open).0 ≡ record wires {
  to_first = record { sent = 8 ∷ []; room = 0 };
  to_second = record { sent = 1 ∷ 2 ∷ 3 ∷ []; room = 7 };
}
unfolding relay_session relay_pair forward pipe_write close
relays = refl

-- More bytes than the quota.
counts : (relay_session (copy_at_once pipe_writer) wires pair all_open).1.bytes ≡ 11
unfolding relay_session relay_pair forward pipe_write close
counts = refl

one_peer :
    relay_session (copy_at_once pipe_writer) wires (record pair { peers = 0 ∷ [] }) all_open
    ≡ (wires, record pair { peers = 0 ∷ [] }, all_open)
unfolding relay_session relay_pair
one_peer = refl

-- Near the end of its range the counter starts again.
wraps :
    (relay_session
      (copy_at_once pipe_writer)
      wires
      (record pair { bytes = 18446744073709551614 })
      all_open).1.bytes
    ≡ 2
unfolding relay_session relay_pair forward pipe_write close
wraps = refl

relay_session-bytes_example :
    let (v', x', conns') = relay_session (copy_at_once pipe_writer) wires pair all_open in
    ((x'.bytes + 0 + 0) % 2 ^ 64
      ≡ (7 + length v'.to_first.sent + length v'.to_second.sent) % 2 ^ 64)
    × (conns' 0 ≡ false)
    × (conns' 1 ≡ false)
    × (x'.closed ≡ true)
relay_session-bytes_example =
    relay_session-bytes (copy_at_once pipe_writer) wires pair all_open 0 1 refl refl

-- ===== src/Signal/Server/Pump/Tests.antt =====
-- `writePump` at concrete inputs, and the theorems at inputs that meet their hypotheses.
use cloudbridge.Common.{
  ℕ, zero, suc, ◌≡◌, refl, true, false, List, [], ◌∷◌, ◌++◌, Option, none, some, inl, inr, ◌⊎◌,
  string_eq,
}
use cloudbridge.Protocol.Json.{num}
use cloudbridge.Signal.Client.{Client, Heap, Message, store, try_send, close_send}
use cloudbridge.Signal.Server.Pump.{
  Sent, text_message, ping_message, close_message, WebSocket, receives, ticks, fails, blocked,
  pump_turn, write_pump,
}
use cloudbridge.Signal.Server.Pump.Steps.{
  State, running, returned, Reach, here, next, sends, closes_channel, turns, stops,
}
use cloudbridge.Signal.Server.Pump.Order.{Reach-IsInOrder}

-- A connection that takes so many messages before it is gone.
pub record Wire : Type 0 where
  pub out : List Sent
  pub room : ℕ

abbrev write_room : ℕ → Sent → List Sent → Option ℕ × Wire
write_room zero m out = (some 1, record { out = out; room = 0 })
write_room (suc n) m out = (none, record { out = out ++ (m ∷ []); room = n })

wrote_none :
    (n : ℕ) (m : Sent) (out : List Sent)
    → (write_room n m out).0 ≡ none
    → (write_room n m out).1.out ≡ out ++ (m ∷ [])
wrote_none zero m out e = absurd (cc e)
wrote_none (suc n) m out e = refl

wrote_some :
    (n : ℕ) (m : Sent) (out : List Sent)
    → ((write_room n m out).1.out ≡ out) ⊎ ((write_room n m out).1.out ≡ out ++ (m ∷ []))
wrote_some zero m out = inl refl
wrote_some (suc n) m out = inr refl

abbrev wire : WebSocket ℕ Wire
wire = record {
  write_message = λ m w. write_room w.room m w.out;
  wrote = λ w. w.out;
  write_ok = λ m w e. wrote_none w.room m w.out e;
  write_any = λ m w. wrote_some w.room m w.out;
}

abbrev message : Message
message = num 7

abbrev with_queue : List Message → Client
with_queue ms = record { id = "cl-1"; is_agent = false; device_id = ""; send = ms; closed = false }

abbrev empty_heap : Heap
empty_heap q = with_queue []

-- The channel was closed behind two messages.
abbrev closing : Heap
closing q = record (with_queue (num 1 ∷ num 2 ∷ [])) { closed = true }

-- The peer is gone after a message, and the second one is lost.
breaks_off :
    write_pump wire (receives ∷ receives ∷ receives ∷ []) 0 closing (record { out = []; room = 1 })
    ≡ fails
        (store 0
          (record (closing 0) { send = [] })
          (store 0 (record (closing 0) { send = num 2 ∷ [] }) closing))
        (record { out = text_message (num 1) ∷ []; room = 0 })
unfolding write_pump pump_turn
breaks_off = refl

nothing_comes : pump_turn wire receives 0 empty_heap (record { out = []; room = 1 }) ≡ blocked
unfolding pump_turn
nothing_comes = refl

abbrev started : State Wire
started = record {
  heap = empty_heap;
  socket = record { out = []; room = 9 };
  pumping = running;
  accepted = [];
}

abbrev sent_heap : Heap
sent_heap = store 0 (with_queue (message ∷ [])) empty_heap

abbrev taken_heap : Heap
taken_heap = store 0 (with_queue []) sent_heap

abbrev closed_heap : Heap
closed_heap = store 0 (record (with_queue []) { closed = true }) taken_heap

abbrev stopped : State Wire
stopped = record {
  heap = closed_heap;
  socket = record { out = ping_message ∷ text_message message ∷ close_message ∷ []; room = 6 };
  pumping = returned;
  accepted = message ∷ [];
}

-- A message is sent, the timer ticks, the message is written, and the channel is closed.
history : Reach wire 0 started stopped
unfolding try_send close_send pump_turn
history =
    next
      (next
        (next
          (next (next here (sends message sent_heap refl))
            (turns ticks sent_heap (record { out = ping_message ∷ []; room = 8 }) refl refl))
          (turns receives taken_heap
            (record { out = ping_message ∷ text_message message ∷ []; room = 7 }) refl refl))
        (closes_channel closed_heap refl))
      (stops closed_heap
        (record { out = ping_message ∷ text_message message ∷ close_message ∷ []; room = 6 }) refl
        refl)

Reach-IsInOrder_example : (message ∷ [] ≡ message ∷ []) × (true ≡ true)
Reach-IsInOrder_example = Reach-IsInOrder wire 0 started stopped history refl refl refl refl

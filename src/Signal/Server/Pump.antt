-- ===== src/Signal/Server/Pump.antt =====
-- internal/signal/server.go: `writePump`. A WebSocket connection is gorilla/websocket's, a parameter.
pub mod Steps
pub mod Turns
pub mod Order
mod Tests
use cloudbridge.Common.{
  ℕ, ◌≡◌, ◌⊎◌, List, [], ◌∷◌, ◌++◌, Option, none, some, if◌then◌else◌, true, false, ok,
}
use cloudbridge.Signal.Client.{Heap, Message, store, try_send, close_send}

-- `websocket.TextMessage`, `PingMessage` and `CloseMessage`
pub data Sent : Type 0 where
  text_message : Message → Sent
  ping_message close_message : Sent

-- `WriteMessage` answers with an error, and the connection after it. `wrote` is what has gone out. A
-- message has gone out where there is no error, and may have where there is one.
pub record WebSocket (E W : Type 0) : Type 0 where
  pub write_message : Sent → W → Option E × W
  pub wrote : W → List Sent
  pub write_ok :
      (m : Sent) (w : W)
      → (write_message m w).0 ≡ none
      → wrote (write_message m w).1 ≡ wrote w ++ (m ∷ [])
  pub write_any :
      (m : Sent) (w : W)
      → (wrote (write_message m w).1 ≡ wrote w)
        ⊎ (wrote (write_message m w).1 ≡ wrote w ++ (m ∷ []))

-- The cases of the `select`: a receive from `client.Send`, a tick, and a receive from
-- `client.Close`, a channel that nothing in the package closes.
pub data Case : Type 0 where
  receives ticks closes : Case

-- What a turn of the loop does. A receive from an open channel without a message waits.
pub data Turn (W : Type 0) : Type 0 where
  goes_on fails ends : Heap → W → Turn W
  blocked : Turn W

-- `if err := client.Conn.WriteMessage(...); err != nil { return }`
abbrev pub after_write : {E W : Type 0} → Heap → Option E × W → Turn W
after_write h (none, w) = goes_on h w
after_write h (some e, w) = fails h w

module _ {E W : Type 0} (Ws : WebSocket E W) where
  -- A receive, by what the channel holds: a message, or nothing. The answer to the closing message is
  -- not looked at.
  abbrev pub receive : List Message → ℕ → Heap → W → Turn W
  receive [] p h w = if (h p).closed then ends h (Ws.write_message close_message w).1 else blocked
  receive (msg ∷ rest) p h w =
      after_write (store p (record (h p) { send = rest }) h) (Ws.write_message (text_message msg) w)

  unfoldable pub pump_turn : Case → ℕ → Heap → W → Turn W
  pump_turn receives p h w = receive (h p).send p h w
  pump_turn ticks p h w = after_write h (Ws.write_message ping_message w)
  pump_turn closes p h w = ends h w

  -- The loop over the cases that are chosen, while it goes on.
  unfoldable pub write_pump : List Case → ℕ → Heap → W → Turn W
  write_pump [] p h w = goes_on h w
  write_pump (c ∷ cs) p h w = elim (pump_turn c p h w) [
    | goes_on h' w' ↦ write_pump cs p h' w'
    | fails h' w' ↦ fails h' w'
    | ends h' w' ↦ ends h' w'
    | blocked ↦ blocked
  ]

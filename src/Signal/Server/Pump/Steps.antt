-- ===== src/Signal/Server/Pump/Steps.antt =====
-- server.go with hub.go: the writer goroutine of a client among all others.
use cloudbridge.Common.{ℕ, ◌≡◌, true, false, List, [], ◌∷◌, ◌++◌, ok}
use cloudbridge.Signal.Client.{Heap, Message, try_send, close_send}
use cloudbridge.Signal.Server.Pump.{WebSocket, Case, receives, goes_on, fails, ends, pump_turn}

-- The goroutine runs, has met an error, or has returned.
pub data Pumping : Type 0 where
  running failed returned : Pumping

-- `accepted` are the messages that the channel of the client has taken.
pub record State (W : Type 0) : Type 0 where
  pub heap : Heap
  pub socket : W
  pub pumping : Pumping
  pub accepted : List Message

module _ {E W : Type 0} (Ws : WebSocket E W) (p : ℕ) where
  -- A step of this goroutine, or of any other: a send to this client, the close of its channel, a
  -- change of the rest. The case `closes` is never chosen, since nothing closes `client.Close`.
  pub data Step (s : State W) : State W → Type 0 where
    sends :
        (msg : Message) (h : Heap)
        → try_send p msg s.heap ≡ ok (true, h)
        → Step s (record s { heap = h; accepted = s.accepted ++ (msg ∷ []) })
    drops :
        (msg : Message) (h : Heap)
        → try_send p msg s.heap ≡ ok (false, h)
        → Step s (record s { heap = h })
    closes_channel : (h : Heap) → close_send p s.heap ≡ ok h → Step s (record s { heap = h })
    others :
        (h : Heap)
        → (h p).send ≡ (s.heap p).send
        → (h p).closed ≡ (s.heap p).closed
        → Step s (record s { heap = h })
    turns :
        (c : Case) (h : Heap) (w : W)
        → s.pumping ≡ running
        → pump_turn Ws c p s.heap s.socket ≡ goes_on h w
        → Step s (record s { heap = h; socket = w })
    breaks :
        (c : Case) (h : Heap) (w : W)
        → s.pumping ≡ running
        → pump_turn Ws c p s.heap s.socket ≡ fails h w
        → Step s (record s { heap = h; socket = w; pumping = failed })
    stops :
        (h : Heap) (w : W)
        → s.pumping ≡ running
        → pump_turn Ws receives p s.heap s.socket ≡ ends h w
        → Step s (record s { heap = h; socket = w; pumping = returned })

  pub data Reach (s : State W) : State W → Type 0 where
    here : Reach s s
    next : {t u : State W} → Reach s t → Step t u → Reach s u

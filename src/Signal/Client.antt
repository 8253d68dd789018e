-- ===== src/Signal/Client.antt =====
-- internal/signal/hub.go and server.go: connected clients. A client is shared by pointer, so it
-- stands in a heap; a pointer is a number.
use cloudbridge.Protocol.Json.{Json}
use cloudbridge.Common.{
  ℕ, ◌≡◌, Bool, true, false, List, [], ◌∷◌, ◌++◌, String, ltb, nat_eq, if◌then◌else◌, length,
  Result, ok, err, arith, ◌≢◌,
}

-- A message that is ready to be sent: the JSON value of its bytes.
abbrev pub Message : Type 0
Message = Json

-- `send` holds what the writer goroutine has not taken; `closed` says that the channel was closed.
pub record Client : Type 0 where
  pub id : String
  pub is_agent : Bool
  pub device_id : String
  pub send : List Message
  pub closed : Bool

abbrev pub Heap : Type 0
Heap = ℕ → Client

-- `*p = c`
abbrev pub store : ℕ → Client → Heap → Heap
store p c h q = if nat_eq p q then c else h q

-- What Go's runtime does on a closed channel.
pub data Panic : Type 0 where
  send_on_closed_channel close_of_closed_channel : Panic

abbrev pub send_buffer_size : ℕ
send_buffer_size = 256

-- `select { case c.Send <- msg: return true; default: return false }`
unfoldable pub try_send : ℕ → Message → Heap → Result Panic (Bool × Heap)
try_send p msg h =
    let c = h p in
    if c.closed
    then err send_on_closed_channel
    else if ltb (length c.send) send_buffer_size
    then ok (true, store p (record c { send = c.send ++ (msg ∷ []) }) h)
    else ok (false, h)

-- `close(c.Send)`
unfoldable pub close_send : ℕ → Heap → Result Panic Heap
close_send p h =
    let c = h p in
    if c.closed then err close_of_closed_channel else ok (store p (record c { closed = true }) h)

pub store_self : (p : ℕ) (c : Client) (h : Heap) → store p c h p ≡ c
store_self p c h = ground arith

pub store-ne : (p q : ℕ) (c : Client) (h : Heap) → p ≢ q → store p c h q ≡ h q
store-ne p q c h n = ground arith

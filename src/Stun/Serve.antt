-- ===== src/Stun/Serve.antt =====
-- internal/stun/server.go: the loop `serve`.
use cloudbridge.Common.{
  ℕ, ◌≡◌, refl, ◌∙◌, Bool, true, false, if◌then◌else◌, List, [], ◌∷◌, ◌++◌, take, drop, All, arith,
  Result, ok, err,
}
use cloudbridge.Stun.{
  UdpAddr, StunError, message_too_short, invalid_magic_cookie, unsupported_message_type,
  message_truncated, index_out_of_range, handle_message,
}
use cloudbridge.Stun.Shape.{IsUdpIp, build_binding_response-ok}

-- What `ReadFromUDP` gives.
pub data Incoming : Type 0 where
  datagram : List ℕ → UdpAddr → Incoming
  timeout read_error : Incoming

-- A turn of the loop: whether the server is closed at its start, what comes in, and whether the
-- server is closed when the loop looks again after an error.
pub record Turn : Type 0 where
  pub closed : Bool
  pub incoming : Incoming
  pub closed_after : Bool

-- The buffer takes 576 bytes of a datagram.
abbrev pub buffer_size : ℕ
buffer_size = 576

-- How the goroutine of the loop stands: it still reads, it has returned, or a panic in it has ended
-- the program.
pub data Ending : Type 0 where
  reading returned crashed : Ending

-- What goes out, and how the loop ends.
abbrev pub Run : Type 0
Run = List (UdpAddr × List ℕ) × Ending

-- A message before the rest of the turns: its answer goes out, and an error is only logged. The index
-- out of range, of an address of neither 4 nor 16 bytes, is a panic that nothing recovers.
abbrev pub handled : UdpAddr → Result StunError (List ℕ) → Run → Run
handled addr (ok bytes) rest = ((addr, bytes) ∷ rest.0, rest.1)
handled addr (err index_out_of_range) rest = ([], crashed)
handled addr (err message_too_short) rest = rest
handled addr (err invalid_magic_cookie) rest = rest
handled addr (err (unsupported_message_type n)) rest = rest
handled addr (err message_truncated) rest = rest

-- A turn of a server that was open at its start, before the rest of the turns.
abbrev pub take_turn : Incoming → Bool → Run → Run
take_turn (datagram bytes addr) closed rest =
    handled addr (handle_message (take buffer_size bytes) addr) rest
take_turn timeout closed rest = rest
take_turn read_error closed rest = if closed then ([], returned) else rest

unfoldable pub serve : List Turn → Run
serve [] = ([], reading)
serve (t ∷ ts) =
    let rest = serve ts in
    if t.closed then ([], returned) else take_turn t.incoming t.closed_after rest

-- The answers to all datagrams, each by itself.
abbrev pub answer_of : UdpAddr → Result StunError (List ℕ) → List (UdpAddr × List ℕ)
answer_of addr (ok bytes) = (addr, bytes) ∷ []
answer_of addr (err e) = []

abbrev pub answer_to : Incoming → List (UdpAddr × List ℕ)
answer_to (datagram bytes addr) = answer_of addr (handle_message (take 576 bytes) addr)
answer_to timeout = []
answer_to read_error = []

abbrev pub answers : List Turn → List (UdpAddr × List ℕ)
answers [] = []
answers (t ∷ ts) = answer_to t.incoming ++ answers ts

-- A datagram comes from an address of 4 or 16 bytes.
abbrev pub IsFromUdp : Incoming → Type 0
IsFromUdp (datagram bytes addr) = IsUdpIp addr.ip
IsFromUdp timeout = Unit
IsFromUdp read_error = Unit

handled-answer_of :
    (bytes : List ℕ) (addr : UdpAddr) (rest : Run)
    → IsUdpIp addr.ip
    → handled addr (handle_message bytes addr) rest
      ≡ (answer_of addr (handle_message bytes addr) ++ rest.0, rest.1)
unfolding handle_message
handled-answer_of bytes addr rest v =
    let (ip, m, is, e) = build_binding_response-ok (take 12 (drop 8 bytes)) addr v in
    ground (arith, e)

take_turn-open :
    (i : Incoming) (closed : Bool) (rest : Run)
    → closed ≡ false
    → IsFromUdp i
    → take_turn i closed rest ≡ (answer_to i ++ rest.0, rest.1)
take_turn-open (datagram bytes addr) closed rest n v =
    handled-answer_of (take 576 bytes) addr rest v
take_turn-open timeout closed rest n v = refl
take_turn-open read_error closed rest n v = rw n refl

-- While the server is not closed, and datagrams come from addresses of 4 or 16 bytes, the loop goes
-- on over timeouts, errors and messages that it cannot handle, and answers each datagram by itself,
-- by its first 576 bytes. It returns at the turn that finds the server closed, and sends no more.
pub serve-answers :
    (ts : List Turn) (t : Turn) (us : List Turn)
    → All (λ u. (u.closed ≡ false) × (u.closed_after ≡ false) × IsFromUdp u.incoming) ts
    → t.closed ≡ true
    → serve (ts ++ (t ∷ us)) ≡ (answers ts, returned)
unfolding serve
serve-answers [] t us o c = rw (c, serve) refl
serve-answers (v ∷ ts) t us o c =
    rw (o.0.0, serve)
      (take_turn-open v.incoming v.closed_after (serve (ts ++ (t ∷ us))) o.0.1 o.0.2
        ∙ rw (serve-answers ts t us o.1 c) refl)

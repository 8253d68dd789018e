-- ===== src/Agent/Proxy.antt =====
-- internal/agent/tunnel.go: the two loops of `ProxyDataFrames` between a shell and a transport, and
-- the results of `ProxyDataFrames` and `ProxyData`.
pub mod Ending
pub mod Delivery
pub mod EndToEnd
pub mod ThroughRelay
mod Tests
use cloudbridge.Common.{
  ℕ, zero, suc, Bool, true, false, List, [], ◌∷◌, ◌&&◌, nat_eq, if◌then◌else◌, Option, none, some,
  Result, ok, err,
}
use cloudbridge.Common.Reader.{IoError}
use cloudbridge.Common.Writer.{Writer}
use cloudbridge.Protocol.Frame.{Frame, FrameError, frame_data, marshal_binary, unmarshal_binary}
use cloudbridge.Tunnel.Interface.{Transport}
use cloudbridge.Tunnel.Relay.{empty_frame}

pub data ProxyError (E : Type 0) : Type 0 where
  shell_read : ProxyError E
  shell_write : IoError → ProxyError E
  bad_frame : FrameError → ProxyError E
  transport_failed : E → ProxyError E

abbrev pub data_frame : ℕ → List ℕ → Frame
data_frame id bytes = record { stream_id = id; frame_type = frame_data; payload = bytes }

abbrev pub for_shell : ℕ → Frame → Bool
for_shell id f = nat_eq f.stream_id id && nat_eq f.frame_type frame_data

module _ {T E : Type 0} (net : Transport T E) where
  -- Shell to transport. A read of the shell gives the next chunk. `shell_read` says that all chunks
  -- have gone out and the loop is at the read behind the last one, whose end is a `ShellEnd`.
  unfoldable pub send_chunks : ℕ → List (List ℕ) → T → ProxyError E × T
  send_chunks id [] t = (shell_read, t)
  send_chunks id (bytes ∷ rest) t = elim (marshal_binary (data_frame id bytes)) [
    | err e ↦ (bad_frame e, t)
    | ok wire ↦ elim (net.write_frame wire t).0 [
      | some e ↦ (transport_failed e, (net.write_frame wire t).1)
      | none ↦ send_chunks id rest (net.write_frame wire t).1
    ]
  ]

  module _ {S : Type 0} (Shell : Writer S) where
    -- A frame of the shell's stream with data is written to the shell, any other is dropped.
    unfoldable pub deliver_frame : ℕ → Frame → S → Option IoError × S
    deliver_frame id f sh =
        if for_shell id f
        then ((Shell.write f.payload sh).1, (Shell.write f.payload sh).2)
        else (none, sh)

    -- Transport to shell; `none` says that the fuel ran out.
    unfoldable pub receive_frames : ℕ → ℕ → T → S → Option (ProxyError E) × T × S
    unfolding deliver_frame
    receive_frames zero id t sh = (none, t, sh)
    receive_frames (suc fuel) id t sh = elim (net.read_frame t) [
      | err e ↦ (some (transport_failed e), t, sh)
      | ok (wire, t') ↦ elim (unmarshal_binary empty_frame wire).1 [
        | some e ↦ (some (bad_frame e), t', sh)
        | none ↦ elim (deliver_frame id (unmarshal_binary empty_frame wire).0 sh).0 [
          | some e ↦ (
            some (shell_write e),
            t',
            (deliver_frame id (unmarshal_binary empty_frame wire).0 sh).1,
          )
          | none ↦
              receive_frames fuel id t'
                (deliver_frame id (unmarshal_binary empty_frame wire).0 sh).1
        ]
      ]
    ]

    -- With a round for every frame that can still come.
    unfoldable pub receive_all : ℕ → T → S → Option (ProxyError E) × T × S
    receive_all id t sh = receive_frames (suc (net.size t)) id t sh

-- How the shell's reads go on behind its chunks: a read fails, and the bytes that come with its error
-- are dropped, or it blocks.
pub data ShellEnd : Type 0 where
  fails : List ℕ → ShellEnd
  blocks : ShellEnd

-- The error with which the loop from the shell ends, or none where it stays in a read.
abbrev pub sent_error : {E : Type 0} → ShellEnd → ProxyError E → Option (ProxyError E)
sent_error (fails bytes) e = some e
sent_error blocks shell_read = none
sent_error blocks (shell_write x) = some (shell_write x)
sent_error blocks (bad_frame x) = some (bad_frame x)
sent_error blocks (transport_failed x) = some (transport_failed x)

-- `for err := range errCh { if err != nil { return err } }`, over the errors in the order in which
-- the loops ended. The channel is closed in `ProxyData` and not in `ProxyDataFrames`, where the
-- loop waits for ever behind the last one.
pub data Returned (E : Type 0) : Type 0 where
  returned : Option E → Returned E
  waits_forever : Returned E

abbrev pub first_error : {E : Type 0} → Bool → List (Option E) → Returned E
first_error true [] = returned none
first_error false [] = waits_forever
first_error ended (none ∷ es) = first_error ended es
first_error ended (some e ∷ es) = returned (some e)

abbrev pub in_order : {A : Type 0} → Bool → A → A → List A
in_order true a b = a ∷ b ∷ []
in_order false a b = b ∷ a ∷ []

-- What `ProxyData` returns, by the errors of its two copies and which ended first.
abbrev pub proxy_data : {E : Type 0} → Bool → Option E → Option E → Returned E
proxy_data first a b = first_error true (in_order first a b)

module _ {T E S : Type 0} (net : Transport T E) (Shell : Writer S) where
  -- `ProxyDataFrames`: what it returns, and the transport and the shell after it. The two loops use
  -- the two directions of the transport. `wg.Wait` waits for both, and behind both the shell is
  -- closed, by `close_shell`.
  unfoldable pub proxy_data_frames :
      (S → S) → Bool → ℕ → List (List ℕ) → ShellEnd → T → S → Returned (ProxyError E) × T × S
  proxy_data_frames close_shell first id chunks end t sh =
      let (e, t') = send_chunks net id chunks t in
      let (e', t'', sh') = receive_all net Shell id t' sh in
      elim (sent_error end e) [
        | none ↦ (waits_forever, t'', sh')
        | some x ↦ (first_error false (in_order first (some x) e'), t'', close_shell sh')
      ]

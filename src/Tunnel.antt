-- ===== src/Tunnel.antt =====
-- internal/tunnel/tunnel.go: the transport interface, and the tunnel over a transport.
pub mod Interface
pub mod Stream
pub mod Relay
use cloudbridge.Common.{Bool, true, false, if◌then◌else◌, Option, none, some, Result, ok, err}
use cloudbridge.Signal.Client.{Panic, close_of_closed_channel}
use cloudbridge.Tunnel.Interface.{Transport}

-- `closed` says that the channel of that name was closed.
pub record Tunnel (T : Type 0) : Type 0 where
  pub transport : T
  pub closed : Bool

abbrev pub new_tunnel : {T : Type 0} → T → Tunnel T
new_tunnel t = record { transport = t; closed = false }

abbrev pub is_closed : {T : Type 0} → Tunnel T → Bool
is_closed tun = tun.closed

module _ {T E : Type 0} (net : Transport T E) where
  unfoldable pub open_tunnel : Tunnel T → Option E × Tunnel T
  open_tunnel tun =
      let (e, t) = net.open_transport tun.transport in (e, record tun { transport = t })

  -- A second call panics.
  unfoldable pub close_tunnel : Tunnel T → Result Panic (Option E × Tunnel T)
  close_tunnel tun =
      if tun.closed
      then err close_of_closed_channel
      else (let (e, t) = net.close_transport tun.transport in
          ok (e, record { transport = t; closed = true }))

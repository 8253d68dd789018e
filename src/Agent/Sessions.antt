-- ===== src/Agent/Sessions.antt =====
-- internal/agent/tunnel.go: the agent's `SessionManager`, over any transport. Sessions are shared by
-- pointer, so they stand in a store; a pointer is a number.
pub mod Removal
pub mod Overwriting
mod Tests
use cloudbridge.Common.{
  ℕ, suc, Bool, true, false, List, [], ◌∷◌, String, string_eq, nat_eq, if◌then◌else◌, Option, none,
  some, map, Result, ok, err, ◌>>=◌,
}
use cloudbridge.Common.Map.{Map, lookup, insert, delete}
use cloudbridge.Signal.Client.{Panic, close_of_closed_channel}
use cloudbridge.Tunnel.{Tunnel, new_tunnel, open_tunnel, close_tunnel}
use cloudbridge.Tunnel.Interface.{Transport}

-- `done` says that the channel of that name was closed, `shell` whether the shell, if there is one,
-- has been closed.
pub record Session (T : Type 0) : Type 0 where
  pub id : String
  pub tunnel : Tunnel T
  pub shell : Option Bool
  pub done : Bool

pub record SessionManager (T : Type 0) : Type 0 where
  pub cells : ℕ → Session T
  pub next : ℕ
  pub sessions : Map String ℕ

-- `cells` is the store of sessions that are not made yet.
abbrev pub new_session_manager : {T : Type 0} → (ℕ → Session T) → SessionManager T
new_session_manager cells = record { cells = cells; next = 0; sessions = [] }

abbrev pub store_session : {T : Type 0} → ℕ → Session T → (ℕ → Session T) → ℕ → Session T
store_session s x cells t = if nat_eq s t then x else cells t

abbrev pub get_session : {T : Type 0} → String → SessionManager T → Option ℕ
get_session id sm = lookup id sm.sessions

-- In the order of the map's entries; Go's order is not determined.
abbrev pub list_sessions : {T : Type 0} → SessionManager T → List (Session T)
list_sessions sm = map (λ (e : String × ℕ). sm.cells e.1) sm.sessions

module _ {T E : Type 0} (net : Transport T E) where
  -- `t` is the transport that the call makes for the relay's address.
  unfoldable pub create_session : String → T → SessionManager T → Result E ℕ × SessionManager T
  create_session id t sm =
      let (e, tun) = open_tunnel net (new_tunnel t) in
      elim e [
        | some x ↦ (err x, sm)
        | none ↦ (
          ok sm.next,
          record {
            cells =
                store_session sm.next (record { id = id; tunnel = tun; shell = none; done = false })
                  sm.cells;
            next = suc sm.next;
            sessions = insert id sm.next sm.sessions;
          },
        )
      ]

  -- `Close`: the error of the tunnel and the session after it.
  unfoldable pub close : Session T → Result Panic (Option E × Session T)
  close x = if x.done then err close_of_closed_channel else (do
    (e, tun) ← close_tunnel net x.tunnel
    ok (
      e,
      record x {
        tunnel = tun;
        shell = elim x.shell [ none ↦ none | some b ↦ some true ];
        done = true;
      },
    ))

  -- The error of the tunnel is dropped.
  unfoldable pub remove_session : String → SessionManager T → Result Panic (SessionManager T)
  remove_session id sm = elim (lookup id sm.sessions) [
    | none ↦ ok sm
    | some s ↦ do
      (e, x) ← close (sm.cells s)
      ok (record sm { cells = store_session s x sm.cells; sessions = delete id sm.sessions })
  ]

  -- What the agent asks of the manager over time.
  pub data Operation : Type 0 where
    creates : String → T → Operation
    removes : String → Operation

  unfoldable pub run_operations :
      List Operation → SessionManager T → Result Panic (SessionManager T)
  run_operations [] sm = ok sm
  run_operations (creates id t ∷ os) sm = run_operations os (create_session id t sm).1
  run_operations (removes id ∷ os) sm = remove_session id sm >>= run_operations os

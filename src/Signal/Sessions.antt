-- ===== src/Signal/Sessions.antt =====
-- internal/signal/session.go: the sessions between apps and agents. Two maps share the sessions by
-- pointer, so a session stands in a heap of the manager's own; `next` is the next free pointer.
pub mod Index
pub mod Removal
pub mod Peers
pub mod Ids
mod Tests
use cloudbridge.Protocol.Json.{Strings}
use cloudbridge.Common.{
  ℕ, suc, ◌≡◌, Bool, true, false, List, [], ◌∷◌, ◌++◌, String, ◌==◌, string_eq, nat_eq, ◌||◌,
  if◌then◌else◌, Option, none, some, map, Result, ok,
}
use cloudbridge.Common.Map.{Map, lookup, insert, delete}
use cloudbridge.Signal.Client.{Client, Heap, Message, Panic, try_send}

pub data SessionStatus : Type 0 where
  pending accepted rejected active closed : SessionStatus

pub record Session : Type 0 where
  pub id : String
  pub initiator : ℕ
  pub responder : Option ℕ
  pub device_id : String
  pub protocols : Strings
  pub created_at : ℕ
  pub status : SessionStatus

pub record SessionManager : Type 0 where
  pub cells : ℕ → Session
  pub next : ℕ
  pub sessions : Map String ℕ
  pub by_client : Map String (List ℕ)

-- `NewSessionManager`; `cells` is the store of sessions that are not made yet.
abbrev pub new_session_manager : (ℕ → Session) → SessionManager
new_session_manager cells = record { cells = cells; next = 0; sessions = []; by_client = [] }

abbrev pub store_session : ℕ → Session → (ℕ → Session) → ℕ → Session
store_session s x cells t = if nat_eq s t then x else cells t

abbrev pub or_empty : Option (List ℕ) → List ℕ
or_empty none = []
or_empty (some xs) = xs

-- `sm.byClient[id]`, which is nil for an unknown client.
abbrev pub client_sessions : String → SessionManager → List ℕ
client_sessions id sm = or_empty (lookup id sm.by_client)

-- `sm.byClient[id] = append(sm.byClient[id], session)`
abbrev pub append_session : String → ℕ → SessionManager → Map String (List ℕ)
append_session id s sm = insert id (client_sessions id sm ++ (s ∷ [])) sm.by_client

unfoldable pub create_session :
    String → ℕ → String → Strings → ℕ → Heap → SessionManager → ℕ × SessionManager
create_session id initiator device protocols now h sm =
    let session : Session = record {
      id = id;
      initiator = initiator;
      responder = none;
      device_id = device;
      protocols = protocols;
      created_at = now;
      status = pending;
    } in
    (
      sm.next,
      record {
        cells = store_session sm.next session sm.cells;
        next = suc sm.next;
        sessions = insert id sm.next sm.sessions;
        by_client = append_session (h initiator).id sm.next sm;
      },
    )

unfoldable pub accept_session : String → ℕ → Heap → SessionManager → Option ℕ × SessionManager
accept_session id responder h sm = elim (lookup id sm.sessions) [
  | none ↦ (none, sm)
  | some s ↦ (
    some s,
    record sm {
      cells =
          store_session s (record (sm.cells s) { responder = some responder; status = accepted })
            sm.cells;
      by_client = append_session (h responder).id s sm;
    },
  )
]

-- What `RejectSession`, `ActivateSession` and `CloseSession` have in common.
unfoldable pub set_status : SessionStatus → String → SessionManager → Option ℕ × SessionManager
set_status st id sm = elim (lookup id sm.sessions) [
  | none ↦ (none, sm)
  | some s ↦
      (some s, record sm { cells = store_session s (record (sm.cells s) { status = st }) sm.cells })
]

abbrev pub reject_session : String → SessionManager → Option ℕ × SessionManager
reject_session = set_status rejected

abbrev pub activate_session : String → SessionManager → Option ℕ × SessionManager
activate_session = set_status active

abbrev pub close_session : String → SessionManager → Option ℕ × SessionManager
close_session = set_status closed

unfoldable pub get_session : String → SessionManager → Option ℕ
get_session id sm = lookup id sm.sessions

-- `session.Responder != nil && session.Responder.ID == client.ID`
abbrev pub is_responder : Option ℕ → String → Heap → Bool
is_responder none id h = false
is_responder (some r) id h = (h r).id == id

-- The other client of a session: `none` for Go's false, `some none` for a nil client with true.
unfoldable pub get_peer : String → ℕ → Heap → SessionManager → Option (Option ℕ)
get_peer id client h sm = elim (lookup id sm.sessions) [
  | none ↦ none
  | some s ↦
      if (h (sm.cells s).initiator).id == (h client).id
      then some (sm.cells s).responder
      else if is_responder (sm.cells s).responder (h client).id h
      then some (some (sm.cells s).initiator)
      else none
]

-- The loop of `RemoveClientSessions`.
unfoldable pub remove_each : List ℕ → SessionManager → SessionManager
remove_each [] sm = sm
remove_each (s ∷ ss) sm = remove_each ss (record sm {
  cells = store_session s (record (sm.cells s) { status = closed }) sm.cells;
  sessions = delete (sm.cells s).id sm.sessions;
})

unfoldable pub remove_client_sessions : String → SessionManager → SessionManager
remove_client_sessions id sm =
    let sm' = remove_each (client_sessions id sm) sm in
    record sm' { by_client = delete id sm'.by_client }

-- In the order of the map's entries; Go's order is not determined.
unfoldable pub list_sessions : SessionManager → List Session
list_sessions sm = map (λ (e : String × ℕ). sm.cells e.1) sm.sessions

-- A nil peer counts as none.
unfoldable pub deliver : Option (Option ℕ) → Message → Heap → Result Panic (Bool × Heap)
unfolding try_send
deliver none msg h = ok (false, h)
deliver (some none) msg h = ok (false, h)
deliver (some (some p)) msg h = try_send p msg h

unfoldable pub route_to_peer :
    String → ℕ → Message → Heap → SessionManager → Result Panic (Bool × Heap)
unfolding deliver
route_to_peer id sender msg h sm = deliver (get_peer id sender h sm) msg h

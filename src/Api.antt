-- ===== src/Api.antt =====
-- internal/api/device.go: the REST API over the hub and the session manager. `format` is the time's
-- text, as Go's `Format` gives it.
pub mod Device
pub mod Stats
mod Tests
use cloudbridge.Common.{
  ℕ, List, [], ◌∷◌, map, true, String, string_eq, ◌==◌, if◌then◌else◌, none, some, length,
}
use cloudbridge.Protocol.Json.{Json, bool, num, str, arr, Items, nil, cons, obj, field, end}
use cloudbridge.Signal.Client.{Heap}
use cloudbridge.Signal.Hub.{
  DeviceInfo, Hub, find_client_by_device, find_device_by_client, list_devices,
}
use cloudbridge.Signal.Sessions.{
  Session, SessionStatus, pending, accepted, rejected, active, closed, SessionManager,
  list_sessions,
}
use Prim.Native.String.{◌++◌ as concat}

-- What a handler writes: the status and the body.
pub record Response : Type 0 where
  pub status : ℕ
  pub body : Json

abbrev pub write_json : ℕ → Json → Response
write_json status body = record { status = status; body = body }

abbrev pub write_error : ℕ → String → Response
write_error status message = write_json status (obj (field "error" (str message) end))

abbrev pub json_items : List Json → Items
json_items [] = nil
json_items (v ∷ vs) = cons v (json_items vs)

-- `DeviceResponse`: a device in the hub is online.
abbrev pub device_response : (ℕ → String) → DeviceInfo → Json
device_response format d = obj (
    field "id" (str d.id) (
      field "name" (str d.name) (
        field "platform" (str d.platform) (
          field "version" (str d.version) (
            field "online" (bool true) (
              field "registered" (str (format d.registered))
                (field "last_seen" (str (format d.last_seen)) end)))))))

unfoldable pub list_devices_handler : (ℕ → String) → Hub → Response
unfolding list_devices
list_devices_handler format u =
    write_json 200 (arr (json_items (map (device_response format) (list_devices u))))

abbrev pub device_not_found : String → Response
device_not_found id = write_error 404 (concat "device not found: " id)

unfoldable pub get_device : (ℕ → String) → String → Heap → Hub → Response
unfolding find_client_by_device find_device_by_client
get_device format id h u =
    if id == "" then write_error 400 "missing device ID" else elim (find_client_by_device id u) [
      | none ↦ device_not_found id
      | some p ↦ elim (find_device_by_client p h u) [
        | none ↦ device_not_found id
        | some d ↦ write_json 200 (device_response format d)
      ]
    ]

abbrev pub status_text : SessionStatus → String
status_text pending = "pending"
status_text accepted = "accepted"
status_text rejected = "rejected"
status_text active = "active"
status_text closed = "closed"

-- `SessionResponse`; the protocols are left empty.
abbrev pub session_response : (ℕ → String) → Session → Json
session_response format s = obj (
    field "id" (str s.id) (
      field "device_id" (str s.device_id) (
        field "status" (str (status_text s.status))
          (field "protocols" (str "") (field "created_at" (str (format s.created_at)) end)))))

unfoldable pub list_sessions_handler : (ℕ → String) → SessionManager → Response
unfolding list_sessions
list_sessions_handler format sm =
    write_json 200 (arr (json_items (map (session_response format) (list_sessions sm))))

unfoldable pub get_stats : Hub → SessionManager → Response
unfolding list_devices list_sessions
get_stats u sm = write_json 200 (
    obj (
      field "devices_online" (num (length (list_devices u)))
        (field "sessions_active" (num (length (list_sessions sm))) end)))

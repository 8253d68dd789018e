-- ===== src/Api/Device.antt =====
-- device.go: one device by its ID.
use cloudbridge.Common.{
  ℕ, ◌≡◌, ◌≢◌, ◌∙◌, String, string_eq, Option, none, some, arith, Option-cases, inl, inr,
}
use cloudbridge.Common.Map.{lookup}
use cloudbridge.Signal.Client.{Heap}
use cloudbridge.Signal.Hub.{
  DeviceInfo, Hub, find_client_by_device, find_device_by_client, register_device,
}
use cloudbridge.Signal.Hub.Registration.{first_registered, register_device_lem}
use cloudbridge.Signal.Hub.Invariant.{IsWellFormed}
use cloudbridge.Api.{Response, write_json, device_response, device_not_found, get_device}

-- The answer for what the hub has on a device.
abbrev pub device_answer : (ℕ → String) → String → Option DeviceInfo → Response
device_answer format id none = device_not_found id
device_answer format id (some d) = write_json 200 (device_response format d)

-- On a well-formed hub the answer for a named device is the hub's entry for it: status 200 with its
-- data where it is registered, 404 where it is not.
pub get_device_lem :
    (format : ℕ → String) (id : String) (h : Heap) (u : Hub)
    → IsWellFormed h u
    → id ≢ ""
    → get_device format id h u ≡ device_answer format id (lookup id u.devices)
unfolding get_device find_client_by_device find_device_by_client
get_device_lem format id h u w n = elim (Option-cases (lookup id u.by_device)) [
  | inl e ↦ ground (arith, e, string_eq.beq_iff id "", (w.paired id).0 e)
  | inr (p, e) ↦ ground (arith, e, string_eq.beq_iff id "", w.owned id p e)
]

get_device-found :
    (format : ℕ → String) (id : String) (p : ℕ) (d : DeviceInfo) (h : Heap) (u : Hub)
    → id ≢ ""
    → find_client_by_device id u ≡ some p
    → find_device_by_client p h u ≡ some d
    → get_device format id h u ≡ write_json 200 (device_response format d)
unfolding get_device
get_device-found format id p d h u n e f = ground (arith, e, f, string_eq.beq_iff id "")

-- After a client has registered one named device and then, with no message between, another named
-- device, GetDevice answers a request for the first with status 200 and the data of the second.
pub get_device-second :
    (format : ℕ → String) (p : ℕ) (first second : DeviceInfo) (t1 t2 t3 t4 : ℕ) (h : Heap) (u : Hub)
    → first.id ≢ second.id
    → first.id ≢ ""
    → second.id ≢ ""
    → let (h1, u1) = register_device p first t1 t2 h u in
      let (h2, u2) = register_device p second t3 t4 h1 u1 in
      get_device format first.id h2 u2
      ≡ write_json 200 (
          device_response format (record second {
            registered = first_registered (lookup second.id u1.devices) t3;
            last_seen = t4;
          }))
get_device-second format p first second t1 t2 t3 t4 h u ne n1 n2 =
    let (h1, u1) = register_device p first t1 t2 h u in
    let (h2, u2) = register_device p second t3 t4 h1 u1 in
    let (mine, info, others) = register_device_lem p second t3 t4 h1 u1 n2 in
    get_device-found format first.id p _ h2 u2 n1
      (others first.id
        ∙ ground (
          arith,
          string_eq.beq_iff second.id first.id,
          (register_device_lem p first t1 t2 h u n1).0,
        ))
      info

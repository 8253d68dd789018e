-- ===== src/Protocol/Messages.antt =====
-- internal/protocol/messages.go: the messages of the signal channel and their JSON.
pub mod RoundTrip
use cloudbridge.Common.{
  ℕ, Bool, true, false, List, [], ◌∷◌, String, string_eq, ◌==◌, if◌then◌else◌, Option, none, some,
}
use cloudbridge.Protocol.Json.{
  Json, null, bool, num, str, arr, Fields, obj, end, field, member, raw_member, as_string, as_bool,
  as_int, as_strings, as_struct, ℤ, int_json, Strings, strings_json, ◌>>=◌,
}

-- The values of the `type` field.
abbrev pub msg_type_register : String
msg_type_register = "register"

abbrev pub msg_type_register_ack : String
msg_type_register_ack = "register_ack"

abbrev pub msg_type_heartbeat : String
msg_type_heartbeat = "heartbeat"

abbrev pub msg_type_heartbeat_ack : String
msg_type_heartbeat_ack = "heartbeat_ack"

abbrev pub msg_type_connect_request : String
msg_type_connect_request = "connect_request"

abbrev pub msg_type_connect_response : String
msg_type_connect_response = "connect_response"

abbrev pub msg_type_disconnect : String
msg_type_disconnect = "disconnect"

abbrev pub msg_type_sdp_offer : String
msg_type_sdp_offer = "sdp_offer"

abbrev pub msg_type_sdp_answer : String
msg_type_sdp_answer = "sdp_answer"

abbrev pub msg_type_ice_candidate : String
msg_type_ice_candidate = "ice_candidate"

abbrev pub msg_type_transport_negotiate : String
msg_type_transport_negotiate = "transport_negotiate"

abbrev pub msg_type_transport_ready : String
msg_type_transport_ready = "transport_ready"

abbrev pub msg_type_error : String
msg_type_error = "error"

pub record RegisterPayload : Type 0 where
  pub device_id : String
  pub device_name : String
  pub platform : String
  pub version : String
  pub public_key : String

pub record RegisterAckPayload : Type 0 where
  pub token : String
  pub expires_at : ℤ

pub record HeartbeatPayload : Type 0 where
  pub timestamp : ℤ

pub record HeartbeatAckPayload : Type 0 where
  pub server_time : ℤ

pub record ConnectRequestPayload : Type 0 where
  pub session_id : String
  pub device_id : String
  pub protocols : Strings

pub record ConnectResponsePayload : Type 0 where
  pub session_id : String
  pub accepted : Bool
  pub reason : String

pub record DisconnectPayload : Type 0 where
  pub session_id : String
  pub reason : String

-- `SDPOfferPayload` and `SDPAnswerPayload` have the same fields.
pub record SdpPayload : Type 0 where
  pub session_id : String
  pub sdp : String

pub record IceCandidatePayload : Type 0 where
  pub session_id : String
  pub candidate : String

pub record TransportNegotiatePayload : Type 0 where
  pub session_id : String
  pub mode : String
  pub relay_endpoint : String

pub record ErrorPayload : Type 0 where
  pub code : String
  pub message : String

-- A field with `omitempty`, at the end of an object.
abbrev pub omit_empty : String → String → Fields
omit_empty k v = if v == "" then end else field k (str v) end

-- `json.Marshal` of each payload, and `json.Unmarshal` into it.
unfoldable pub marshal_register : RegisterPayload → Json
marshal_register p = obj (
    field "device_id" (str p.device_id) (
      field "device_name" (str p.device_name) (
        field "platform" (str p.platform)
          (field "version" (str p.version) (field "public_key" (str p.public_key) end)))))

unfoldable pub unmarshal_register : Json → Option RegisterPayload
unmarshal_register v = do
  fs ← as_struct v
  id ← as_string (member "device_id" fs)
  name ← as_string (member "device_name" fs)
  platform ← as_string (member "platform" fs)
  version ← as_string (member "version" fs)
  key ← as_string (member "public_key" fs)
  some (record {
    device_id = id;
    device_name = name;
    platform = platform;
    version = version;
    public_key = key;
  })

unfoldable pub marshal_register_ack : RegisterAckPayload → Json
marshal_register_ack p =
    obj (field "token" (str p.token) (field "expires_at" (int_json p.expires_at) end))

unfoldable pub unmarshal_register_ack : Json → Option RegisterAckPayload
unmarshal_register_ack v = do
  fs ← as_struct v
  token ← as_string (member "token" fs)
  expires ← as_int (member "expires_at" fs)
  some (record { token = token; expires_at = expires })

unfoldable pub unmarshal_heartbeat : Json → Option HeartbeatPayload
unmarshal_heartbeat v = do
  fs ← as_struct v
  t ← as_int (member "timestamp" fs)
  some (record { timestamp = t })

unfoldable pub marshal_heartbeat_ack : HeartbeatAckPayload → Json
marshal_heartbeat_ack p = obj (field "server_time" (int_json p.server_time) end)

unfoldable pub marshal_connect_request : ConnectRequestPayload → Json
marshal_connect_request p = obj (
    field "session_id" (str p.session_id)
      (field "device_id" (str p.device_id) (field "protocols" (strings_json p.protocols) end)))

unfoldable pub unmarshal_connect_request : Json → Option ConnectRequestPayload
unmarshal_connect_request v = do
  fs ← as_struct v
  session ← as_string (member "session_id" fs)
  device ← as_string (member "device_id" fs)
  protocols ← as_strings (member "protocols" fs)
  some (record { session_id = session; device_id = device; protocols = protocols })

unfoldable pub marshal_connect_response : ConnectResponsePayload → Json
marshal_connect_response p = obj (
    field "session_id" (str p.session_id)
      (field "accepted" (bool p.accepted) (omit_empty "reason" p.reason)))

unfoldable pub unmarshal_connect_response : Json → Option ConnectResponsePayload
unmarshal_connect_response v = do
  fs ← as_struct v
  session ← as_string (member "session_id" fs)
  accepted ← as_bool (member "accepted" fs)
  reason ← as_string (member "reason" fs)
  some (record { session_id = session; accepted = accepted; reason = reason })

unfoldable pub marshal_disconnect : DisconnectPayload → Json
marshal_disconnect p = obj (field "session_id" (str p.session_id) (omit_empty "reason" p.reason))

unfoldable pub unmarshal_disconnect : Json → Option DisconnectPayload
unmarshal_disconnect v = do
  fs ← as_struct v
  session ← as_string (member "session_id" fs)
  reason ← as_string (member "reason" fs)
  some (record { session_id = session; reason = reason })

unfoldable pub marshal_sdp : SdpPayload → Json
marshal_sdp p = obj (field "session_id" (str p.session_id) (field "sdp" (str p.sdp) end))

unfoldable pub unmarshal_sdp : Json → Option SdpPayload
unmarshal_sdp v = do
  fs ← as_struct v
  session ← as_string (member "session_id" fs)
  sdp ← as_string (member "sdp" fs)
  some (record { session_id = session; sdp = sdp })

unfoldable pub marshal_ice_candidate : IceCandidatePayload → Json
marshal_ice_candidate p =
    obj (field "session_id" (str p.session_id) (field "candidate" (str p.candidate) end))

unfoldable pub unmarshal_ice_candidate : Json → Option IceCandidatePayload
unmarshal_ice_candidate v = do
  fs ← as_struct v
  session ← as_string (member "session_id" fs)
  candidate ← as_string (member "candidate" fs)
  some (record { session_id = session; candidate = candidate })

unfoldable pub marshal_transport_negotiate : TransportNegotiatePayload → Json
marshal_transport_negotiate p = obj (
    field "session_id" (str p.session_id)
      (field "mode" (str p.mode) (omit_empty "relay_endpoint" p.relay_endpoint)))

unfoldable pub unmarshal_transport_negotiate : Json → Option TransportNegotiatePayload
unmarshal_transport_negotiate v = do
  fs ← as_struct v
  session ← as_string (member "session_id" fs)
  mode ← as_string (member "mode" fs)
  endpoint ← as_string (member "relay_endpoint" fs)
  some (record { session_id = session; mode = mode; relay_endpoint = endpoint })

unfoldable pub marshal_error : ErrorPayload → Json
marshal_error p = obj (field "code" (str p.code) (field "message" (str p.message) end))

-- `SignalMessage`; the data are missing where the field is.
pub record SignalMessage : Type 0 where
  pub kind : String
  pub body : Option Json

-- `Encode(msgType, payload)` of a payload that is marshalled: both steps succeed.
unfoldable pub encode : String → Json → Json
encode kind body = obj (field "type" (str kind) (field "data" body end))

-- `json.Unmarshal(raw, &envelope)`
unfoldable pub unmarshal_envelope : Json → Option SignalMessage
unmarshal_envelope v = do
  fs ← as_struct v
  kind ← as_string (member "type" fs)
  some (record { kind = kind; body = raw_member "data" fs })

-- `Decode(raw, nil)`: the type alone.
unfoldable pub decode_type : Option Json → Option String
unfolding unmarshal_envelope
decode_type none = none
decode_type (some raw) = do m ← unmarshal_envelope raw; some m.kind

-- `Decode(raw, &payload)`: the type, and the payload, which is left as it was without data.
unfoldable pub decode {ℓ} : {A : Type ℓ} → (Json → Option A) → A → Option Json → Option (String × A)
unfolding unmarshal_envelope
decode f payload none = none
decode f payload (some raw) = unmarshal_envelope raw >>= λ m. elim m.body [
  | none ↦ some (m.kind, payload)
  | some v ↦ f v >>= λ a. some (m.kind, a)
]

-- `TransportReadyPayload`
pub record TransportReadyPayload : Type 0 where
  pub session_id : String
  pub mode : String

unfoldable pub marshal_heartbeat : HeartbeatPayload → Json
marshal_heartbeat p = obj (field "timestamp" (int_json p.timestamp) end)

unfoldable pub unmarshal_heartbeat_ack : Json → Option HeartbeatAckPayload
unmarshal_heartbeat_ack v = do
  fs ← as_struct v
  t ← as_int (member "server_time" fs)
  some (record { server_time = t })

unfoldable pub marshal_transport_ready : TransportReadyPayload → Json
marshal_transport_ready p =
    obj (field "session_id" (str p.session_id) (field "mode" (str p.mode) end))

unfoldable pub unmarshal_transport_ready : Json → Option TransportReadyPayload
unmarshal_transport_ready v = do
  fs ← as_struct v
  session ← as_string (member "session_id" fs)
  mode ← as_string (member "mode" fs)
  some (record { session_id = session; mode = mode })

unfoldable pub unmarshal_error : Json → Option ErrorPayload
unmarshal_error v = do
  fs ← as_struct v
  code ← as_string (member "code" fs)
  message ← as_string (member "message" fs)
  some (record { code = code; message = message })

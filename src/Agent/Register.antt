-- ===== src/Agent/Register.antt =====
-- internal/agent/register.go: one connection of the agent to the signal server. What the network
-- does is an argument: which writes succeed, what comes in, and how the reading ends.
pub mod Reconnect
pub mod Answers
mod Tests
use cloudbridge.Common.{
  ℕ, suc, ◌+◌, Bool, true, false, List, [], ◌∷◌, ◌++◌, String, string_eq, ◌==◌, ◌||◌, if◌then◌else◌,
  Option, none, some,
}
use cloudbridge.Protocol.Json.{pos, Json, ◌>>=◌}
use cloudbridge.Protocol.Messages.{
  msg_type_register, msg_type_register_ack, msg_type_heartbeat, msg_type_connect_request,
  msg_type_connect_response, RegisterPayload, RegisterAckPayload, HeartbeatPayload,
  ConnectRequestPayload, ConnectResponsePayload, marshal_register, marshal_heartbeat,
  marshal_connect_response, unmarshal_register_ack, unmarshal_connect_request, encode, decode,
  decode_type,
}
use Prim.Native.String.{◌++◌ as concat}

pub record Config : Type 0 where
  pub server_url : String
  pub device_name : String
  pub platform : String
  pub version : String
  pub key_path : String

abbrev pub default_signal_url : String
default_signal_url = "ws://localhost:10980/signal"

abbrev pub default_config : Config
default_config = record {
  server_url = default_signal_url;
  device_name = "cloudbridge-agent";
  platform = "";
  version = "0.1.0";
  key_path = "";
}

-- `a.conn` is the link of the connection that was made last, and stands beside the agent.
pub record Agent : Type 0 where
  pub config : Config
  pub device_id : String
  pub token : String

abbrev pub or_unknown : Option String → String
or_unknown none = "unknown"
or_unknown (some name) = name

-- `digest` is the hash of a text and its encoding, `random` the text of the random bytes or their
-- error, `hostname` the machine's name or the error of the system.
unfoldable pub generate_device_id :
    (String → String) → Option String → Option String → Option String
generate_device_id digest hostname random = do
  bytes ← random
  some (concat "dev-" (digest (concat (or_unknown hostname) bytes)))

abbrev pub or_default : String → String → String
or_default default s = if s == "" then default else s

-- `New(cfg)`; `none` is the error of the random bytes.
unfoldable pub new_agent : Config → Option String → Option Agent
new_agent cfg id = do
  device_id ← id
  some (record {
    config = record cfg {
      server_url = or_default default_signal_url cfg.server_url;
      device_name = or_default "cloudbridge-agent" cfg.device_name;
    };
    device_id = device_id;
    token = "";
  })

-- A WebSocket connection: whether a write succeeds, by its number, how many there have been, and
-- the messages that have gone out.
pub record Link : Type 0 where
  pub accepts : ℕ → Bool
  pub writes : ℕ
  pub written : List Json

-- `a.conn.WriteMessage(...)` under the agent's lock: whether it gave no error.
unfoldable pub write_message : Json → Link → Bool × Link
write_message msg l =
    if l.accepts l.writes
    then (true, record l { writes = suc l.writes; written = l.written ++ (msg ∷ []) })
    else (false, record l { writes = suc l.writes })

abbrev pub get_platform : String
get_platform = "linux"

abbrev pub register_payload : Agent → RegisterPayload
register_payload a = record {
  device_id = a.device_id;
  device_name = a.config.device_name;
  platform = or_default get_platform a.config.platform;
  version = a.config.version;
  public_key = "";
}

unfoldable pub register : Agent → Link → Bool × Link
unfolding write_message
register a l = write_message (encode msg_type_register (marshal_register (register_payload a))) l

-- A tick of `heartbeatLoop`, which ends at a failed write; `now` is the time in milliseconds.
unfoldable pub heartbeat : ℕ → Bool → Link → Bool × Link
unfolding write_message
heartbeat now false l = (false, l)
heartbeat now true l =
    write_message (encode msg_type_heartbeat (marshal_heartbeat (record { timestamp = pos now }))) l

-- A message that cannot be decoded changes nothing.
unfoldable pub handle_register_ack : Option Json → Agent → Agent
handle_register_ack raw a =
    elim (decode unmarshal_register_ack (record { token = ""; expires_at = pos 0 }) raw) [
      | none ↦ a
      | some (kind, ack) ↦ record a { token = ack.token }
    ]

-- The answer to every request is yes; a failed write is only logged.
unfoldable pub handle_connect_request : Option Json → Link → Link
unfolding write_message
handle_connect_request raw l =
    elim (decode unmarshal_connect_request
      (record { session_id = ""; device_id = ""; protocols = none }) raw) [
        | none ↦ l
        | some (kind, req) ↦
            (write_message
              (encode msg_type_connect_response (
                marshal_connect_response
                  (record { session_id = req.session_id; accepted = true; reason = "" })))
              l).1
      ]

-- The body of the loop of `readMessages`: the other types are only logged.
unfoldable pub handle_incoming : Option Json → Agent → Link → Agent × Link
unfolding handle_register_ack handle_connect_request
handle_incoming raw a l = elim (decode_type raw) [
  | none ↦ (a, l)
  | some kind ↦
      if kind == msg_type_register_ack
      then (handle_register_ack raw a, l)
      else if kind == msg_type_connect_request
      then (a, handle_connect_request raw l)
      else (a, l)
]

-- What happens on a connection, in order: a message comes in, or the heartbeat's timer fires.
pub data Event : Type 0 where
  message : Option Json → Event
  tick : ℕ → Event

pub data ConnectError : Type 0 where
  dial_failed register_failed read_failed context_done : ConnectError

-- `readMessages` beside `heartbeatLoop`. The loop has no exit but an error: the read fails, or the
-- context is done.
unfoldable pub read_messages :
    List Event → ConnectError → Bool → Agent → Link → Option ConnectError × Agent × Link
unfolding handle_incoming heartbeat
read_messages [] ending beating a l = (some ending, a, l)
read_messages (message raw ∷ es) ending beating a l =
    let (a', l') = handle_incoming raw a l in read_messages es ending beating a' l'
read_messages (tick now ∷ es) ending beating a l =
    let (beating', l') = heartbeat now beating l in read_messages es ending beating' a l'

-- What the network does with one call of `connect`.
pub record Attempt : Type 0 where
  pub dials : Bool
  pub accepts : ℕ → Bool
  pub events : List Event
  pub cancelled : Bool

abbrev pub new_link : (ℕ → Bool) → Link
new_link accepts = record { accepts = accepts; writes = 0; written = [] }

abbrev pub ending_of : Bool → ConnectError
ending_of true = context_done
ending_of false = read_failed

-- `connect(ctx)`: its error, where nil is `none`, the agent and the link after it.
unfoldable pub connect : Attempt → Agent → Option ConnectError × Agent × Link
unfolding register read_messages
connect at a =
    if at.dials
    then (let (sent, l) = register a (new_link at.accepts) in
        if sent
        then read_messages at.events (ending_of at.cancelled) true a l
        else (some register_failed, a, l))
    else (some dial_failed, a, new_link at.accepts)

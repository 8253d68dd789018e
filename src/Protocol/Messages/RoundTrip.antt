-- ===== src/Protocol/Messages/RoundTrip.antt =====
-- messages.go: encoding, and then decoding.
use cloudbridge.Common.{◌≡◌, refl, List, [], ◌∷◌, String, string_eq, none, some, arith}
use cloudbridge.Protocol.Json.{
  Json, Strings, as_strings, strings_json, strings_items, items_strings,
}
use cloudbridge.Protocol.Messages.{
  RegisterPayload, ConnectRequestPayload, ConnectResponsePayload, DisconnectPayload, SdpPayload,
  IceCandidatePayload, TransportNegotiatePayload, marshal_register, unmarshal_register,
  marshal_connect_request, unmarshal_connect_request, marshal_connect_response,
  unmarshal_connect_response, marshal_disconnect, unmarshal_disconnect, marshal_sdp, unmarshal_sdp,
  marshal_ice_candidate, unmarshal_ice_candidate, marshal_transport_negotiate,
  unmarshal_transport_negotiate, encode, unmarshal_envelope,
}

items_strings-strings_items : (ss : List String) → items_strings (strings_items ss) ≡ some ss
items_strings-strings_items [] = refl
items_strings-strings_items (s ∷ ss) = rw (items_strings-strings_items ss)

strings_lem : (ss : Strings) → as_strings (strings_json ss) ≡ some ss
strings_lem none = refl
strings_lem (some ss) = rw (items_strings-strings_items ss)

register_lem : (p : RegisterPayload) → unmarshal_register (marshal_register p) ≡ some p
unfolding marshal_register unmarshal_register
register_lem p = refl

connect_request_lem :
    (p : ConnectRequestPayload) → unmarshal_connect_request (marshal_connect_request p) ≡ some p
unfolding marshal_connect_request unmarshal_connect_request
connect_request_lem p = rw (strings_lem p.protocols)

connect_response_lem :
    (p : ConnectResponsePayload) → unmarshal_connect_response (marshal_connect_response p) ≡ some p
unfolding marshal_connect_response unmarshal_connect_response
connect_response_lem p = ground (arith, string_eq.beq_iff p.reason "")

disconnect_lem : (p : DisconnectPayload) → unmarshal_disconnect (marshal_disconnect p) ≡ some p
unfolding marshal_disconnect unmarshal_disconnect
disconnect_lem p = ground (arith, string_eq.beq_iff p.reason "")

sdp_lem : (p : SdpPayload) → unmarshal_sdp (marshal_sdp p) ≡ some p
unfolding marshal_sdp unmarshal_sdp
sdp_lem p = refl

ice_candidate_lem :
    (p : IceCandidatePayload) → unmarshal_ice_candidate (marshal_ice_candidate p) ≡ some p
unfolding marshal_ice_candidate unmarshal_ice_candidate
ice_candidate_lem p = refl

transport_negotiate_lem :
    (p : TransportNegotiatePayload)
    → unmarshal_transport_negotiate (marshal_transport_negotiate p) ≡ some p
unfolding marshal_transport_negotiate unmarshal_transport_negotiate
transport_negotiate_lem p = ground (arith, string_eq.beq_iff p.relay_endpoint "")

encode_lem :
    (kind : String) (body : Json)
    → unmarshal_envelope (encode kind body) ≡ some (record { kind = kind; body = some body })
unfolding encode unmarshal_envelope
encode_lem kind body = refl

-- The payloads of these types, wrapped in an envelope by `Encode`, are found in the envelope under
-- their type and decoded to themselves.
pub unmarshal-marshal :
    ((kind : String) (body : Json)
      → unmarshal_envelope (encode kind body) ≡ some (record { kind = kind; body = some body }))
    × ((p : RegisterPayload) → unmarshal_register (marshal_register p) ≡ some p)
    × ((p : ConnectRequestPayload) → unmarshal_connect_request (marshal_connect_request p) ≡ some p)
    × ((p : ConnectResponsePayload)
        → unmarshal_connect_response (marshal_connect_response p) ≡ some p)
    × ((p : DisconnectPayload) → unmarshal_disconnect (marshal_disconnect p) ≡ some p)
    × ((p : SdpPayload) → unmarshal_sdp (marshal_sdp p) ≡ some p)
    × ((p : IceCandidatePayload) → unmarshal_ice_candidate (marshal_ice_candidate p) ≡ some p)
    × ((p : TransportNegotiatePayload)
        → unmarshal_transport_negotiate (marshal_transport_negotiate p) ≡ some p)
unmarshal-marshal = (
  encode_lem, register_lem, connect_request_lem, connect_response_lem, disconnect_lem, sdp_lem,
  ice_candidate_lem, transport_negotiate_lem,
)

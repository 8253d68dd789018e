-- ===== src/Stun.antt =====
-- internal/stun/server.go: the answer to a STUN message. `net.IP.To4` and `To16` are the standard
-- library's; an address is its bytes and a port.
pub mod Shape
pub mod Reflexive
pub mod Serve
mod Tests
use cloudbridge.Common.{
  ℕ, zero, suc, ◌+◌, ◌-◌, ◌*◌, ◌/◌, ◌%◌, ◌^◌, ◌≤◌, Bool, true, false, ◌&&◌, not, List, [], ◌∷◌,
  ◌++◌, Option, none, some, ltb, nat_eq, ◌==◌, bytes_eq, if◌then◌else◌, length, take, drop, bit_xor,
  Result, ok, err, ◌>>=◌, ◌>>◌, guard,
}
use cloudbridge.Common.Words.{put_uint16, put_uint32, uint16_at, uint32_at}

abbrev pub stun_binding_request : ℕ
stun_binding_request = 0x0001

abbrev pub stun_binding_response : ℕ
stun_binding_response = 0x0101

abbrev pub attr_xor_mapped_address : ℕ
attr_xor_mapped_address = 0x0020

abbrev pub stun_magic_cookie : ℕ
stun_magic_cookie = 0x2112A442

pub record UdpAddr : Type 0 where
  pub ip : List ℕ
  pub port : ℕ

pub data StunError : Type 0 where
  message_too_short invalid_magic_cookie message_truncated : StunError
  unsupported_message_type : ℕ → StunError
  -- The panic of an index into a nil address.
  index_out_of_range : StunError

-- The prefix of an IPv4 address in 16 bytes.
abbrev pub v4_in_v6_prefix : List ℕ
v4_in_v6_prefix = 0 ∷ 0 ∷ 0 ∷ 0 ∷ 0 ∷ 0 ∷ 0 ∷ 0 ∷ 0 ∷ 0 ∷ 255 ∷ 255 ∷ []

-- `net.IP.To4`
unfoldable pub to4 : List ℕ → Option (List ℕ)
to4 ip =
    if nat_eq (length ip) 4
    then some ip
    else if nat_eq (length ip) 16 && take 12 ip == v4_in_v6_prefix
    then some (drop 12 ip)
    else none

-- `net.IP.To16`, which is asked only where `To4` gave nil: a 4-byte address never comes here.
unfoldable pub to16 : List ℕ → Option (List ℕ)
to16 ip =
    if nat_eq (length ip) 4
    then some (v4_in_v6_prefix ++ ip)
    else if nat_eq (length ip) 16
    then some ip
    else none

-- `out[i] = a[i] ^ b[i]`, as far as both go.
unfoldable pub xor_bytes : List ℕ → List ℕ → List ℕ
xor_bytes [] ks = []
xor_bytes (b ∷ bs) [] = []
xor_bytes (b ∷ bs) (k ∷ ks) = bit_xor b k ∷ xor_bytes bs ks

abbrev pub cookie_bytes : List ℕ
cookie_bytes = put_uint32 stun_magic_cookie

-- Reserved byte, family, the port under the top of the cookie, the address under its key.
abbrev pub attr_value : ℕ → ℕ → List ℕ → List ℕ
attr_value family port xor_ip =
    0 ∷ family ∷ (put_uint16 (bit_xor port (stun_magic_cookie / 2 ^ 16)) ++ xor_ip)

abbrev pub attribute : List ℕ → List ℕ
attribute value =
    put_uint16 attr_xor_mapped_address ++ (put_uint16 (length value % 2 ^ 16) ++ value)

abbrev pub response : List ℕ → List ℕ → List ℕ
response tid attr =
    put_uint16 stun_binding_response
    ++ (put_uint16 (length attr % 2 ^ 16) ++ (cookie_bytes ++ (tid ++ attr)))

-- The address under its key: the cookie, and for IPv6 the cookie and the transaction ID.
abbrev pub family_value : List ℕ → List ℕ → ℕ → List ℕ
family_value tid ip port =
    if nat_eq (length ip) 4
    then attr_value 1 port (xor_bytes ip cookie_bytes)
    else attr_value 2 port (xor_bytes (take 4 ip) cookie_bytes ++ xor_bytes (drop 4 ip) tid)

-- `To4`, or `To16` where that is nil.
unfoldable pub mapped_ip : List ℕ → Option (List ℕ)
unfolding to4 to16
mapped_ip ip = elim (to4 ip) [ some v4 ↦ some v4 | none ↦ to16 ip ]

unfoldable pub build_binding_response : List ℕ → UdpAddr → Result StunError (List ℕ)
build_binding_response tid addr = elim (mapped_ip addr.ip) [
  | none ↦ err index_out_of_range
  | some ip ↦ ok (response tid (attribute (family_value tid ip (addr.port % 2 ^ 16))))
]

-- `handleMessage`: what it writes back to the sender, or the error that it returns.
unfoldable pub handle_message : List ℕ → UdpAddr → Result StunError (List ℕ)
handle_message bytes addr = do
  guard (not (ltb (length bytes) 20)) message_too_short
  guard (nat_eq (uint32_at bytes 4) stun_magic_cookie) invalid_magic_cookie
  guard (nat_eq (uint16_at bytes 0) stun_binding_request)
      (unsupported_message_type (uint16_at bytes 0))
  guard (not (ltb (length bytes) (20 + uint16_at bytes 2))) message_truncated
  build_binding_response (take 12 (drop 8 bytes)) addr

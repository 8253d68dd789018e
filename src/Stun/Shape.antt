-- ===== src/Stun/Shape.antt =====
-- server.go: which messages are answered, and the length and the fields of an answer.
use cloudbridge.Common.{
  ◌↔◌, ℕ, suc, ◌+◌, ◌%◌, ◌^◌, ◌≤◌, ◌≡◌, ◌⊎◌, inl, inr, refl, ap, List, [], ◌∷◌, some, arith, nat_eq,
  ◌==◌, bytes_eq, length, take, drop, ok, length-drop, Bool-cases,
}
use cloudbridge.Common.Words.{uint16_at, uint32_at}
use cloudbridge.Stun.{
  stun_binding_request, stun_magic_cookie, UdpAddr, v4_in_v6_prefix, mapped_ip, xor_bytes,
  attribute, response, family_value, build_binding_response, handle_message,
}

pub length-xor_bytes :
    (xs ks : List ℕ) → length xs ≤ length ks → length (xor_bytes xs ks) ≡ length xs
unfolding xor_bytes
length-xor_bytes [] ks h = refl
length-xor_bytes (x ∷ xs) [] h = absurd (omega arith)
length-xor_bytes (x ∷ xs) (k ∷ ks) h = ap suc (length-xor_bytes xs ks (omega arith))

-- A UDP address has 4 or 16 bytes.
abbrev pub IsUdpIp : List ℕ → Type 0
IsUdpIp ip = (length ip ≡ 4) ⊎ (length ip ≡ 16)

pub mapped_ip-some : (ip : List ℕ) → IsUdpIp ip → (m : List ℕ) × (mapped_ip ip ≡ some m) × IsUdpIp m
unfolding mapped_ip
mapped_ip-some ip h = elim (Bool-cases (nat_eq (length ip) 4)) [
  | inl e ↦ (ip, ground (arith, e), h)
  | inr e ↦ elim (Bool-cases (take 12 ip == v4_in_v6_prefix)) [
    | inl q ↦ (drop 12 ip, ground (arith, e, q, h), ground (arith, e, h, length-drop 12 ip))
    | inr q ↦ (ip, ground (arith, e, q, h), h)
  ]
]

pub build_binding_response-ok :
    (tid : List ℕ) (addr : UdpAddr)
    → IsUdpIp addr.ip
    → (ip : List ℕ) × (mapped_ip addr.ip ≡ some ip)
      × IsUdpIp ip
      × (build_binding_response tid addr
          ≡ ok (response tid (attribute (family_value tid ip (addr.port % 2 ^ 16)))))
unfolding build_binding_response
build_binding_response-ok tid addr h =
    let (ip, e, v) = mapped_ip-some addr.ip h in (ip, e, v, rw (e, build_binding_response))

-- Exactly the binding requests with the magic cookie that are as long as their header says, and
-- hold a header, are answered.
pub handle_message_iff :
    (bytes : List ℕ) (addr : UdpAddr)
    → IsUdpIp addr.ip
    → ((out : List ℕ) × (handle_message bytes addr ≡ ok out)) ↔ (
        (20 + uint16_at bytes 2 ≤ length bytes)
        × (uint16_at bytes 0 ≡ stun_binding_request)
        × (uint32_at bytes 4 ≡ stun_magic_cookie))
unfolding handle_message
handle_message_iff bytes addr h = (
  λ (out, e). ground (arith, e),
  λ (size, kind, cookie).
      let (ip, _, _, e) = build_binding_response-ok (take 12 (drop 8 bytes)) addr h in
      (
        response (take 12 (drop 8 bytes))
            (attribute (family_value (take 12 (drop 8 bytes)) ip (addr.port % 2 ^ 16))),
        ground (arith, e, size, kind, cookie),
      ),
)

-- What an answer is: the answer to the request's transaction.
pub handle_message-eq_ok :
    (bytes : List ℕ) (addr : UdpAddr) (out : List ℕ)
    → handle_message bytes addr ≡ ok out
    → (build_binding_response (take 12 (drop 8 bytes)) addr ≡ ok out) × (20 ≤ length bytes)
unfolding handle_message
handle_message-eq_ok bytes addr out e = ground (arith, e)

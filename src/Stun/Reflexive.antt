-- ===== src/Stun/Reflexive.antt =====
-- server.go: an answer, as RFC 5389 says that a client reads it.
use cloudbridge.Common.{
  ℕ, ◌/◌, ◌%◌, ◌^◌, ◌≤◌, ◌<◌, ◌≡◌, ◌⊎◌, inl, inr, refl, sym, ap, ◌∙◌, ◌&&◌, List, [], ◌∷◌, ◌++◌,
  Option, none, some, arith, nat_eq, ◌==◌, bytes_eq, bytes_beq_iff, if◌then◌else◌, length, take,
  drop, bit_xor, ok, length-take, length-drop, Bool-cases, take-append_left, drop-append_left,
  take-append-drop, subst, ok_injective,
}
use cloudbridge.Common.Bits.{bit_xor-bit_xor, bit_xor-lt}
use cloudbridge.Common.Words.{byte_at, uint16_at, uint32_at}
use cloudbridge.Stun.{
  stun_binding_response, attr_xor_mapped_address, stun_magic_cookie, UdpAddr, mapped_ip, xor_bytes,
  cookie_bytes, attr_value, attribute, response, family_value, handle_message,
}
use cloudbridge.Stun.Shape.{
  length-xor_bytes, IsUdpIp, build_binding_response-ok, handle_message-eq_ok,
}

-- RFC 5389, sections 6 and 15.2: the checks of a client on the header and on one attribute that
-- fills the message, and the family, the address and the port that it reads.
pub decode_response : List ℕ → List ℕ → Option (ℕ × List ℕ × ℕ)
decode_response tid out =
    let attr = drop 12 (drop 8 out) in
    if nat_eq (uint16_at out 0) stun_binding_response
      && (nat_eq (uint32_at out 4) stun_magic_cookie
          && (take 12 (drop 8 out) == tid
              && (nat_eq (uint16_at out 2) (length attr)
                  && (nat_eq (uint16_at attr 0) attr_xor_mapped_address
                      && nat_eq (uint16_at attr 2) (length (drop 4 attr))))))
    then some (
      byte_at attr 5,
      xor_bytes (drop 8 attr) (cookie_bytes ++ tid),
      bit_xor (uint16_at attr 6) (stun_magic_cookie / 2 ^ 16),
    )
    else none

xor_bytes_twice : (xs ks : List ℕ) → length xs ≤ length ks → xor_bytes (xor_bytes xs ks) ks ≡ xs
unfolding xor_bytes
xor_bytes_twice [] ks h = refl
xor_bytes_twice (x ∷ xs) [] h = absurd (omega arith)
xor_bytes_twice (x ∷ xs) (k ∷ ks) h =
    ground (arith, bit_xor-bit_xor x k, xor_bytes_twice xs ks (omega arith))

xor_bytes-append :
    (xs ys ks ls : List ℕ)
    → length xs ≡ length ks
    → xor_bytes (xs ++ ys) (ks ++ ls) ≡ xor_bytes xs ks ++ xor_bytes ys ls
unfolding xor_bytes
xor_bytes-append [] ys [] ls h = refl
xor_bytes-append [] ys (k ∷ ks) ls h = absurd (omega arith)
xor_bytes-append (x ∷ xs) ys [] ls h = absurd (omega arith)
xor_bytes-append (x ∷ xs) ys (k ∷ ks) ls h =
    ap (λ (t : List ℕ). bit_xor x k ∷ t) (xor_bytes-append xs ys ks ls (omega arith))

xor_bytes_short :
    (xs ks ls : List ℕ) → length xs ≤ length ks → xor_bytes xs (ks ++ ls) ≡ xor_bytes xs ks
unfolding xor_bytes
xor_bytes_short [] ks ls h = refl
xor_bytes_short (x ∷ xs) [] ls h = absurd (omega arith)
xor_bytes_short (x ∷ xs) (k ∷ ks) ls h =
    ap (λ (t : List ℕ). bit_xor x k ∷ t) (xor_bytes_short xs ks ls (omega arith))

-- Family 1 for 4 bytes and 2 for 16.
abbrev pub family : List ℕ → ℕ
family ip = if nat_eq (length ip) 4 then 1 else 2

-- Both families write the address under the cookie and the transaction ID.
family_value-key :
    (tid ip : List ℕ) (port : ℕ)
    → length tid ≡ 12
    → IsUdpIp ip
    → family_value tid ip port ≡ attr_value (family ip) port (xor_bytes ip (cookie_bytes ++ tid))
family_value-key tid ip port t v = elim (Bool-cases (nat_eq (length ip) 4)) [
  | inl e ↦
      rw e (ap (attr_value 1 port) (sym (xor_bytes_short ip cookie_bytes tid (ground (arith, e)))))
  | inr e ↦ rw e (
      ap (attr_value 2 port) (
        sym (
          xor_bytes-append (take 4 ip) (drop 4 ip) cookie_bytes tid
            (ground (arith, e, v, length-take 4 ip)))
        ∙ ap (λ (t' : List ℕ). xor_bytes t' (cookie_bytes ++ tid)) (take-append-drop 4 ip)))
]

decode_response-response :
    (tid xs : List ℕ) (fam port : ℕ)
    → length tid ≡ 12
    → (length xs ≡ 4) ⊎ (length xs ≡ 16)
    → fam < 256
    → port < 2 ^ 16
    → decode_response tid (response tid (attribute (attr_value fam port xs)))
      ≡ some (fam, xor_bytes xs (cookie_bytes ++ tid), port)
unfolding decode_response
decode_response-response tid xs fam port t v f p =
    let attr = attribute (attr_value fam port xs) in
    let front = subst (λ (n : ℕ). take n (tid ++ attr) ≡ tid) t (take-append_left tid attr) in
    let back = subst (λ (n : ℕ). drop n (tid ++ attr) ≡ attr) t (drop-append_left tid attr) in
    ground (
      arith,
      front,
      back,
      v,
      (bytes_beq_iff tid tid).1 refl,
      bit_xor-bit_xor port (stun_magic_cookie / 2 ^ 16),
      bit_xor-lt 16 port (stun_magic_cookie / 2 ^ 16) p (omega arith),
    )

-- An answer to a client with an address of 4 or 16 bytes carries that address, as 4 bytes where
-- it is an IPv4 one, its family and the client's port, and the transaction ID of the request.
pub handle_message-reflexive :
    (bytes : List ℕ) (addr : UdpAddr) (out : List ℕ)
    → IsUdpIp addr.ip
    → addr.port < 2 ^ 16
    → handle_message bytes addr ≡ ok out
    → (ip : List ℕ) × (mapped_ip addr.ip ≡ some ip)
      × (decode_response (take 12 (drop 8 bytes)) out ≡ some (family ip, ip, addr.port))
handle_message-reflexive bytes addr out v p h =
    let tid = take 12 (drop 8 bytes) in
    let (built, size) = handle_message-eq_ok bytes addr out h in
    let t : length tid ≡ 12 = omega (arith, length-take 12 (drop 8 bytes), length-drop 8 bytes) in
    let (ip, e, vi, is) = build_binding_response-ok tid addr v in
    let port : addr.port % 2 ^ 16 ≡ addr.port = omega arith in
    let key = cookie_bytes ++ tid in
    let xored = length-xor_bytes ip key (ground (arith, vi, t)) in
    let out_is =
      ok_injective (sym built ∙ is)
      ∙ ap (λ (x : List ℕ). response tid (attribute x))
          (family_value-key tid ip (addr.port % 2 ^ 16) t vi) in
    (
      ip,
      e,
      ap (decode_response tid) out_is
          ∙ decode_response-response tid (xor_bytes ip key) (family ip) (addr.port % 2 ^ 16) t
              (ground (arith, vi, xored)) (ground arith) (omega arith)
          ∙ ground (arith, port, xor_bytes_twice ip key (ground (arith, vi, t))),
    )

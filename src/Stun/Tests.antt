-- ===== src/Stun/Tests.antt =====
-- server.go at concrete inputs, and the theorems at inputs that meet their hypotheses.
use cloudbridge.Common.{
  ℕ, ◌+◌, ◌≤◌, true, false, ◌≡◌, ◌↔◌, refl, inl, List, [], ◌∷◌, ◌++◌, some, ok, err, arith,
  bytes_eq,
}
use cloudbridge.Common.Words.{uint16_at, uint32_at}
use cloudbridge.Stun.{
  UdpAddr, mapped_ip, xor_bytes, build_binding_response, handle_message, message_truncated,
  stun_binding_request, stun_magic_cookie,
}
use cloudbridge.Stun.Serve.{
  Turn, datagram, timeout, read_error, returned, crashed, serve, serve-answers,
}
use cloudbridge.Stun.Shape.{handle_message_iff}
use cloudbridge.Stun.Reflexive.{decode_response, family, handle_message-reflexive}

abbrev tid : List ℕ
tid = 1 ∷ 2 ∷ 3 ∷ 4 ∷ 5 ∷ 6 ∷ 7 ∷ 8 ∷ 9 ∷ 10 ∷ 11 ∷ 12 ∷ []

abbrev request : List ℕ
request = 0 ∷ 1 ∷ 0 ∷ 0 ∷ 0x21 ∷ 0x12 ∷ 0xA4 ∷ 0x42 ∷ tid

abbrev sender : UdpAddr
sender = record { ip = 192 ∷ 168 ∷ 1 ∷ 5 ∷ []; port = 0x1234 }

abbrev answer : List ℕ
answer =
    1
    ∷ 1
    ∷ 0
    ∷ 12
    ∷ 0x21
    ∷ 0x12
    ∷ 0xA4
    ∷ 0x42
    ∷ (tid ++ (0 ∷ 0x20 ∷ 0 ∷ 8 ∷ 0 ∷ 1 ∷ 0x33 ∷ 0x26 ∷ 0xE1 ∷ 0xBA ∷ 0xA5 ∷ 0x47 ∷ []))

answers : handle_message request sender ≡ ok answer
unfolding handle_message build_binding_response mapped_ip xor_bytes
answers = refl

cut_request :
    handle_message (0 ∷ 1 ∷ 0 ∷ 1 ∷ 0x21 ∷ 0x12 ∷ 0xA4 ∷ 0x42 ∷ tid) sender ≡ err message_truncated
unfolding handle_message
cut_request = refl

handle_message_iff_example : ((out : List ℕ) × (handle_message request sender ≡ ok out)) ↔ (
    (20 + uint16_at request 2 ≤ 20)
    × (uint16_at request 0 ≡ stun_binding_request)
    × (uint32_at request 4 ≡ stun_magic_cookie))
handle_message_iff_example = handle_message_iff request sender (inl refl)

handle_message-reflexive_example :
    (ip : List ℕ) × (mapped_ip (192 ∷ 168 ∷ 1 ∷ 5 ∷ []) ≡ some ip)
    × (decode_response tid answer ≡ some (family ip, ip, 0x1234))
handle_message-reflexive_example =
    handle_message-reflexive request sender answer (inl refl) (omega arith) answers

-- An answered request, a timeout, a broken request, an error, and then the server is closed.
abbrev turns : List Turn
turns =
    record { closed = false; incoming = datagram request sender; closed_after = false }
    ∷ record { closed = false; incoming = timeout; closed_after = false }
    ∷ record { closed = false; incoming = datagram (0 ∷ []) sender; closed_after = false }
    ∷ record { closed = false; incoming = read_error; closed_after = false }
    ∷ []

abbrev last_turn : Turn
last_turn = record { closed = true; incoming = timeout; closed_after = true }

serve-answers_example : serve (turns ++ (last_turn ∷ [])) ≡ ((sender, answer) ∷ [], returned)
unfolding handle_message build_binding_response mapped_ip xor_bytes
serve-answers_example =
    serve-answers turns last_turn []
      ((refl, refl, inl refl), ((refl, refl, tt), ((refl, refl, inl refl), ((refl, refl, tt), tt))))
      refl

-- An address of three bytes ends the program.
crashes :
    serve (
      record {
        closed = false;
        incoming = datagram request (record sender { ip = 1 ∷ 2 ∷ 3 ∷ [] });
        closed_after = false;
      }
      ∷ turns)
    ≡ ([], crashed)
unfolding serve handle_message build_binding_response mapped_ip
crashes = refl

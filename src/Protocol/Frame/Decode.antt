-- ===== src/Protocol/Frame/Decode.antt =====
-- frame.go: what `UnmarshalBinary` accepts.
use cloudbridge.Common.{
  ◌↔◌, ℕ, ◌+◌, ◌-◌, ◌≤◌, ◌<◌, ◌≡◌, sym, ap, ◌∙◌, List, [], ◌∷◌, ◌++◌, none, some, arith, length,
  take, drop, ok, append_assoc, All-take, All-drop, length-take, length-drop, take-append-drop,
}
use cloudbridge.Common.Words.{
  IsByte, IsBytes, byte_at, uint16_at, uint32_at, byte_at-lt, drop-byte_at,
}
use cloudbridge.Protocol.Frame.{
  Frame, IsFrame, frame_too_short, frame_truncated, payload_too_large, header, marshal_binary,
  unmarshal_binary, max_payload_size, frame_header_size,
}
use cloudbridge.Protocol.Frame.Wire.{marshal_binary-ok, unmarshal_binary-marshal_binary}

-- `bytes` is the encoding of the frame `f` with `rest` behind it.
abbrev pub Encodes : Frame → List ℕ → List ℕ → Type 0
Encodes f bytes rest =
    IsFrame f × ((wire : List ℕ) × (marshal_binary f ≡ ok wire) × (bytes ≡ wire ++ rest))

-- The first seven bytes one by one.
abbrev seven : List ℕ → List ℕ
seven bs =
    byte_at bs 0
    ∷ byte_at bs 1
    ∷ byte_at bs 2
    ∷ byte_at bs 3
    ∷ byte_at bs 4
    ∷ byte_at bs 5
    ∷ byte_at bs 6
    ∷ []

seven-append-drop : (bs : List ℕ) → frame_header_size ≤ length bs → bs ≡ seven bs ++ drop 7 bs
seven-append-drop bs h =
    drop-byte_at 0 bs (omega arith)
    ∙ ap (λ t. byte_at bs 0 ∷ t)
        (drop-byte_at 1 bs (omega arith)
          ∙ ap (λ t. byte_at bs 1 ∷ t)
              (drop-byte_at 2 bs (omega arith)
                ∙ ap (λ t. byte_at bs 2 ∷ t)
                    (drop-byte_at 3 bs (omega arith)
                      ∙ ap (λ t. byte_at bs 3 ∷ t)
                          (drop-byte_at 4 bs (omega arith)
                            ∙ ap (λ t. byte_at bs 4 ∷ t)
                                (drop-byte_at 5 bs (omega arith)
                                  ∙ ap (λ t. byte_at bs 5 ∷ t)
                                      (drop-byte_at 6 bs (omega arith)))))))

-- The frame that a header of seven bytes announces, with its payload.
abbrev pub decoded : List ℕ → List ℕ → Frame
decoded head bytes = record {
  stream_id = uint16_at head 0;
  frame_type = byte_at head 2;
  payload = bytes;
}

decoded-IsFrame :
    (head bytes : List ℕ) → IsBytes head → IsBytes bytes → IsFrame (decoded head bytes)
decoded-IsFrame head bytes h k = record {
  stream_id_fits = omega (arith, byte_at-lt head 0 h, byte_at-lt head 1 h);
  frame_type_fits = byte_at-lt head 2 h;
  payload_IsBytes = k;
}

header-decoded :
    (head bytes : List ℕ)
    → IsBytes head
    → uint32_at head 3 ≡ length bytes
    → header (decoded head bytes) ≡ seven head
header-decoded head bytes h e = ground (
  arith,
  byte_at-lt head 0 h,
  byte_at-lt head 1 h,
  byte_at-lt head 2 h,
  byte_at-lt head 3 h,
  byte_at-lt head 4 h,
  byte_at-lt head 5 h,
  byte_at-lt head 6 h,
)

-- A header, a payload of the length that it gives, and more.
pub decoded-Encodes :
    (bs : List ℕ)
    → IsBytes bs
    → frame_header_size ≤ length bs
    → uint32_at bs 3 ≤ max_payload_size
    → frame_header_size + uint32_at bs 3 ≤ length bs
    → Encodes
        (decoded bs (take (uint32_at bs 3) (drop frame_header_size bs)))
        bs
        (drop (uint32_at bs 3) (drop frame_header_size bs))
decoded-Encodes bs h k le fits =
    let n = uint32_at bs 3 in
    let after = drop frame_header_size bs in
    let bytes = take n after in
    let size : n ≡ length bytes =
      omega (arith, length-take n after, length-drop frame_header_size bs) in
    let f = decoded bs bytes in
    (
      decoded-IsFrame bs bytes h (All-take IsByte n after (All-drop IsByte frame_header_size bs h)),
      (
        header f ++ bytes,
        marshal_binary-ok f (omega arith),
        seven-append-drop bs k
            ∙ ap (λ (t : List ℕ). seven bs ++ t) (sym (take-append-drop n after))
            ∙ sym (append_assoc (seven bs) bytes (drop n after))
            ∙ ap (λ (t : List ℕ). (t ++ bytes) ++ drop n after)
                (sym (header-decoded bs bytes h size)),
      ),
    )

accepts :
    (g f : Frame) (bs : List ℕ)
    → unmarshal_binary g bs ≡ (f, none)
    → (frame_header_size ≤ length bs)
      × (uint32_at bs 3 ≤ max_payload_size)
      × (frame_header_size + uint32_at bs 3 ≤ length bs)
      × (f ≡ decoded bs (take (uint32_at bs 3) (drop frame_header_size bs)))
unfolding unmarshal_binary
accepts g f bs h = ground arith

-- `UnmarshalBinary` succeeds with a frame exactly on the bytes that start with what
-- `MarshalBinary` writes for it, whatever the receiver held.
pub unmarshal_binary_iff :
    (g f : Frame) (bs : List ℕ)
    → IsBytes bs
    → (unmarshal_binary g bs ≡ (f, none)) ↔ ((rest : List ℕ) × Encodes f bs rest)
unmarshal_binary_iff g f bs h = (
  λ e.
      let (k, le, fits, is) = accepts g f bs e in
      (drop (uint32_at bs 3) (drop frame_header_size bs), rw is (decoded-Encodes bs h k le fits)),
  λ (rest, (v, (wire, e, is))). rw is (unmarshal_binary-marshal_binary f g wire rest v e),
)

-- Which of the four outcomes it has, by the length of the input and the length that the header
-- gives. A truncated input is reported before a length over the maximum.
pub unmarshal_binary_error :
    (g : Frame) (bs : List ℕ)
    → (((unmarshal_binary g bs).1 ≡ some frame_too_short) ↔ (length bs < frame_header_size))
      × (((unmarshal_binary g bs).1
            ≡ some (frame_truncated (uint32_at bs 3) (length bs - frame_header_size)))
          ↔ ((frame_header_size ≤ length bs) × (length bs < frame_header_size + uint32_at bs 3)))
      × (((unmarshal_binary g bs).1 ≡ some (payload_too_large (uint32_at bs 3))) ↔ (
          (frame_header_size + uint32_at bs 3 ≤ length bs) × (max_payload_size < uint32_at bs 3)))
unfolding unmarshal_binary
unmarshal_binary_error g bs = ground arith

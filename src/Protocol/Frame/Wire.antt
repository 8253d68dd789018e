-- ===== src/Protocol/Frame/Wire.antt =====
-- frame.go: what `MarshalBinary` writes, and what `UnmarshalBinary` makes of it.
use cloudbridge.Common.{
  ◌↔◌, ℕ, ◌+◌, ◌≤◌, ◌<◌, ◌≡◌, refl, List, ◌++◌, none, arith, length, ok, err, length-append,
  take-append_left, All-append,
}
use cloudbridge.Common.Words.{IsBytes, uint32_at}
use cloudbridge.Protocol.Frame.{
  Frame, IsFrame, FrameError, payload_too_large, header, marshal_binary, unmarshal_binary,
  max_payload_size, frame_header_size,
}

length-header : (f : Frame) → length (header f) ≡ frame_header_size
length-header f = refl

-- `MarshalBinary` fails exactly on a payload over the maximum, and then names its length.
pub marshal_binary-err :
    (f : Frame) (e : FrameError)
    → (marshal_binary f ≡ err e)
      ↔ ((max_payload_size < length f.payload) × (e ≡ payload_too_large (length f.payload)))
unfolding marshal_binary
marshal_binary-err f e = ground arith

pub marshal_binary-eq_ok :
    (f : Frame) (bytes : List ℕ)
    → marshal_binary f ≡ ok bytes
    → (bytes ≡ header f ++ f.payload) × (length f.payload ≤ max_payload_size)
unfolding marshal_binary
marshal_binary-eq_ok f bytes h = ground arith

pub marshal_binary-ok :
    (f : Frame)
    → length f.payload ≤ max_payload_size
    → marshal_binary f ≡ ok (header f ++ f.payload)
unfolding marshal_binary
marshal_binary-ok f h = ground arith

header-IsBytes : (f : Frame) → IsBytes (header f)
header-IsBytes f = omega arith

-- What is written is seven bytes longer than the payload, and consists of bytes.
pub marshal_binary_shape :
    (f : Frame) (bytes : List ℕ)
    → IsFrame f
    → marshal_binary f ≡ ok bytes
    → (length bytes ≡ frame_header_size + length f.payload) × IsBytes bytes
marshal_binary_shape f bytes v h =
    let (e, _) = marshal_binary-eq_ok f bytes h in
    rw (e, length-append (header f) f.payload)
      (refl, All-append _ (header f) f.payload (header-IsBytes f) v.payload_IsBytes)

pub length-header_field :
    (f : Frame) (rest : List ℕ)
    → length f.payload ≤ max_payload_size
    → uint32_at (header f ++ rest) 3 ≡ length f.payload
length-header_field f rest h = omega arith

unmarshal_binary-header :
    (f g : Frame) (rest : List ℕ)
    → IsFrame f
    → length f.payload ≤ max_payload_size
    → unmarshal_binary g ((header f ++ f.payload) ++ rest) ≡ (f, none)
unfolding unmarshal_binary
unmarshal_binary-header f g rest v h = ground (
  arith,
  v.stream_id_fits,
  v.frame_type_fits,
  length-append f.payload rest,
  take-append_left f.payload rest,
  length-header_field f (f.payload ++ rest) h,
)

-- `UnmarshalBinary` on any receiver gives back the frame that `MarshalBinary` wrote, also with
-- more bytes behind it.
pub unmarshal_binary-marshal_binary :
    (f g : Frame) (bytes rest : List ℕ)
    → IsFrame f
    → marshal_binary f ≡ ok bytes
    → unmarshal_binary g (bytes ++ rest) ≡ (f, none)
unmarshal_binary-marshal_binary f g bytes rest v h =
    let (e, le) = marshal_binary-eq_ok f bytes h in rw e (unmarshal_binary-header f g rest v le)

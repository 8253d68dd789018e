-- ===== src/Protocol/Frame/Stream.antt =====
-- frame.go: `ReadFrom` on any reader, and a sequence of frames written by `WriteTo`.
use cloudbridge.Common.{
  ◌↔◌, ℕ, ◌≤◌, ◌<◌, ◌≡◌, refl, sym, ap, ◌∙◌, List, [], ◌++◌, none, arith, ltb, leb, nat_eq,
  if◌then◌else◌, length, take, drop, Result, ok, err, ◌>>=◌, ◌>>◌, guard, wrap, length-append,
  take-append_left, drop-append_left, length-drop, Bool-cases, inl, inr,
}
use cloudbridge.Common.Words.{IsBytes, byte_at-take, uint32_at}
use cloudbridge.Common.Reader.{Reader, read_full, end_error}
use cloudbridge.Common.Reader.Laws.{take_full, flat, read_full-flat, flat->>=, flat-wrap}
use cloudbridge.Protocol.Frame.{
  Frame, IsFrame, FrameError, payload_too_large, reading_header, reading_payload, header,
  unmarshal_binary, max_payload_size, frame_header_size, read_payload, read_from,
}
use cloudbridge.Protocol.Frame.Wire.{length-header_field, marshal_binary-eq_ok}
use cloudbridge.Protocol.Frame.Decode.{unmarshal_binary_iff, Encodes, decoded, decoded-Encodes}

parse_payload : ℕ → List ℕ → Result FrameError (List ℕ × List ℕ)
parse_payload n bs = if nat_eq n 0 then ok ([], bs) else wrap reading_payload (take_full n bs)

-- The steps of `ReadFrom` on bytes.
parse_steps : List ℕ → Result FrameError (Frame × List ℕ)
unfolding parse_payload
parse_steps bs = do
  (head, bs') ← wrap reading_header (take_full frame_header_size bs)
  let n = uint32_at head 3
  guard (leb n max_payload_size) (payload_too_large n)
  (bytes, rest) ← parse_payload n bs'
  ok (decoded head bytes, rest)

-- `ReadFrom` as a function of the bytes: the next frame and what follows it, or the first error.
unfoldable pub parse_frame : List ℕ → Result FrameError (Frame × List ℕ)
parse_frame bs =
    let n = uint32_at bs 3 in
    let after = drop frame_header_size bs in
    if ltb (length bs) frame_header_size
    then err (reading_header (end_error bs))
    else if ltb max_payload_size n
    then err (payload_too_large n)
    else if ltb (length after) n
    then err (reading_payload (end_error after))
    else ok (decoded bs (take n after), drop n after)

parse_steps-eq : (bs : List ℕ) → parse_steps bs ≡ parse_frame bs
unfolding parse_steps parse_frame parse_payload take_full
parse_steps-eq bs = ground (
  arith,
  byte_at-take 7 bs 0,
  byte_at-take 7 bs 1,
  byte_at-take 7 bs 2,
  byte_at-take 7 bs 3,
  byte_at-take 7 bs 4,
  byte_at-take 7 bs 5,
  byte_at-take 7 bs 6,
)

module _ {S : Type 0} (R : Reader S) where
  read_payload-flat : (n : ℕ) (s : S) → flat R (read_payload R n s) ≡ parse_payload n (R.content s)
  unfolding read_payload parse_payload
  read_payload-flat n s = elim (Bool-cases (nat_eq n 0)) [
    | inl e ↦ rw e
    | inr e ↦ rw e (
        flat-wrap R reading_payload (read_full R n s)
        ∙ ap (wrap reading_payload) (read_full-flat R n s))
  ]

  read_from-flat : (s : S) → flat R (read_from R s) ≡ parse_steps (R.content s)
  unfolding read_from parse_steps
  read_from-flat s =
      flat->>= R (wrap reading_header (read_full R frame_header_size s))
        (wrap reading_header (take_full frame_header_size (R.content s))) _ _
        (flat-wrap R reading_header (read_full R frame_header_size s)
          ∙ ap (wrap reading_header) (read_full-flat R frame_header_size s))
        (λ head s'. elim (Bool-cases (leb (uint32_at head 3) max_payload_size)) [
          | inl e ↦ rw e (
              flat->>= R (read_payload R (uint32_at head 3) s') _ _ _
                (read_payload-flat (uint32_at head 3) s') (λ bytes t. refl))
          | inr e ↦ rw e refl
        ])

  -- On every reader `ReadFrom` is `parse_frame` of the reader's stream: the frame or the error
  -- depends on the bytes and not on how they come, and the reader is left behind the frame.
  pub read_from-parse_frame : (s : S) → flat R (read_from R s) ≡ parse_frame (R.content s)
  read_from-parse_frame s = read_from-flat s ∙ parse_steps-eq (R.content s)

parse_frame-accepts :
    (bs : List ℕ) (f : Frame) (rest : List ℕ)
    → parse_frame bs ≡ ok (f, rest)
    → (frame_header_size ≤ length bs)
      × (uint32_at bs 3 ≤ max_payload_size)
      × (uint32_at bs 3 ≤ length (drop frame_header_size bs))
      × (f ≡ decoded bs (take (uint32_at bs 3) (drop frame_header_size bs)))
      × (rest ≡ drop (uint32_at bs 3) (drop frame_header_size bs))
unfolding parse_frame
parse_frame-accepts bs f rest h = ground arith

parse_frame-Encodes :
    (bs : List ℕ) (f : Frame) (rest : List ℕ)
    → IsBytes bs
    → parse_frame bs ≡ ok (f, rest)
    → Encodes f bs rest
parse_frame-Encodes bs f rest h e =
    let (k, le, fits, is, left) = parse_frame-accepts bs f rest e in
    rw (is, left) (decoded-Encodes bs h k le (omega (arith, length-drop frame_header_size bs)))

pub parse_frame-header :
    (f : Frame) (rest : List ℕ)
    → IsFrame f
    → length f.payload ≤ max_payload_size
    → parse_frame ((header f ++ f.payload) ++ rest) ≡ ok (f, rest)
unfolding parse_frame
parse_frame-header f rest v h = ground (
  arith,
  v.stream_id_fits,
  v.frame_type_fits,
  length-append f.payload rest,
  take-append_left f.payload rest,
  drop-append_left f.payload rest,
  length-header_field f (f.payload ++ rest) h,
)

flat-ok :
    {S : Type 0} (R : Reader S) (r : Result FrameError (Frame × S)) (f : Frame) (t : S)
    → r ≡ ok (f, t)
    → flat R r ≡ ok (f, R.content t)
flat-ok R r f t h = rw h

-- `ReadFrom` on any reader gives a frame and leaves a rest exactly where the stream is what
-- `MarshalBinary` writes for that frame, followed by that rest.
pub read_from_iff :
    {S : Type 0} (R : Reader S) (s : S) (f : Frame) (rest : List ℕ)
    → IsBytes (R.content s)
    → (flat R (read_from R s) ≡ ok (f, rest)) ↔ Encodes f (R.content s) rest
read_from_iff R s f rest h = (
  λ e. parse_frame-Encodes (R.content s) f rest h (sym (read_from-parse_frame R s) ∙ e),
  λ (v, (wire, m, is)).
      let (w, le) = marshal_binary-eq_ok f wire m in
      read_from-parse_frame R s ∙ rw (is, w) (parse_frame-header f rest v le),
)

-- The two decoders agree: `ReadFrom` takes a frame off a stream exactly where `UnmarshalBinary`
-- accepts the stream's bytes with that frame.
pub read_from-unmarshal_binary :
    {S : Type 0} (R : Reader S) (s : S) (f g : Frame)
    → IsBytes (R.content s)
    → ((rest : List ℕ) × (flat R (read_from R s) ≡ ok (f, rest)))
      ↔ (unmarshal_binary g (R.content s) ≡ (f, none))
read_from-unmarshal_binary R s f g h = (
  λ (rest, e).
      (unmarshal_binary_iff g f (R.content s) h).1 (rest, (read_from_iff R s f rest h).0 e),
  λ e.
      let (rest, enc) = (unmarshal_binary_iff g f (R.content s) h).0 e in
      (rest, (read_from_iff R s f rest h).1 enc),
)

-- A frame that was read has taken bytes off the stream.
pub read_from-less :
    {S : Type 0} (R : Reader S) (s : S) (f : Frame) (t : S)
    → read_from R s ≡ ok (f, t)
    → length (R.content t) < length (R.content s)
read_from-less R s f t h =
    let (k, _, _, _, left) =
      parse_frame-accepts (R.content s) f (R.content t)
        (sym (read_from-parse_frame R s) ∙ flat-ok R (read_from R s) f t h) in
    omega (
      arith,
      k,
      ap length left,
      length-drop (uint32_at (R.content s) 3) (drop frame_header_size (R.content s)),
      length-drop frame_header_size (R.content s),
    )

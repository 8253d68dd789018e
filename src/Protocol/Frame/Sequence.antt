-- ===== src/Protocol/Frame/Sequence.antt =====
-- frame.go: `WriteTo` on any writer, and frames sent one after another.
use cloudbridge.Common.{
  ℕ, zero, suc, ◌<◌, ◌≡◌, refl, ◌∙◌, List, [], ◌∷◌, ◌++◌, Option, none, some, arith, length, take,
  Result, ok, err, ◌>>=◌, append_assoc, append-nil, Result-cases, inl, inr, ◌⊎◌, All, Option-cases,
}
use cloudbridge.Common.Reader.{Reader}
use cloudbridge.Common.Reader.Laws.{flat}
use cloudbridge.Common.Writer.{Writer}
use cloudbridge.Protocol.Frame.{
  Frame, IsFrame, FrameError, payload_too_large, marshal_binary, max_payload_size, read_from,
  write_bytes, write_to,
}
use cloudbridge.Protocol.Frame.Wire.{marshal_binary-eq_ok, marshal_binary-err}
use cloudbridge.Protocol.Frame.Stream.{parse_frame-header, read_from-parse_frame}

module _ {W : Type 0} (Out : Writer W) where
  write_to_of_ok :
      (f : Frame) (w : W) (wire : List ℕ)
      → marshal_binary f ≡ ok wire
      → write_to Out f w ≡ write_bytes Out (Out.write wire w)
  unfolding write_to
  write_to_of_ok f w wire m = rw (m, write_to)

  write_to_of_err :
      (f : Frame) (w : W) (e : FrameError)
      → marshal_binary f ≡ err e
      → write_to Out f w ≡ (0, some e, w)
  unfolding write_to
  write_to_of_err f w e m = rw (m, write_to)

  write_bytes-all :
      (wire : List ℕ) (w : W)
      → (write_bytes Out (Out.write wire w)).1 ≡ none
      → ((write_bytes Out (Out.write wire w)).0 ≡ length wire)
        × (Out.written (write_bytes Out (Out.write wire w)).2 ≡ Out.written w ++ wire)
  unfolding write_bytes
  write_bytes-all wire w h = ground (arith, Out.write_all wire w)

  write_bytes-part :
      (wire : List ℕ) (w : W)
      → Out.written (write_bytes Out (Out.write wire w)).2
        ≡ Out.written w ++ take (write_bytes Out (Out.write wire w)).0 wire
  unfolding write_bytes
  write_bytes-part wire w = ground (arith, Out.write_part wire w)

  -- When `WriteTo` reports no error, the whole encoding of the frame has gone out, behind what
  -- was written before, and the number that it returns is the encoding's length.
  pub write_to-none :
      (f : Frame) (w : W)
      → (write_to Out f w).1 ≡ none
      → (wire : List ℕ) × (marshal_binary f ≡ ok wire)
        × ((write_to Out f w).0 ≡ length wire)
        × (Out.written (write_to Out f w).2 ≡ Out.written w ++ wire)
  write_to-none f w h = elim (Result-cases (marshal_binary f)) [
    | inl (wire, m) ↦
        let (n, e) = write_bytes-all wire w (rw (write_to_of_ok f w wire m) at h) in
        (wire, m, rw (write_to_of_ok f w wire m) n, rw (write_to_of_ok f w wire m) e)
    | inr (e, m) ↦ absurd (cc (rw (write_to_of_err f w e m) at h))
  ]

  -- Whatever `WriteTo` reports, the bytes that went out are a front of the frame's encoding, as
  -- long as the number it returns; an oversized frame has sent nothing.
  pub write_to-front :
      (f : Frame) (w : W)
      → ((wire : List ℕ) × (marshal_binary f ≡ ok wire)
          × (Out.written (write_to Out f w).2 ≡ Out.written w ++ take (write_to Out f w).0 wire))
        ⊎ ((max_payload_size < length f.payload)
            × (write_to Out f w ≡ (0, some (payload_too_large (length f.payload)), w)))
  write_to-front f w = elim (Result-cases (marshal_binary f)) [
    | inl (wire, m) ↦ inl (wire, m, rw (write_to_of_ok f w wire m) (write_bytes-part wire w))
    | inr (e, m) ↦
        let (big, is) = (marshal_binary-err f e).0 m in inr (big, write_to_of_err f w e m ∙ rw is)
  ]

  -- `WriteTo` on one frame after another, up to the first error.
  unfoldable pub write_frames : List Frame → W → Option FrameError × W
  write_frames [] w = (none, w)
  write_frames (f ∷ fs) w = elim (write_to Out f w).1 [
    | none ↦ write_frames fs (write_to Out f w).2
    | some e ↦ (some e, (write_to Out f w).2)
  ]

module _ {S : Type 0} (R : Reader S) where
  -- `ReadFrom` so many times.
  unfoldable pub read_frames : ℕ → S → Result FrameError (List Frame × S)
  read_frames zero s = ok ([], s)
  read_frames (suc n) s = do (f, s') ← read_from R s; (fs, s'') ← read_frames n s'; ok (f ∷ fs, s'')

  flat-eq_ok :
      (r : Result FrameError (Frame × S)) (f : Frame) (rest : List ℕ)
      → flat R r ≡ ok (f, rest)
      → (t : S) × (r ≡ ok (f, t)) × (R.content t ≡ rest)
  flat-eq_ok (ok (g, t)) f rest h = (t, ground arith, ground arith)
  flat-eq_ok (err e) f rest h = cc

-- `sent` is the frames' encodings one after another.
abbrev pub Wires : List Frame → List ℕ → Type 0
Wires [] sent = sent ≡ []
Wires (f ∷ fs) sent =
    (wire : List ℕ) × (others : List ℕ) × (marshal_binary f ≡ ok wire)
    × (sent ≡ wire ++ others)
    × Wires fs others

pub write_frames-Wires :
    {W : Type 0} (Out : Writer W) (fs : List Frame) (w w' : W)
    → write_frames Out fs w ≡ (none, w')
    → (sent : List ℕ) × (Out.written w' ≡ Out.written w ++ sent) × Wires fs sent
unfolding write_frames
write_frames-Wires Out [] w w' h = ([], rw append-nil (ground arith), refl)
write_frames-Wires Out (f ∷ fs) w w' h = elim (Option-cases (write_to Out f w).1) [
  | inl q ↦
      let (wire, m, _, e) = write_to-none Out f w q in
      let (others, e', ws) =
        write_frames-Wires Out fs (write_to Out f w).2 w' (rw (q, write_frames) at h) in
      (
        wire ++ others,
        e' ∙ rw e (append_assoc (Out.written w) wire others),
        (wire, others, m, refl, ws),
      )
  | inr (x, q) ↦ absurd (ground (arith, q))
]

module _ {S : Type 0} (R : Reader S) where
  pub read_from-wire :
      (f : Frame) (s : S) (wire rest : List ℕ)
      → IsFrame f
      → marshal_binary f ≡ ok wire
      → R.content s ≡ wire ++ rest
      → (t : S) × (read_from R s ≡ ok (f, t)) × (R.content t ≡ rest)
  read_from-wire f s wire rest v m c =
      let (is, le) = marshal_binary-eq_ok f wire m in
      flat-eq_ok R (read_from R s) f rest
        (read_from-parse_frame R s ∙ rw (c, is) (parse_frame-header f rest v le))

  read_frames-Wires :
      (fs : List Frame) (s : S) (sent rest : List ℕ)
      → All IsFrame fs
      → Wires fs sent
      → R.content s ≡ sent ++ rest
      → (t : S) × (read_frames R (length fs) s ≡ ok (fs, t)) × (R.content t ≡ rest)
  unfolding read_frames
  read_frames-Wires [] s sent rest v ws c = (s, refl, c ∙ rw ws)
  read_frames-Wires (f ∷ fs) s sent rest v (wire, others, m, is, ws) c =
      let (t, e, c') =
        read_from-wire f s wire (others ++ rest) v.0 m
          (c ∙ rw is (append_assoc wire others rest)) in
      let (u, e', c'') = read_frames-Wires fs t others rest v.1 ws c' in (u, rw (e, ◌>>=◌, e'), c'')

-- Frames that were all written without an error to a fresh writer are read back one by one, in
-- order, from any reader over the written bytes with more bytes behind them, and the reader is
-- then at those.
pub read_frames-write_frames :
    {S W : Type 0} (R : Reader S) (Out : Writer W) (fs : List Frame) (w w' : W) (s : S)
    (rest : List ℕ)
    → All IsFrame fs
    → Out.written w ≡ []
    → write_frames Out fs w ≡ (none, w')
    → R.content s ≡ Out.written w' ++ rest
    → (t : S) × (read_frames R (length fs) s ≡ ok (fs, t)) × (R.content t ≡ rest)
read_frames-write_frames R Out fs w w' s rest v fresh h c =
    let (sent, e, ws) = write_frames-Wires Out fs w w' h in
    read_frames-Wires R fs s sent rest v ws (c ∙ rw (e, fresh))

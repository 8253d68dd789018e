-- ===== src/Common/Reader/Laws.antt =====
-- What `io.ReadFull` does on any reader, and the laws of the two readers.
use cloudbridge.Common.Lists.{
  length, take, drop, length-append, length-take, take-append-drop, split-append, take-append_left,
  drop-append_left, take-append-drop, take-append_ge, drop-append_ge,
}
use cloudbridge.Common.Results.{Result, ok, err, ◌>>=◌, ◌>>◌, guard, wrap}
use cloudbridge.Common.Words.{byte_at}
use cloudbridge.Common.Tests.{leb, if◌then◌else◌, Option-cases}
use cloudbridge.Common.Reader.{
  IoError, eof, Reader, Conn, stream, conn_read, BufReader, default_buf_size, buf_content, give,
  direct, read_buffered, buf_read, end_error, read_loop, read_full, read_byte,
}
use Prim.Native.Nat.{ℕ, zero, suc, ◌-◌, ◌≤◌, ◌<◌}
use mathlib.Core.Path.{◌≡◌, refl, ap, ◌∙◌}
use mathlib.Core.Bool.{Bool, true, false}
use mathlib.Core.Logic.{inl, inr}
use mathlib.Core.List.{List, [], ◌∷◌, ◌++◌, append-nil, append_assoc}
use mathlib.Core.Option.{none, some}
use native.Mathlib.Omega.{arith}

pub conn_read-none : (n : ℕ) (c : Conn) → 0 < n → conn_read n c ≡ none → stream c ≡ []
unfolding conn_read
conn_read-none n [] h e = refl
conn_read-none n ([] ∷ cs) h e = conn_read-none n cs h e
conn_read-none n ((b ∷ bs) ∷ cs) h e = ground arith

abbrev pub Splits : {S : Type 0} → (S → List ℕ) → ℕ → List ℕ → List ℕ → S → Type 0
Splits content n all bs t = (all ≡ bs ++ content t) × (length bs ≤ n) × (0 < length bs)

pub conn_read-some :
    (n : ℕ) (c : Conn) (bs : List ℕ) (t : Conn)
    → 0 < n
    → conn_read n c ≡ some (bs, t)
    → Splits stream n (stream c) bs t
unfolding conn_read
conn_read-some n [] bs t h e = cc
conn_read-some n ([] ∷ cs) bs t h e = conn_read-some n cs bs t h e
conn_read-some n ((x ∷ xs) ∷ cs) bs t h e =
    ground (arith, split-append n (x ∷ xs) (stream cs), length-take n (x ∷ xs))

abbrev pub conn_reader : Reader Conn
conn_reader = record {
  read = conn_read;
  content = stream;
  read_none = conn_read-none;
  read_some = conn_read-some;
}

take-lt : (n : ℕ) (b : ℕ) (bs : List ℕ) → 0 < n → 0 < length (take n (b ∷ bs))
take-lt n b bs h = omega (arith, length-take n (b ∷ bs))

take-le : (n : ℕ) (bs : List ℕ) → length (take n bs) ≤ n
take-le n bs = omega (arith, length-take n bs)

-- What a fill brought in is handed out up to `n` bytes.
give-some :
    (n m : ℕ) (c : Conn) (bs : List ℕ) (t : BufReader)
    → 0 < n
    → 0 < m
    → give n (conn_read m c) ≡ some (bs, t)
    → Splits buf_content n (stream c) bs t
unfolding give
give-some n m c bs t h k e = elim (Option-cases (conn_read m c)) [
  | inl q ↦ absurd (cc q)
  | inr ((x ∷ xs, d), q) ↦ ground (
    arith,
    q,
    conn_read-some m c (x ∷ xs) d k q,
    split-append n (x ∷ xs) (stream d),
    take-lt n x xs,
    take-le n (x ∷ xs),
  )
  | inr (([], d), q) ↦ absurd (omega (arith, (conn_read-some m c [] d k q).2))
]

direct-some :
    (n : ℕ) (c : Conn) (bs : List ℕ) (t : BufReader)
    → 0 < n
    → direct (conn_read n c) ≡ some (bs, t)
    → Splits buf_content n (stream c) bs t
unfolding direct
direct-some n c bs t h e = elim (Option-cases (conn_read n c)) [
  | inl q ↦ absurd (cc q)
  | inr ((xs, d), q) ↦ ground (arith, q, conn_read-some n c xs d h q)
]

read_buffered-some :
    (n : ℕ) (front : List ℕ) (c : Conn) (bs : List ℕ) (t : BufReader)
    → 0 < n
    → read_buffered n front c ≡ some (bs, t)
    → Splits buf_content n (front ++ stream c) bs t
unfolding read_buffered
read_buffered-some n [] c bs t h e =
    ground (arith, direct-some n c bs t, give-some n default_buf_size c bs t)
read_buffered-some n (x ∷ xs) c bs t h e =
    ground (arith, split-append n (x ∷ xs) (stream c), take-lt n x xs, take-le n (x ∷ xs))

read_buffered-none :
    (n : ℕ) (front : List ℕ) (c : Conn)
    → 0 < n
    → read_buffered n front c ≡ none
    → front ++ stream c ≡ []
unfolding read_buffered give direct
read_buffered-none n [] c h e = elim (Option-cases (conn_read n c)) [
  | inl q ↦ conn_read-none n c h q
  | inr (x, q) ↦ elim (Option-cases (conn_read default_buf_size c)) [
    | inl q' ↦ conn_read-none default_buf_size c (omega arith) q'
    | inr (y, q') ↦ absurd (ground (arith, q, q'))
  ]
]
read_buffered-none n (x ∷ xs) c h e = cc

pub buf_read-none : (n : ℕ) (r : BufReader) → 0 < n → buf_read n r ≡ none → buf_content r ≡ []
unfolding buf_read
buf_read-none n r h e = read_buffered-none n r.buffered r.conn h e

pub buf_read-some :
    (n : ℕ) (r : BufReader) (bs : List ℕ) (t : BufReader)
    → 0 < n
    → buf_read n r ≡ some (bs, t)
    → Splits buf_content n (buf_content r) bs t
unfolding buf_read
buf_read-some n r bs t h e = read_buffered-some n r.buffered r.conn bs t h e

abbrev pub buf_reader : Reader BufReader
buf_reader = record {
  read = buf_read;
  content = buf_content;
  read_none = buf_read-none;
  read_some = buf_read-some;
}

-- The same steps on the bytes alone.
unfoldable pub take_full : ℕ → List ℕ → Result IoError (List ℕ × List ℕ)
take_full n bs = if leb n (length bs) then ok (take n bs, drop n bs) else err (end_error bs)

pub take_full-append :
    (n : ℕ) (xs ys : List ℕ) → n ≡ length xs → take_full n (xs ++ ys) ≡ ok (xs, ys)
unfolding take_full
take_full-append n xs ys h =
    rw h (ground (arith, length-append xs ys, take-append_left xs ys, drop-append_left xs ys))

pub take_full-eq_ok :
    (n : ℕ) (bs xs ys : List ℕ) → take_full n bs ≡ ok (xs, ys) → (bs ≡ xs ++ ys) × (length xs ≡ n)
unfolding take_full
take_full-eq_ok n bs xs ys h = ground (arith, take-append-drop n bs, length-take n bs)

unfoldable pub take_byte : List ℕ → Result IoError (ℕ × List ℕ)
take_byte [] = err eof
take_byte (b ∷ bs) = ok (b, bs)

pub take_byte-eq_ok :
    (bs : List ℕ) (b : ℕ) (rest : List ℕ) → take_byte bs ≡ ok (b, rest) → bs ≡ b ∷ rest
unfolding take_byte
take_byte-eq_ok [] b rest h = cc
take_byte-eq_ok (c ∷ cs) b rest h = ground arith

take_byte-take_full :
    (bs : List ℕ) → (take_full 1 bs >>= λ (front, rest). ok (byte_at front 0, rest)) ≡ take_byte bs
unfolding take_full take_byte
take_byte-take_full [] = refl
take_byte-take_full (b ∷ bs) = ground arith

module _ {S : Type 0} (R : Reader S) where
  -- A reader's answer, with the rest of its stream for the reader.
  abbrev pub flat {ℓ κ} : {E : Type ℓ} {A : Type κ} → Result E (A × S) → Result E (A × List ℕ)
  flat (ok (a, s)) = ok (a, R.content s)
  flat (err e) = err e

  read_loop-flat :
      (fuel : ℕ) (got : List ℕ) (n : ℕ) (s : S)
      → n ≤ fuel
      → flat (read_loop R fuel got n s) ≡ (
          if leb n (length (R.content s))
          then ok (got ++ take n (R.content s), drop n (R.content s))
          else err (end_error (got ++ R.content s)))
  unfolding read_loop
  read_loop-flat fuel got zero s h = ground (arith, append-nil got)
  read_loop-flat zero got (suc n) s h = absurd (omega arith)
  read_loop-flat (suc fuel) got (suc n) s h = elim (Option-cases (R.read (suc n) s)) [
    | inl e ↦ ground (arith, e, R.read_none (suc n) s (omega arith) e, append-nil got)
    | inr ((bs, t), e) ↦
        rw (e, read_loop, flat)
          (ground (
            arith,
            R.read_some (suc n) s bs t (omega arith) e,
            read_loop-flat fuel (got ++ bs) (suc n - length bs) t,
            take-append_ge (suc n) bs (R.content t),
            drop-append_ge (suc n) bs (R.content t),
            length-append bs (R.content t),
            append_assoc got bs (take (suc n - length bs) (R.content t)),
            append_assoc got bs (R.content t),
          ))
  ]

  -- `ReadFull` gives the next `n` bytes of the stream, however the reader splits it; it fails
  -- exactly where fewer are left.
  pub read_full-flat : (n : ℕ) (s : S) → flat (read_full R n s) ≡ take_full n (R.content s)
  unfolding read_full take_full
  read_full-flat n s = read_loop-flat n [] n s (omega arith)

  -- One step of a parser over a reader, and the same step on the bytes.
  pub flat->>= {ℓ κ μ} :
      {E : Type ℓ} {A : Type κ} {B : Type μ} (m : Result E (A × S)) (m' : Result E (A × List ℕ))
      (f : A × S → Result E (B × S)) (g : A × List ℕ → Result E (B × List ℕ))
      → flat m ≡ m'
      → ((a : A) (s : S) → flat (f (a, s)) ≡ g (a, R.content s))
      → flat (m >>= f) ≡ (m' >>= g)
  flat->>= (ok (a, s)) m' f g h k = rw (← h) (k a s)
  flat->>= (err e) m' f g h k = rw (← h)

  pub flat-wrap {ℓ κ μ} :
      {E : Type ℓ} {F : Type κ} {A : Type μ} (w : E → F) (m : Result E (A × S))
      → flat (wrap w m) ≡ wrap w (flat m)
  flat-wrap w (ok (a, s)) = refl
  flat-wrap w (err e) = refl

  pub read_byte-flat : (s : S) → flat (read_byte R s) ≡ take_byte (R.content s)
  unfolding read_byte
  read_byte-flat s =
      flat->>= (read_full R 1 s) (take_full 1 (R.content s)) _ _ (read_full-flat 1 s) (λ a t. refl)
      ∙ take_byte-take_full (R.content s)

  -- A step under the caller's name for its error.
  pub flat-step {ℓ κ μ} :
      {E : Type ℓ} {A : Type κ} {B : Type μ} (w : IoError → E) (m : Result IoError (A × S))
      (m' : Result IoError (A × List ℕ)) (f : A × S → Result E (B × S))
      (g : A × List ℕ → Result E (B × List ℕ))
      → flat m ≡ m'
      → ((a : A) (s : S) → flat (f (a, s)) ≡ g (a, R.content s))
      → flat (wrap w m >>= f) ≡ (wrap w m' >>= g)
  flat-step w m m' f g h k = flat->>= (wrap w m) (wrap w m') f g (flat-wrap w m ∙ ap (wrap w) h) k

  pub flat-guard {ℓ μ} :
      {E : Type ℓ} {B : Type μ} (b : Bool) (e : E) (m : Result E (B × S))
      (m' : Result E (B × List ℕ))
      → flat m ≡ m'
      → flat (guard b e >> m) ≡ (guard b e >> m')
  flat-guard true e m m' h = h
  flat-guard false e m m' h = refl

-- ===== src/Common/Words.antt =====
-- Bytes, and the big-endian words of `encoding/binary`.
use cloudbridge.Common.Lists.{length, take, drop, All}
use Prim.Native.Nat.{ℕ, zero, suc, ◌+◌, ◌*◌, ◌/◌, ◌%◌, ◌^◌, ◌<◌}
use mathlib.Core.Path.{◌≡◌, refl}
use mathlib.Core.List.{List, [], ◌∷◌, ◌++◌}
use native.Mathlib.Omega.{arith}

abbrev pub IsByte : ℕ → Type 0
IsByte b = b < 256

abbrev pub IsBytes : List ℕ → Type 0
IsBytes bs = All IsByte bs

-- `binary.BigEndian.PutUint16` and `PutUint32`.
abbrev pub put_uint16 : ℕ → List ℕ
put_uint16 v = (v / 256 % 256) ∷ (v % 256) ∷ []

abbrev pub put_uint32 : ℕ → List ℕ
put_uint32 v = (v / 2 ^ 24 % 256) ∷ (v / 2 ^ 16 % 256) ∷ (v / 256 % 256) ∷ (v % 256) ∷ []

-- The byte at an index; the callers check the length first, as Go's index checks demand.
abbrev pub byte_at : List ℕ → ℕ → ℕ
byte_at [] i = 0
byte_at (b ∷ bs) zero = b
byte_at (b ∷ bs) (suc i) = byte_at bs i

-- `binary.BigEndian.Uint16` and `Uint32` of the bytes from an index on.
abbrev pub uint16_at : List ℕ → ℕ → ℕ
uint16_at bs i = byte_at bs i * 256 + byte_at bs (suc i)

abbrev pub uint32_at : List ℕ → ℕ → ℕ
uint32_at bs i =
    byte_at bs i * 2 ^ 24
    + byte_at bs (suc i) * 2 ^ 16
    + byte_at bs (suc (suc i)) * 256
    + byte_at bs (suc (suc (suc i)))

pub uint16-put_uint16 :
    (v : ℕ) (rest : List ℕ) → v < 2 ^ 16 → uint16_at (put_uint16 v ++ rest) 0 ≡ v
uint16-put_uint16 v rest h = omega arith

pub uint32-put_uint32 :
    (v : ℕ) (rest : List ℕ) → v < 2 ^ 32 → uint32_at (put_uint32 v ++ rest) 0 ≡ v
uint32-put_uint32 v rest h = omega arith

pub byte_at-lt : (bs : List ℕ) (i : ℕ) → IsBytes bs → byte_at bs i < 256
byte_at-lt [] i h = omega arith
byte_at-lt (b ∷ bs) zero h = h.0
byte_at-lt (b ∷ bs) (suc i) h = byte_at-lt bs i h.1

pub drop-byte_at :
    (n : ℕ) (bs : List ℕ) → n < length bs → drop n bs ≡ byte_at bs n ∷ drop (suc n) bs
drop-byte_at n [] h = absurd (omega arith)
drop-byte_at zero (b ∷ bs) h = refl
drop-byte_at (suc n) (b ∷ bs) h = drop-byte_at n bs (omega arith)

pub put_uint16-uint16 : (a b : ℕ) → a < 256 → b < 256 → put_uint16 (a * 256 + b) ≡ a ∷ b ∷ []
put_uint16-uint16 a b ha hb = ground arith

pub put_uint32-uint32 :
    (a b c d : ℕ)
    → a < 256
    → b < 256
    → c < 256
    → d < 256
    → put_uint32 (a * 2 ^ 24 + b * 2 ^ 16 + c * 256 + d) ≡ a ∷ b ∷ c ∷ d ∷ []
put_uint32-uint32 a b c d ha hb hc hd = ground arith

pub put_uint16-IsBytes : (v : ℕ) → IsBytes (put_uint16 v)
put_uint16-IsBytes v = omega arith

pub put_uint32-IsBytes : (v : ℕ) → IsBytes (put_uint32 v)
put_uint32-IsBytes v = omega arith

pub byte_at-take : (n : ℕ) (bs : List ℕ) (i : ℕ) → i < n → byte_at (take n bs) i ≡ byte_at bs i
byte_at-take zero bs i h = absurd (omega arith)
byte_at-take (suc n) [] i h = refl
byte_at-take (suc n) (b ∷ bs) zero h = refl
byte_at-take (suc n) (b ∷ bs) (suc i) h = byte_at-take n bs i (omega arith)

-- Two bytes are the uint16 that they stand for.
pub two_bytes : (bs : List ℕ) → length bs ≡ 2 → IsBytes bs → bs ≡ put_uint16 (uint16_at bs 0)
two_bytes [] e h = absurd (omega arith)
two_bytes (a ∷ []) e h = absurd (omega arith)
two_bytes (a ∷ b ∷ []) e h = ground arith
two_bytes (a ∷ b ∷ c ∷ bs) e h = absurd (omega arith)

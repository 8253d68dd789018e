-- ===== src/Common/Results.antt =====
-- Go's pair of a value and an error: the value, or the error.
use mathlib.Core.Path.{◌≡◌, refl}
use mathlib.Core.Bool.{Bool, true, false}
use mathlib.Core.Logic.{◌⊎◌, inl, inr}

pub data Result {ℓ κ} (E : Type ℓ) (A : Type κ) : Type (ℓ ⊔ κ) where
  ok : A → Result E A
  err : E → Result E A

infixl 5 ◌>>=◌ ◌>>◌
abbrev pub ◌>>=◌ {ℓ κ μ} :
    {E : Type ℓ} {A : Type κ} {B : Type μ} → Result E A → (A → Result E B) → Result E B
ok a >>= f = f a
err e >>= f = err e

abbrev pub ◌>>◌ {ℓ μ} : {E : Type ℓ} {B : Type μ} → Result E (Unit {0}) → Result E B → Result E B
m >> k = m >>= λ _. k

-- `if !b { return e }`
abbrev pub guard {ℓ} : {E : Type ℓ} → Bool → E → Result E (Unit {0})
guard true e = ok tt
guard false e = err e

-- `fmt.Errorf("...: %w", err)`: the error of a callee under the caller's name for it.
abbrev pub wrap {ℓ κ μ} : {E : Type ℓ} {F : Type κ} {A : Type μ} → (E → F) → Result E A → Result F A
wrap f (ok a) = ok a
wrap f (err e) = err (f e)

pub Result-cases {ℓ κ} :
    {E : Type ℓ} {A : Type κ} (r : Result E A) → ((a : A) × (r ≡ ok a)) ⊎ ((e : E) × (r ≡ err e))
Result-cases (ok a) = inl (a, refl)
Result-cases (err e) = inr (e, refl)

-- Inversion of a step that succeeded, for the rest of a proof.
pub step_inv {ℓ κ μ ν ξ} :
    {E : Type ℓ} {F : Type κ} {A : Type μ} {B : Type ν} {C : Type ξ} (w : E → F) (m : Result E A)
    (f : A → Result F B) {b : B}
    → (wrap w m >>= f) ≡ ok b
    → ((a : A) → m ≡ ok a → f a ≡ ok b → C)
    → C
step_inv w (ok a) f h k = k a refl h
step_inv w (err e) f h k = cc

pub guard_inv {ℓ μ ξ} :
    {F : Type ℓ} {B : Type μ} {C : Type ξ} (c : Bool) (e : F) (m : Result F B) {b : B}
    → (guard c e >> m) ≡ ok b
    → (c ≡ true → m ≡ ok b → C)
    → C
guard_inv true e m h k = k refl h
guard_inv false e m h k = cc

pub ok_injective {ℓ κ} :
    {E : Type ℓ} {A : Type κ} {a b : A} → ◌≡◌ {A = Result E A} (ok a) (ok b) → a ≡ b
ok_injective h = cc

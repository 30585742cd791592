-- ===== src/Prelude/Results.antt =====
-- A Go call that returns a value or an error.
use mathlib.Core.Path.{◌≡◌, refl}
use native.Mathlib.Omega.{arith}

pub data Result {ℓ κ} (E : Type κ) (A : Type ℓ) : Type (ℓ ⊔ κ) where
  ok : A → Result E A
  err : E → Result E A

infixl 5 ◌>>=◌
abbrev pub ◌>>=◌ {ℓ κ λ₁} :
    {E : Type κ} {A : Type ℓ} {B : Type λ₁} → Result E A → (A → Result E B) → Result E B
err failure >>= next = err failure
ok value >>= next = next value

-- Wrapping an error: `fmt.Errorf("...: %w", err)`.
abbrev pub map_err {ℓ κ λ₁} :
    {E : Type κ} {F : Type λ₁} {A : Type ℓ} → (E → F) → Result E A → Result F A
map_err f (ok a) = ok a
map_err f (err e) = err (f e)

pub map_err-eq-ok {ℓ κ λ₁} :
    {E : Type κ} {F : Type λ₁} {A : Type ℓ} (f : E → F) (m : Result E A) {a : A}
    → map_err f m ≡ ok a
    → m ≡ ok a
map_err-eq-ok f (ok a) h = ground arith
map_err-eq-ok f (err e) h = cc

-- The first call of two that succeed one after the other, and its value.
pub >>=-eq-ok {ℓ κ λ₁} :
    {E : Type κ} {A : Type ℓ} {B : Type λ₁} (first : Result E A) (next : A → Result E B)
    {result : B}
    → (first >>= next) ≡ ok result
    → (value : A) × (first ≡ ok value) × (next value ≡ ok result)
>>=-eq-ok (err failure) next h = cc
>>=-eq-ok (ok value) next h = (value, refl, h)

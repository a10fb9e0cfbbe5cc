-- ===== src/Prelude/Results.antt =====
-- A result or an error, for Go's `(value, error)` where the value of an error is not used.
use mathlib.Core.Path.{◌≡◌, refl}

pub data Result {ℓ κ} (E : Type ℓ) (A : Type κ) : Type (ℓ ⊔ κ) where
  ok : A → Result E A
  err : E → Result E A

infixl 5 ◌>>=◌
abbrev pub ◌>>=◌ {ℓ κ μ} :
    {E : Type ℓ} {A : Type κ} {B : Type μ} → Result E A → (A → Result E B) → Result E B
ok a >>= f = f a
err e >>= f = err e

-- A chain that succeeds has a first step that succeeds.
pub >>=-eq-ok {ℓ κ μ} :
    {E : Type ℓ} {A : Type κ} {B : Type μ} (first : Result E A) (then_do : A → Result E B)
    {result : B}
    → (first >>= then_do) ≡ ok result
    → (middle : A) × (first ≡ ok middle) × (then_do middle ≡ ok result)
>>=-eq-ok (ok middle) then_do good = (middle, refl, good)
>>=-eq-ok (err failure) then_do good = cc

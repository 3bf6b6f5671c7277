-- ===== src/Prelude/Results.antt =====
-- Code that may raise: it ends with an error of the type that the module names, or with a value.
use mathlib.Core.Path.{◌≡◌, refl}

pub data Result {ℓ} (Raised : Type 0) (Value : Type ℓ) : Type ℓ where
  err : Raised → Result Raised Value
  ok : Value → Result Raised Value

-- The next step runs on the value; what was raised is passed on.
infixl 5 ◌>>=◌ ◌>>◌
abbrev pub ◌>>=◌ {ℓ κ} :
    {Raised : Type 0} {Value : Type κ} {Next : Type ℓ}
    → Result Raised Value
    → (Value → Result Raised Next)
    → Result Raised Next
err raised >>= step = err raised
ok value >>= step = step value

abbrev pub ◌>>◌ {ℓ} :
    {Raised : Type 0} {Next : Type ℓ}
    → Result Raised (Unit {0})
    → Result Raised Next
    → Result Raised Next
err raised >> step = err raised
ok done >> step = step

-- A chain that ends with a value has had one from its first step.
pub returned {ℓ κ} :
    {Raised : Type 0} {Value : Type κ} {Next : Type ℓ} (first : Result Raised Value)
    (step : Value → Result Raised Next) {last : Next}
    → (first >>= step) ≡ ok last
    → (value : Value) × (first ≡ ok value) × (step value ≡ ok last)
returned (err raised) step ends = cc
returned (ok value) step ends = (value, refl, ends)

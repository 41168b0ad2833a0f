-- ===== src/Base/Result.antt =====
-- A Go result `(T, error)` of which exactly one part is set.
use mathlib.Core.Path.{◌≡◌, refl}

pub data Result {ℓ κ} (E : Type ℓ) (A : Type κ) : Type (ℓ ⊔ κ) where
  ok : A → Result E A
  err : E → Result E A

abbrev pub ◌>>=◌ {ι κ μ} :
    {Failure : Type ι} {Value : Type κ} {Next : Type μ}
    → Result Failure Value
    → (Value → Result Failure Next)
    → Result Failure Next
err problem >>= next = err problem
ok value >>= next = next value

infixl 5 ◌>>=◌
-- A chain that succeeds has succeeded before.
pub then-ok :
    {E A B : Type 0} (r : Result E A) (f : A → Result E B) (b : B)
    → (r >>= f) ≡ ok b
    → (a : A) × (r ≡ ok a) × (f a ≡ ok b)
then-ok (ok a) f b e = (a, refl, e)
then-ok (err p) f b e = cc

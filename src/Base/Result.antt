-- ===== src/Base/Result.antt =====
-- Go's `(value, error)`: a value, or an error of the type `E`.
use mathlib.Core.Path.{◌≡◌, refl}
use mathlib.Core.Logic.{◌⊎◌, inl, inr}

pub data Result (E A : Type 0) : Type 0 where
  ok : A → Result E A
  err : E → Result E A

infixl 5 ◌>>=◌
abbrev pub ◌>>=◌ : {E A B : Type 0} → Result E A → (A → Result E B) → Result E B
ok a >>= f = f a
err e >>= f = err e

pub Result-cases :
    {E A : Type 0} (r : Result E A) → ((a : A) × (r ≡ ok a)) ⊎ ((e : E) × (r ≡ err e))
Result-cases (ok a) = inl (a, refl)
Result-cases (err e) = inr (e, refl)

-- The same result with its error in a wider type.
abbrev pub or_exit : {E X A : Type 0} → (E → X) → Result E A → Result X A
or_exit exit (ok a) = ok a
or_exit exit (err e) = err (exit e)

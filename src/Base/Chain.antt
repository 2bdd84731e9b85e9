-- ===== src/Base/Chain.antt =====
-- A long chain of calls whose first error is returned at once. Unlike the one of Result, this `>>=`
-- is no abbreviation, and what holds of the chain's value is proved call by call by its rule.
use itmo_master_research.Base.Result.{Result, ok, err}
use mathlib.Core.Path.{◌≡◌, refl, subst}

infixl 5 ◌>>=◌
unfoldable pub ◌>>=◌ : {E A B : Type 0} → Result E A → (A → Result E B) → Result E B
ok a >>= f = f a
err e >>= f = err e

-- What is said of a value, said of a result: of its value, if it has one.
abbrev pub Holds : {E A : Type 0} → (A → Type 0) → Result E A → Type 0
Holds P (ok a) = P a
Holds P (err e) = Unit

pub >>=-Holds :
    {E A B : Type 0} (P : B → Type 0) (r : Result E A) (f : A → Result E B)
    → ((a : A) → r ≡ ok a → Holds P (f a))
    → Holds P (r >>= f)
unfolding ◌>>=◌
>>=-Holds P (ok a) f h = h a refl
>>=-Holds P (err e) f h = tt

pub Holds-ok : {E A : Type 0} (P : A → Type 0) (r : Result E A) (a : A) → r ≡ ok a → Holds P r → P a
Holds-ok P r a e h = subst (Holds P) e h

-- ===== src/Base/Exchange.antt =====
-- The exchange sort that warmkit/fsm.go (`percentileDuration`) and
-- benchmark/internal/report/report.go (`medianInt64`) write out over int64 values.
use mathlib.Core.List.{Perm}
use mathlib.Core.List.Perm
use itmo_master_research.Base.Int.{ℤ, ltb_ℤ, ◌≤ℤ◌}
use itmo_master_research.Base.Tests.{if◌then◌else◌, Bool-cases}
use itmo_master_research.Base.Lists.{length, All}
use Prim.Native.Nat.{ℕ, zero, suc, ◌≤◌}
use mathlib.Core.Path.{◌≡◌, refl}
use mathlib.Core.Logic.{inl, inr}
use mathlib.Core.List.{List, [], ◌∷◌}
use native.Mathlib.Omega.{arith}

-- The inner loop, `x` standing at `cp[i]` and the list at `cp[i+1:]`: where an element is less
-- than `cp[i]` the two are exchanged.
unfoldable pub sweep : ℤ → List ℤ → ℤ × List ℤ
sweep x [] = (x, [])
sweep x (y ∷ ys) =
    if ltb_ℤ y x
    then (let (m, r) = sweep y ys in (m, x ∷ r))
    else (let (m, r) = sweep x ys in (m, y ∷ r))

-- The outer loop; the first argument counts the positions that are left.
unfoldable pub exchange : ℕ → List ℤ → List ℤ
unfolding sweep
exchange zero xs = xs
exchange (suc n) [] = []
exchange (suc n) (x ∷ xs) = let (m, r) = sweep x xs in m ∷ exchange n r

unfoldable pub exchange_sort : List ℤ → List ℤ
unfolding exchange
exchange_sort xs = exchange (length xs) xs

abbrev pub IsSorted : List ℤ → Type 0
IsSorted [] = Unit {0}
IsSorted (x ∷ xs) = All (λ y. x ≤ℤ y) xs × IsSorted xs

length-sweep : (x : ℤ) (xs : List ℤ) → length (sweep x xs).1 ≡ length xs
unfolding sweep
length-sweep x [] = refl
length-sweep x (y ∷ ys) = ground (arith, length-sweep x ys, length-sweep y ys)

sweep-le : (x : ℤ) (xs : List ℤ) → (sweep x xs).0 ≤ℤ x
unfolding sweep
sweep-le x [] = omega arith
sweep-le x (y ∷ ys) = ground (arith, sweep-le x ys, sweep-le y ys)

-- The inner loop leaves the least element at position `i`.
sweep-least : (x : ℤ) (xs : List ℤ) → All (λ y. (sweep x xs).0 ≤ℤ y) (sweep x xs).1
unfolding sweep
sweep-least x [] = tt
sweep-least x (y ∷ ys) = elim (Bool-cases (ltb_ℤ y x)) [
  | inl less ↦ rw less (ground (arith, sweep-le y ys), sweep-least y ys)
  | inr more ↦ rw more (ground (arith, sweep-le x ys), sweep-least x ys)
]

sweep-perm : (x : ℤ) (xs : List ℤ) → Perm ((sweep x xs).0 ∷ (sweep x xs).1) (x ∷ xs)
unfolding sweep
sweep-perm x [] = Perm.rfl
sweep-perm x (y ∷ ys) = elim (Bool-cases (ltb_ℤ y x)) [
  | inl less ↦
      rw less
        (Perm.trans (Perm.swap x (sweep y ys).0 (sweep y ys).1) (Perm.cons x (sweep-perm y ys)))
  | inr more ↦ rw more (
      Perm.trans (Perm.swap y (sweep x ys).0 (sweep x ys).1)
        (Perm.trans (Perm.cons y (sweep-perm x ys)) (Perm.swap x y ys)))
]

exchange-perm : (n : ℕ) (xs : List ℤ) → Perm (exchange n xs) xs
unfolding exchange
exchange-perm zero xs = Perm.rfl
exchange-perm (suc n) [] = Perm.rfl
exchange-perm (suc n) (x ∷ xs) =
    Perm.trans (Perm.cons (sweep x xs).0 (exchange-perm n (sweep x xs).1)) (sweep-perm x xs)

pub exchange_sort-perm : (xs : List ℤ) → Perm (exchange_sort xs) xs
unfolding exchange_sort
exchange_sort-perm xs = exchange-perm (length xs) xs

pub length-exchange : (n : ℕ) (xs : List ℤ) → length (exchange n xs) ≡ length xs
unfolding exchange
length-exchange zero xs = refl
length-exchange (suc n) [] = refl
length-exchange (suc n) (x ∷ xs) =
    omega (arith, length-exchange n (sweep x xs).1, length-sweep x xs)

pub length-exchange_sort : (xs : List ℤ) → length (exchange_sort xs) ≡ length xs
unfolding exchange_sort
length-exchange_sort xs = length-exchange (length xs) xs

All-sweep :
    (P : ℤ → Type 0) (x : ℤ) (xs : List ℤ)
    → P x
    → All P xs
    → P (sweep x xs).0 × All P (sweep x xs).1
unfolding sweep
All-sweep P x [] p ps = (p, tt)
All-sweep P x (y ∷ ys) p ps = elim (Bool-cases (ltb_ℤ y x)) [
  | inl less ↦ let (q, qs) = All-sweep P y ys ps.0 ps.1 in rw less (q, (p, qs))
  | inr more ↦ let (q, qs) = All-sweep P x ys p ps.1 in rw more (q, (ps.0, qs))
]

pub All-exchange : (P : ℤ → Type 0) (n : ℕ) (xs : List ℤ) → All P xs → All P (exchange n xs)
unfolding exchange
All-exchange P zero xs ps = ps
All-exchange P (suc n) [] ps = ps
All-exchange P (suc n) (x ∷ xs) ps =
    let (q, qs) = All-sweep P x xs ps.0 ps.1 in (q, All-exchange P n (sweep x xs).1 qs)

exchange-IsSorted : (n : ℕ) (xs : List ℤ) → length xs ≤ n → IsSorted (exchange n xs)
unfolding exchange
exchange-IsSorted zero [] h = tt
exchange-IsSorted zero (x ∷ xs) h = elim h [ ]
exchange-IsSorted (suc n) [] h = tt
exchange-IsSorted (suc n) (x ∷ xs) h = (
  All-exchange (λ y. (sweep x xs).0 ≤ℤ y) n (sweep x xs).1 (sweep-least x xs),
  exchange-IsSorted n (sweep x xs).1 (omega (arith, length-sweep x xs)),
)

-- The sort puts its input in ascending order.
pub exchange_sort-IsSorted : (xs : List ℤ) → IsSorted (exchange_sort xs)
unfolding exchange_sort
exchange_sort-IsSorted xs = exchange-IsSorted (length xs) xs (omega arith)

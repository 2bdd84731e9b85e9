-- ===== src/Base/Rank.antt =====
-- What the element at an index of the exchange sort is: an order statistic of the input.
use itmo_master_research.Base.Int.{ℤ, leb_ℤ, ◌≤ℤ◌}
use itmo_master_research.Base.Tests.{if◌then◌else◌}
use itmo_master_research.Base.Lists.{length, All, get_elem?, get_elem?-total}
use itmo_master_research.Base.Exchange.{
  sweep, exchange, exchange_sort, IsSorted, exchange_sort-IsSorted, length-exchange_sort,
}
use Prim.Native.Nat.{ℕ, zero, suc, ◌+◌, ◌≤◌, ◌<◌}
use mathlib.Core.Path.{◌≡◌, refl}
use mathlib.Core.Option.{some}
use mathlib.Core.List.{List, [], ◌∷◌}
use native.Mathlib.Omega.{arith}

-- How many elements are at most, and at least, `v`.
pub count_le : ℤ → List ℤ → ℕ
count_le v [] = 0
count_le v (x ∷ xs) = (if leb_ℤ x v then 1 else 0) + count_le v xs

pub count_ge : ℤ → List ℤ → ℕ
count_ge v [] = 0
count_ge v (x ∷ xs) = (if leb_ℤ v x then 1 else 0) + count_ge v xs

-- `v` may stand at index `i` of the list in ascending order.
pub record IsRanked (v : ℤ) (i : ℕ) (xs : List ℤ) : Type 0 where
  pub below : i < count_le v xs
  pub above : length xs ≤ count_ge v xs + i

sweep-count :
    (v x : ℤ) (xs : List ℤ)
    → (count_le v ((sweep x xs).0 ∷ (sweep x xs).1) ≡ count_le v (x ∷ xs))
      × (count_ge v ((sweep x xs).0 ∷ (sweep x xs).1) ≡ count_ge v (x ∷ xs))
unfolding sweep count_le count_ge
sweep-count v x [] = (refl, refl)
sweep-count v x (y ∷ ys) = ground (arith, sweep-count v x ys, sweep-count v y ys)

exchange-count :
    (v : ℤ) (n : ℕ) (xs : List ℤ)
    → (count_le v (exchange n xs) ≡ count_le v xs) × (count_ge v (exchange n xs) ≡ count_ge v xs)
unfolding exchange count_le count_ge
exchange-count v zero xs = (refl, refl)
exchange-count v (suc n) [] = (refl, refl)
exchange-count v (suc n) (x ∷ xs) =
    ground (arith, exchange-count v n (sweep x xs).1, sweep-count v x xs)

exchange_sort-count :
    (v : ℤ) (xs : List ℤ)
    → (count_le v (exchange_sort xs) ≡ count_le v xs)
      × (count_ge v (exchange_sort xs) ≡ count_ge v xs)
unfolding exchange_sort
exchange_sort-count v xs = exchange-count v (length xs) xs

All-count_ge : (v : ℤ) (xs : List ℤ) → All (λ y. v ≤ℤ y) xs → count_ge v xs ≡ length xs
unfolding count_ge
All-count_ge v [] h = refl
All-count_ge v (x ∷ xs) h = ground (arith, All-count_ge v xs h.1)

All-get_elem? :
    (x v : ℤ) (i : ℕ) (xs : List ℤ) → All (λ y. x ≤ℤ y) xs → get_elem? xs i ≡ some v → x ≤ℤ v
All-get_elem? x v i [] h e = cc
All-get_elem? x v zero (y ∷ ys) h e = ground (arith, h.0)
All-get_elem? x v (suc i) (y ∷ ys) h e = All-get_elem? x v i ys h.1 e

IsSorted-IsRanked :
    (v : ℤ) (i : ℕ) (xs : List ℤ) → IsSorted xs → get_elem? xs i ≡ some v → IsRanked v i xs
unfolding count_le count_ge
IsSorted-IsRanked v i [] s e = cc
IsSorted-IsRanked v zero (x ∷ xs) s e =
    let same : x ≡ v = ground arith in
    record { below = ground arith; above = ground (arith, same, All-count_ge x xs s.0) }
IsSorted-IsRanked v (suc i) (x ∷ xs) s e =
    let rest = IsSorted-IsRanked v i xs s.1 e in
    let low = All-get_elem? x v i xs s.0 e in
    record { below = ground (arith, rest.below); above = ground (arith, rest.above) }

-- Every index below the length of the input has a value, and its rank is the index.
pub exchange_sort-IsRanked :
    (xs : List ℤ) (i : ℕ)
    → i < length xs
    → (v : ℤ) × (get_elem? (exchange_sort xs) i ≡ some v) × IsRanked v i xs
exchange_sort-IsRanked xs i h =
    let (v, at) = get_elem?-total (exchange_sort xs) i (omega (arith, length-exchange_sort xs)) in
    let r = IsSorted-IsRanked v i (exchange_sort xs) (exchange_sort-IsSorted xs) at in
    let c = exchange_sort-count v xs in
    (
      v,
      at,
      record {
        below = omega (arith, r.below, c.0);
        above = omega (arith, r.above, c.1, length-exchange_sort xs);
      },
    )

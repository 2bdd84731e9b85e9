-- ===== src/Base/Int.antt =====
-- Go's signed integers: ℤ over the native numbers, and the 64-bit wrap-around.
use Prim.Native.Nat.{ℕ, suc, ◌+◌, ◌-◌, ◌*◌, ◌%◌, ◌≤◌, ◌<◌}
use mathlib.Core.Path.{◌≡◌, refl}
use mathlib.Core.Logic.{◌⊎◌, inl, inr}
use mathlib.Core.Bool.{Bool, true, false, not}
use native.Mathlib.Omega.{arith}
use itmo_master_research.Base.Tests.{ltb, leb, if◌then◌else◌}

-- `negsuc n` is -(n + 1).
pub data ℤ : Type 0 where
  pos : ℕ → ℤ
  negsuc : ℕ → ℤ

abbrev pub pos_part : ℤ → ℕ
pos_part (pos n) = n
pos_part (negsuc n) = 0

abbrev pub neg_part : ℤ → ℕ
neg_part (pos n) = 0
neg_part (negsuc n) = suc n

-- a - b, as an integer.
abbrev pub sub_ℕ : ℕ → ℕ → ℤ
sub_ℕ a b = if leb b a then pos (a - b) else negsuc (b - a - 1)

infix 50 ◌≤ℤ◌ ◌<ℤ◌
abbrev pub ◌≤ℤ◌ : ℤ → ℤ → Type 0
a ≤ℤ b = pos_part a + neg_part b ≤ pos_part b + neg_part a

abbrev pub ◌<ℤ◌ : ℤ → ℤ → Type 0
a <ℤ b = pos_part a + neg_part b < pos_part b + neg_part a

abbrev pub ltb_ℤ : ℤ → ℤ → Bool
ltb_ℤ a b = ltb (pos_part a + neg_part b) (pos_part b + neg_part a)

abbrev pub leb_ℤ : ℤ → ℤ → Bool
leb_ℤ a b = not (ltb_ℤ b a)

abbrev pub eqb_ℤ : ℤ → ℤ → Bool
eqb_ℤ a b = if ltb_ℤ a b then false else leb_ℤ a b

abbrev pub two63 : ℕ
two63 = 0x8000_0000_0000_0000

abbrev pub two64 : ℕ
two64 = 0x1_0000_0000_0000_0000

-- The int64 whose bit pattern is `b`, for `b` below 2^64.
abbrev pub from_bits : ℕ → ℤ
from_bits b = if ltb b two63 then pos b else negsuc (two64 - 1 - b)

-- The int64 that a mathematical integer wraps to.
abbrev pub wrap64 : ℤ → ℤ
wrap64 (pos n) = from_bits (n % two64)
wrap64 (negsuc n) = from_bits (two64 - 1 - n % two64)

-- Addition without a bound.
infixl 6 ◌+ℤ◌
unfoldable pub ◌+ℤ◌ : ℤ → ℤ → ℤ
a +ℤ b = sub_ℕ (pos_part a + pos_part b) (neg_part a + neg_part b)

unfoldable pub add64 : ℤ → ℤ → ℤ
add64 a b = wrap64 (sub_ℕ (pos_part a + pos_part b) (neg_part a + neg_part b))

unfoldable pub sub64 : ℤ → ℤ → ℤ
sub64 a b = wrap64 (sub_ℕ (pos_part a + neg_part b) (neg_part a + pos_part b))

unfoldable pub mul64 : ℤ → ℤ → ℤ
mul64 a b = wrap64 (
    sub_ℕ (pos_part a * pos_part b + neg_part a * neg_part b)
      (pos_part a * neg_part b + neg_part a * pos_part b))

-- A value of Go's `int` or `int64`.
abbrev pub IsInt64 : ℤ → Type 0
IsInt64 a = (pos_part a < two63) × (neg_part a ≤ two63)

-- Addition does not wrap where the sum is in range.
pub add64-pos : (a b : ℕ) → a + b < two63 → add64 (pos a) (pos b) ≡ pos (a + b)
unfolding add64
add64-pos a b h = ground arith

pub add64-inc :
    (z : ℤ) → neg_part z ≡ 0 → pos_part z + 1 < two63 → add64 z (pos 1) ≡ pos (pos_part z + 1)
unfolding add64
add64-inc z h k = ground arith

pub mul64-pos : (a b : ℕ) → a * b < two63 → mul64 (pos a) (pos b) ≡ pos (a * b)
unfolding mul64
mul64-pos a b h = ground arith

pub ≤ℤ_antisymm : (a b : ℤ) → a ≤ℤ b → b ≤ℤ a → a ≡ b
≤ℤ_antisymm a b h k = ground arith

pub leb_ℤ→≤ℤ : (a b : ℤ) → leb_ℤ a b ≡ true → a ≤ℤ b
leb_ℤ→≤ℤ a b h = ground arith

pub ≤ℤ→leb_ℤ : (a b : ℤ) → a ≤ℤ b → leb_ℤ a b ≡ true
≤ℤ→leb_ℤ a b h = ground arith

pub sub64-one : (c : ℕ) → suc c < two63 → sub64 (pos (suc c)) (pos 1) ≡ pos c
unfolding sub64
sub64-one c h = ground arith

pub ℤ-cases : (z : ℤ) → ((n : ℕ) × (z ≡ pos n)) ⊎ ((n : ℕ) × (z ≡ negsuc n))
ℤ-cases (pos n) = inl (n, refl)
ℤ-cases (negsuc n) = inr (n, refl)

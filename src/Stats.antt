-- ===== src/Stats.antt =====
-- The outlier filter and the verdict of benchmark/internal/stats/stats.go. `F` is float64; sort.Slice
-- is a parameter. None stands for the panic of an index out of range.
pub mod Outliers
pub mod Bootstrap
use itmo_master_research.Base.{
  ℕ, zero, suc, ◌+◌, ◌-◌, ℤ, pos, negsuc, Bool, true, false, ◌&&◌, ltb, List, [], ◌∷◌, length,
  get_elem?, Option, none, some, ltb_ℤ, eqb_ℤ, if◌then◌else◌,
}
use itmo_master_research.Base.Float.{Float64}

infixl 5 ◌>>=◌
abbrev pub ◌>>=◌ : {A B : Type 0} → Option A → (A → Option B) → Option B
some a >>= f = f a
none >>= f = none

-- The local type `indexed` of `FilterIQRIndexed`.
pub record Indexed (F : Type 0) : Type 0 where
  pub val : F
  pub idx : ℕ

-- What `EvaluateCV` reads of a summary.
pub record CvSummary (F : Type 0) : Type 0 where
  pub cv : F
  pub n_filtered : ℕ

-- The reasons of a verdict, with the values that their texts print.
pub data Reason (F : Type 0) : Type 0 where
  no_reason : Reason F
  too_few : ℕ → Reason F
  too_high : F → F → Reason F

pub record CvVerdict (F : Type 0) : Type 0 where
  pub pass : Bool
  pub reason : Reason F

module _ {F : Type 0} (float : Float64 F) where
  unfoldable pub at : List F → ℤ → Option F
  at xs (pos i) = get_elem? xs i
  at xs (negsuc i) = none

  unfoldable pub percentile : List F → F → Option F
  unfolding at
  percentile [] p = some (float.of_int (pos 0))
  percentile (x ∷ []) p = some x
  percentile (x ∷ y ∷ sorted) p =
      let all = x ∷ y ∷ sorted in
      let rank = float.mul p (float.of_int (pos (length all - 1))) in
      let lo = float.floor rank in
      let hi = float.ceil rank in
      if eqb_ℤ lo hi
      then at all lo
      else let frac = float.sub rank (float.of_int lo) in
        (at all lo >>= λ low. at all hi >>= λ high.
        some
          (float.add (float.mul low (float.sub (float.of_int (pos 1)) frac)) (float.mul high frac)))

  unfoldable pub numbered : ℕ → List F → List (Indexed F)
  numbered i [] = []
  numbered i (v ∷ values) = record { val = v; idx = i } ∷ numbered (suc i) values

  unfoldable pub vals : List (Indexed F) → List F
  vals [] = []
  vals (it ∷ items) = it.val ∷ vals items

  -- The loop that parts the items: the values between the bounds, and the indexes of the others.
  unfoldable pub part : F → F → List (Indexed F) → List F × List ℕ
  part low high [] = ([], [])
  part low high (it ∷ items) =
      let rest = part low high items in
      if float.le low it.val && float.le it.val high
      then (it.val ∷ rest.0, rest.1)
      else (rest.0, it.idx ∷ rest.1)

  -- The last test: when nothing is left, nothing is filtered.
  unfoldable pub or_all : List F → List F × List ℕ → List F × List ℕ
  or_all values ([], outliers) = (values, [])
  or_all values (v ∷ filtered, outliers) = (v ∷ filtered, outliers)

  unfoldable pub filter_iqr_indexed :
      (List (Indexed F) → List (Indexed F)) → List F → Option (List F × List ℕ)
  unfolding percentile numbered vals part or_all
  filter_iqr_indexed sort_slice values = if ltb (length values) 5 then some (values, []) else do
    let items = sort_slice (numbered 1 values)
    q1 ← percentile (vals items) (float.lit 25 100)
    q3 ← percentile (vals items) (float.lit 75 100)
    let iqr = float.sub q3 q1
    let low = float.sub q1 (float.mul (float.lit 15 10) iqr)
    let high = float.add q3 (float.mul (float.lit 15 10) iqr)
    some (or_all values (part low high items))

  unfoldable pub evaluate_cv : CvSummary F → F → CvVerdict F
  evaluate_cv sum threshold =
      if ltb sum.n_filtered 5
      then record { pass = false; reason = too_few sum.n_filtered }
      else if float.le sum.cv threshold
      then record { pass = true; reason = no_reason }
      else record { pass = false; reason = too_high sum.cv threshold }

-- ===== src/Loadgen/Blocks.antt =====
-- The blocks of `BlockMedians` (benchmark/internal/loadgen/blocks.go).
use itmo_master_research.Base.{
  ℕ, zero, suc, ◌+◌, ◌*◌, ◌≤◌, ◌<◌, ◌≡◌, refl, sym, ◌∙◌, ap, ℤ, pos, List, [], ◌∷◌, length, take,
  drop, get_elem?, ltb, true, false, if◌then◌else◌, Bool-cases, inl, inr, none, some, length-drop,
  drop-drop, arith,
}
use itmo_master_research.Base.Float.{Float64}
use itmo_master_research.Loadgen.{block_median, blocks_from, block_medians}

ltb-lt : (a b : ℕ) → ltb a b ≡ true → a < b
ltb-lt a b h = ground arith

ltb-ge : (a b : ℕ) → ltb a b ≡ false → b ≤ a
ltb-ge a b h = ground arith

suc-times : (i size : ℕ) → suc i * size ≡ size + i * size
suc-times i size = omega arith

module _ {F : Type 0} (float : Float64 F) (sort_slice : List ℤ → List ℤ) where
  blocks_from-get :
      (fuel size i : ℕ) (rtts : List ℤ)
      → length rtts ≤ fuel
      → 1 ≤ size
      → i * size < length rtts
      → get_elem? (blocks_from float sort_slice fuel size rtts) i
        ≡ some (block_median float sort_slice (take size (drop (i * size) rtts)))
  unfolding blocks_from
  blocks_from-get zero size i rtts h k l = absurd (omega arith)
  blocks_from-get (suc fuel) size i [] h k l = absurd (omega arith)
  blocks_from-get (suc fuel) size zero (x ∷ rtts) h k l =
      let start : 0 ≡ 0 * size = omega arith in
      ap (λ k. some (block_median float sort_slice (take size (drop k (x ∷ rtts))))) start
  blocks_from-get (suc fuel) size (suc i) (x ∷ rtts) h k l =
      let rest = drop size (x ∷ rtts) in
      blocks_from-get fuel size i rest (omega (arith, length-drop size (x ∷ rtts))) k
        (omega (arith, length-drop size (x ∷ rtts), suc-times i size))
      ∙ ap (λ (l : List ℤ). some (block_median float sort_slice (take size l)))
          (drop-drop (i * size) size (x ∷ rtts)
            ∙ ap (λ (k : ℕ). drop k (x ∷ rtts)) (sym (suc-times i size)))

  blocks_from-none :
      (fuel size i : ℕ) (rtts : List ℤ)
      → length rtts ≤ fuel
      → 1 ≤ size
      → length rtts ≤ i * size
      → get_elem? (blocks_from float sort_slice fuel size rtts) i ≡ none
  unfolding blocks_from
  blocks_from-none zero size i rtts h k l = refl
  blocks_from-none (suc fuel) size i [] h k l = refl
  blocks_from-none (suc fuel) size zero (x ∷ rtts) h k l = absurd (omega (arith, l))
  blocks_from-none (suc fuel) size (suc i) (x ∷ rtts) h k l =
      blocks_from-none fuel size i (drop size (x ∷ rtts))
        (omega (arith, length-drop size (x ∷ rtts))) k
        (omega (arith, length-drop size (x ∷ rtts), suc-times i size))

  block_medians-size :
      (rtts : List ℤ) (size : ℕ)
      → 1 ≤ size
      → block_medians float sort_slice rtts (pos size)
        ≡ blocks_from float sort_slice (length rtts) size rtts
  unfolding block_medians
  block_medians-size rtts size k = ground arith

  -- `BlockMedians` with a positive block size cuts the times into blocks of that size: its i-th
  -- value is the median of the i-th block when that block has an element, and there is no i-th
  -- value when it has none.
  pub block_medians-get :
      (rtts : List ℤ) (size i : ℕ)
      → 1 ≤ size
      → get_elem? (block_medians float sort_slice rtts (pos size)) i ≡ (
          if ltb (i * size) (length rtts)
          then some (block_median float sort_slice (take size (drop (i * size) rtts)))
          else none)
  block_medians-get rtts size i k =
      let whole = block_medians-size rtts size k in
      elim (Bool-cases (ltb (i * size) (length rtts))) [
        | inl e ↦
            rw (whole, e)
              (blocks_from-get (length rtts) size i rtts (omega arith) k
                (ltb-lt (i * size) (length rtts) e))
        | inr e ↦
            rw (whole, e)
              (blocks_from-none (length rtts) size i rtts (omega arith) k
                (ltb-ge (i * size) (length rtts) e))
      ]

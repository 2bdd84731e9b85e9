-- ===== src/Loadgen.antt =====
-- benchmark/internal/loadgen/profile.go and blocks.go: the shape of a load, and the medians of the
-- measured times by blocks. `F` is float64; sort.Slice is a parameter.
pub mod Steady
pub mod Blocks
use itmo_master_research.Base.{
  ℕ, zero, suc, ◌+◌, ◌/◌, ◌%◌, ◌-◌, ℤ, pos, pos_part, String, Bool, true, false, ◌&&◌, not, eqb,
  List, [], ◌∷◌, length, take, drop, get_elem?, Option, none, some, ltb_ℤ, leb_ℤ, add64,
  if◌then◌else◌,
}
use itmo_master_research.Base.Float.{Float64}

pub record Profile : Type 0 where
  pub max_rps : ℤ
  pub ramp_up_sec : ℤ
  pub steady_sec : ℤ
  pub ramp_down_sec : ℤ

unfoldable pub total_sec : Profile → ℤ
total_sec p = add64 (add64 p.ramp_up_sec p.steady_sec) p.ramp_down_sec

module _ {F : Type 0} (float : Float64 F) where
  unfoldable pub in_steady : Profile → F → Bool
  in_steady p elapsed_sec =
      if float.lt elapsed_sec (float.of_int p.ramp_up_sec)
      then false
      else float.lt elapsed_sec (float.of_int (add64 p.ramp_up_sec p.steady_sec))

  unfoldable pub phase : Profile → F → String
  phase p elapsed_sec =
      if float.lt elapsed_sec (float.of_int p.ramp_up_sec)
      then "ramp-up"
      else if float.lt elapsed_sec (float.of_int (add64 p.ramp_up_sec p.steady_sec))
      then "steady"
      else "ramp-down"

  -- The rate of the ramp-up.
  up_rps : Profile → F → ℤ
  up_rps p elapsed_sec =
      let rps =
        float.round (
          float.div (float.mul (float.of_int p.max_rps) elapsed_sec)
            (float.of_int p.ramp_up_sec)) in
      if ltb_ℤ rps (pos 1) && float.lt (float.of_int (pos 0)) elapsed_sec then pos 1 else rps

  -- The rate of the ramp-down.
  down_rps : Profile → F → F → ℤ
  down_rps p steady_end elapsed_sec =
      let remaining = float.sub (float.add steady_end (float.of_int p.ramp_down_sec)) elapsed_sec in
      let rps =
        float.round (
          float.div (float.mul (float.of_int p.max_rps) remaining)
            (float.of_int p.ramp_down_sec)) in
      if ltb_ℤ rps (pos 0) then pos 0 else rps

  unfoldable pub target_rps : Profile → F → ℤ
  unfolding total_sec up_rps down_rps
  target_rps p elapsed_sec =
      let steady_end = float.of_int (add64 p.ramp_up_sec p.steady_sec) in
      if float.lt elapsed_sec (float.of_int (pos 0))
      then pos 0
      else if float.le (float.of_int (total_sec p)) elapsed_sec
      then pos 0
      else if ltb_ℤ (pos 0) p.ramp_up_sec && float.lt elapsed_sec (float.of_int p.ramp_up_sec)
      then up_rps p elapsed_sec
      else if float.lt elapsed_sec steady_end
      then p.max_rps
      else if leb_ℤ p.ramp_down_sec (pos 0)
      then pos 0
      else down_rps p steady_end elapsed_sec

  -- An element of a slice that the loop has checked to be there.
  at : List ℤ → ℕ → ℤ
  at xs i = elim (get_elem? xs i) [ none ↦ pos 0 | some x ↦ x ]

  module _ (sort_slice : List ℤ → List ℤ) where
    -- What the body of the loop appends for one block.
    unfoldable pub block_median : List ℤ → F
    unfolding at
    block_median block =
        let cp = sort_slice block in
        let mid = length cp / 2 in
        if eqb (length cp % 2) 0
        then float.div (float.of_int (add64 (at cp (mid - 1)) (at cp mid))) (float.of_int (pos 2))
        else float.of_int (at cp mid)

    -- The loop, with fuel: a block of at least one element leaves the rest shorter.
    unfoldable pub blocks_from : ℕ → ℕ → List ℤ → List F
    unfolding block_median
    blocks_from zero size rtts = []
    blocks_from (suc fuel) size [] = []
    blocks_from (suc fuel) size (x ∷ rtts) =
        let rest = blocks_from fuel size (drop size (x ∷ rtts)) in
        block_median (take size (x ∷ rtts)) ∷ rest

    unfoldable pub block_medians : List ℤ → ℤ → List F
    unfolding blocks_from
    block_medians rtts block_size =
        let size = if leb_ℤ block_size (pos 0) then 1 else pos_part block_size in
        blocks_from (length rtts) size rtts

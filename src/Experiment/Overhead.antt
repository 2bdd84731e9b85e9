-- ===== src/Experiment/Overhead.antt =====
-- `RunOverhead` of benchmark/internal/experiment/experiment.go: two sides, mirror off and mirror on,
-- measured by turns. `attempt` runs one measurement; its samples and the results built from them
-- are parameters.
pub mod Balance
pub mod Loaded
use itmo_master_research.Base.{
  ℕ, zero, suc, ◌+◌, ◌*◌, ◌%◌, Bool, true, false, ◌&&◌, ◌||◌, not, ltb, leb, eqb, List, [], ◌∷◌,
  ◌++◌, length, Option, none, some, if◌then◌else◌,
}
use itmo_master_research.Base.Result.{Result, ok, err}

-- `overheadSide`: its name, its switch and its ratio follow from which of the two it is.
pub data Side : Type 0 where
  mirror_off mirror_on : Side

unfoldable pub overhead_side_can_collect : ℕ → ℕ → Bool
overhead_side_can_collect count max_runs = ltb count max_runs

-- The closure `try` of `pickOverheadSide`.
pub try_side : ℕ → ℕ → ℕ → Bool → Option Side
unfolding overhead_side_can_collect
try_side off_count on_count max_runs true =
    if overhead_side_can_collect off_count max_runs then some mirror_off else none
try_side off_count on_count max_runs false =
    if overhead_side_can_collect on_count max_runs then some mirror_on else none

or_else : Option Side → Option Side → Option Side
or_else (some side) other = some side
or_else none other = other

unfoldable pub pick_overhead_side : ℕ → ℕ → ℕ → ℕ → Option Side
unfolding try_side or_else
pick_overhead_side attempt off_count on_count max_runs =
    let try = try_side off_count on_count max_runs in
    if eqb (attempt % 2) 1 then or_else (try true) (try false) else or_else (try false) (try true)

-- What `RunOverhead` reads of the manifest. `LoadFromEnv` admits only numbers of
-- runs that are at least 1; they are taken to be below 2^62, where doubling does not wrap around.
pub record Limits : Type 0 where
  pub h4_runs : ℕ
  pub h4_max_runs : ℕ
  pub profile_on_high_cv : Bool

-- The runs of the two sides, oldest first.
pub record Collected (A : Type 0) : Type 0 where
  pub off_runs : List A
  pub on_runs : List A

unfoldable pub max_per_side : Limits → ℕ
max_per_side m = if not m.profile_on_high_cv then m.h4_runs else m.h4_max_runs

-- `E` is Go's error, `A` the sample of one attempt, `cv_pass` the verdict on the results that are
-- built from a side's samples.
module _ {E A : Type 0} (m : Limits) (cv_pass : Side → List A → Bool)
    (attempt : Side → ℕ → ℕ → Result E A) where
  unfoldable pub overhead_collection_done : Collected A → Bool
  overhead_collection_done c =
      if ltb (length c.off_runs) m.h4_runs || ltb (length c.on_runs) m.h4_runs
      then false
      else if not m.profile_on_high_cv
      then true
      else cv_pass mirror_off c.off_runs && cv_pass mirror_on c.on_runs

  run_index : Collected A → Side → ℕ
  run_index c mirror_off = length c.off_runs + 1
  run_index c mirror_on = length c.on_runs + 1

  unfoldable pub append_run : Collected A → Side → A → Collected A
  append_run c mirror_off a = record c { off_runs = c.off_runs ++ a ∷ [] }
  append_run c mirror_on a = record c { on_runs = c.on_runs ++ a ∷ [] }

  -- The test that ends the body of the loop: whether it returns its results here.
  unfoldable pub returns_here : Collected A → Bool
  unfolding overhead_collection_done
  returns_here c =
      if leb m.h4_runs (length c.off_runs) && leb m.h4_runs (length c.on_runs)
      then overhead_collection_done c
        || (leb m.h4_max_runs (length c.off_runs) && leb m.h4_max_runs (length c.on_runs))
      else false

  -- The loop from an attempt on, with the number of attempts that are left.
  unfoldable pub collect_from : ℕ → ℕ → Collected A → Result E (Collected A)
  unfolding pick_overhead_side run_index append_run returns_here
  collect_from zero n c = ok c
  collect_from (suc left) n c =
      elim (pick_overhead_side n (length c.off_runs) (length c.on_runs) (max_per_side m)) [
        | none ↦ ok c
        | some side ↦ elim (attempt side n (run_index c side)) [
          | err e ↦ err e
          | ok a ↦
              let c' = append_run c side a in
              elim (returns_here c') [ true ↦ ok c' | false ↦ collect_from left (suc n) c' ]
        ]
      ]

  unfoldable pub run_overhead : Result E (Collected A)
  unfolding collect_from max_per_side
  run_overhead = collect_from (max_per_side m * 2) 1 (record { off_runs = []; on_runs = [] })

-- ===== src/Workload.antt =====
-- LoadedService/internal/workload/engine.go: the index that is built at the first run and the
-- lookups in it. Each method is one critical section of the mutex, or the part of it that counts.
pub mod Cold
pub mod Uses
use itmo_master_research.Base.{
  ℕ, zero, suc, ℤ, pos, negsuc, add64, eqb_ℤ, Bool, true, false, List, [], ◌∷◌, Option, none, some,
  if◌then◌else◌,
}
use itmo_master_research.Warmkit.Types.{WorkloadProfile}

-- `index` is a `map[int]int`; of the entries of one key the first one counts.
pub record Workload : Type 0 where
  pub index_keys : ℤ
  pub index : List (ℤ × ℤ)
  pub index_built : Bool
  pub index_cold : Bool

unfoldable pub new_workload : ℤ → Workload
new_workload index_keys = record {
  index_keys = index_keys;
  index = [];
  index_built = false;
  index_cold = true;
}

pub record WorkloadState : Type 0 where
  pub index_cold : Bool

unfoldable pub snapshot_state : Workload → WorkloadState
snapshot_state w = record { index_cold = w.index_cold }

-- `index[k]`, which is 0 on a missing key.
unfoldable pub index_at : List (ℤ × ℤ) → ℤ → ℤ
index_at [] k = pos 0
index_at ((key, value) ∷ entries) k =
    let rest = index_at entries k in if eqb_ℤ key k then value else rest

-- `for i := …; i < e.indexKeys; i++ { e.index[i] = i }`, with `n` rounds to go.
unfoldable pub fill_index : ℕ → ℕ → List (ℤ × ℤ) → List (ℤ × ℤ)
fill_index zero i index = index
fill_index (suc n) i index = fill_index n (suc i) ((pos i, pos i) ∷ index)

-- The rounds of a loop from 0 to `n`.
abbrev pub rounds : ℤ → ℕ
rounds (pos n) = n
rounds (negsuc n) = 0

unfoldable pub build_index : Workload → Workload
unfolding fill_index
build_index w = if w.index_built then w else record w {
  index = fill_index (rounds w.index_keys) 0 [];
  index_built = true;
  index_cold = false;
}

-- `draw seed n i` is what the call number `i` of `Intn(n)` returns, of a source with this seed.
module _ (draw : ℤ → ℕ → ℕ → ℕ) where
  -- `Intn` panics on a bound that is not positive.
  intn : ℤ → ℤ → ℕ → Option ℤ
  intn seed (pos zero) i = none
  intn seed (pos (suc n)) i = some (pos (draw seed (suc n) i))
  intn seed (negsuc n) i = none

  -- The loop of the lookups, with `n` rounds to go; `none` is its panic.
  unfoldable pub lookups : ℤ → List (ℤ × ℤ) → ℤ → ℕ → ℕ → ℤ → Option ℤ
  unfolding intn index_at
  lookups index_keys index seed zero i sink = some sink
  lookups index_keys index seed (suc n) i sink = elim (intn seed index_keys i) [
    | none ↦ none
    | some k ↦ lookups index_keys index seed n (suc i) (add64 sink (index_at index k))
  ]

  -- The answer is the time that the run takes, `elapsed`, or none for a panic; the index is built
  -- before the panic.
  unfoldable pub run_profile : Workload → WorkloadProfile → ℤ → Workload × Option ℤ
  unfolding build_index lookups
  run_profile w p elapsed =
      let built = build_index w in
      (
        built,
        elim (lookups built.index_keys built.index p.seed (rounds p.samples) 0 (pos 0)) [
          | none ↦ none
          | some sink ↦ some elapsed
        ],
      )

  -- The flag says whether it returns.
  unfoldable pub warm_profile : Workload → WorkloadProfile → Workload × Bool
  unfolding run_profile
  warm_profile w p =
      let (w', ns) = run_profile w p (pos 0) in (w', elim ns [ none ↦ false | some elapsed ↦ true ])

unfoldable pub reset_cold : Workload → Workload
reset_cold w = record w { index = []; index_built = false; index_cold = true }

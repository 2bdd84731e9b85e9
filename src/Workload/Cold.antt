-- ===== src/Workload/Cold.antt =====
-- What the runs of LoadedService/internal/workload/engine.go find in the index.
use itmo_master_research.Base.{
  ℕ, zero, suc, ◌⊎◌, ◌+◌, ◌<◌, ℤ, pos, add64, ◌≡◌, refl, sym, ap, subst, ◌∙◌, inl, inr, Bool-cases,
  true, false, not, List, [], ◌∷◌, some, arith,
}
use itmo_master_research.Workload.{
  Workload, new_workload, index_at, fill_index, rounds, build_index, intn, lookups, reset_cold,
}

-- The index of this size maps each key to itself.
abbrev pub IsIdentity : ℕ → List (ℤ × ℤ) → Type 0
IsIdentity n index = (k : ℕ) → k < n → index_at index (pos k) ≡ pos k

-- The flags agree, and an index that is built is complete.
pub record IsIndexed (w : Workload) : Type 0 where
  pub agree : w.index_cold ≡ not w.index_built
  pub complete : w.index_built ≡ true → IsIdentity (rounds w.index_keys) w.index

fill_index-IsIdentity :
    (n i : ℕ) (index : List (ℤ × ℤ))
    → IsIdentity i index
    → IsIdentity (i + n) (fill_index n i index)
unfolding fill_index index_at
fill_index-IsIdentity zero i index h k l = h k (omega arith)
fill_index-IsIdentity (suc n) i index h k l =
    fill_index-IsIdentity n (suc i) ((pos i, pos i) ∷ index) (λ j m. ground (arith, h j)) k
      (omega arith)

pub new_workload-IsIndexed : (n : ℤ) → IsIndexed (new_workload n)
unfolding new_workload
new_workload-IsIndexed n = record { agree = refl; complete = λ h. absurd (ground (arith, h)) }

-- The index that a cold workload builds.
abbrev built : Workload → Workload
built w = record w {
  index = fill_index (rounds w.index_keys) 0 [];
  index_built = true;
  index_cold = false;
}

build_index-cases :
    (w : Workload) → ((w.index_built ≡ true) × (build_index w ≡ w)) ⊎ (build_index w ≡ built w)
unfolding build_index
build_index-cases w = elim (Bool-cases w.index_built) [
  | inl warm ↦ inl (warm, simp warm)
  | inr cold ↦ inr (simp cold)
]

built-IsIndexed : (w : Workload) → IsIndexed (built w)
built-IsIndexed w = record {
  agree = refl;
  complete = λ _ k l.
      fill_index-IsIdentity (rounds w.index_keys) 0 [] (λ j m. absurd (ground arith)) k
        (omega arith);
}

-- What holds of a workload that has its index.
abbrev pub HasIndex : Workload → Workload → Type 0
HasIndex w x = IsIndexed x × (x.index_built ≡ true) × (x.index_keys ≡ w.index_keys)

pub build_index-IsIndexed : (w : Workload) → IsIndexed w → HasIndex w (build_index w)
build_index-IsIndexed w i = elim (build_index-cases w) [
  | inl (warm, same) ↦ subst (HasIndex w) (sym same) (i, warm, refl)
  | inr made ↦ subst (HasIndex w) (sym made) (built-IsIndexed w, refl, refl)
]

pub reset_cold-IsIndexed : (w : Workload) → IsIndexed (reset_cold w)
unfolding reset_cold
reset_cold-IsIndexed w = record { agree = refl; complete = λ h. absurd (ground (arith, h)) }

module _ (draw : ℤ → ℕ → ℕ → ℕ) where
  -- What the generator promises: a number below the bound.
  abbrev pub IsBelow : Type 0
  IsBelow = (seed : ℤ) (n i : ℕ) → draw seed (suc n) i < suc n

  -- The sum of the numbers that are drawn, as `sink` adds them.
  unfoldable pub sum_draws : ℤ → ℕ → ℕ → ℕ → ℤ → ℤ
  sum_draws seed keys zero i sink = sink
  sum_draws seed keys (suc n) i sink =
      sum_draws seed keys n (suc i) (add64 sink (pos (draw seed keys i)))

  pub lookups-sum_draws :
      IsBelow
      → (keys : ℕ) (index : List (ℤ × ℤ)) (seed : ℤ) (n i : ℕ) (sink : ℤ)
      → IsIdentity (suc keys) index
      → lookups draw (pos (suc keys)) index seed n i sink
        ≡ some (sum_draws seed (suc keys) n i sink)
  unfolding lookups intn sum_draws
  lookups-sum_draws below keys index seed zero i sink h = refl
  lookups-sum_draws below keys index seed (suc n) i sink h =
      let k = draw seed (suc keys) i in
      ap (λ z. lookups draw (pos (suc keys)) index seed n (suc i) (add64 sink z))
        (h k (below seed keys i))
      ∙ lookups-sum_draws below keys index seed n (suc i) (add64 sink (pos k)) h

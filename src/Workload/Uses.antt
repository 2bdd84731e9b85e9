-- ===== src/Workload/Uses.antt =====
-- What the runs of LoadedService/internal/workload/engine.go return after any calls, and when they
-- panic.
use itmo_master_research.Base.{
  ℕ, zero, suc, ◌<◌, ℤ, pos, negsuc, ◌≤ℤ◌, ◌<ℤ◌, add64, ◌≡◌, refl, ap, subst, ◌∙◌, ◌↔◌, false, not,
  List, [], ◌∷◌, none, some, arith,
}
use itmo_master_research.Warmkit.Types.{WorkloadProfile}
use itmo_master_research.Workload.{
  Workload, new_workload, index_at, rounds, build_index, intn, lookups, run_profile, warm_profile,
  reset_cold,
}
use itmo_master_research.Workload.Cold.{
  IsIdentity, IsIndexed, new_workload-IsIndexed, build_index-IsIndexed, reset_cold-IsIndexed,
  IsBelow, sum_draws, lookups-sum_draws,
}

-- The calls that reach the workload of a server.
pub data Use : Type 0 where
  runs : WorkloadProfile → ℤ → Use
  warms : WorkloadProfile → Use
  resets : Use

module _ (draw : ℤ → ℕ → ℕ → ℕ) where
  unfoldable pub uses : Workload → List Use → Workload
  unfolding run_profile warm_profile reset_cold
  uses w [] = w
  uses w (runs p elapsed ∷ us) = uses (run_profile draw w p elapsed).0 us
  uses w (warms p ∷ us) = uses (warm_profile draw w p).0 us
  uses w (resets ∷ us) = uses (reset_cold w) us

  pub uses-IsIndexed :
      (us : List Use) (w : Workload) (n : ℤ)
      → IsIndexed w
      → w.index_keys ≡ n
      → IsIndexed (uses w us) × ((uses w us).index_keys ≡ n)
  unfolding uses run_profile warm_profile reset_cold
  uses-IsIndexed [] w n i e = (i, e)
  uses-IsIndexed (runs p elapsed ∷ us) w n i e =
      let (b, _, kept) = build_index-IsIndexed w i in
      uses-IsIndexed us (build_index w) n b (kept ∙ e)
  uses-IsIndexed (warms p ∷ us) w n i e =
      let (b, _, kept) = build_index-IsIndexed w i in
      uses-IsIndexed us (build_index w) n b (kept ∙ e)
  uses-IsIndexed (resets ∷ us) w n i e =
      uses-IsIndexed us (reset_cold w) n (reset_cold-IsIndexed w) e

  returns :
      (w : Workload) (p : WorkloadProfile) (elapsed sum : ℤ)
      → lookups draw
          (build_index w).index_keys
          (build_index w).index
          p.seed
          (rounds p.samples)
          0
          (pos 0)
        ≡ some sum
      → run_profile draw w p elapsed ≡ (build_index w, some elapsed)
  unfolding run_profile
  returns w p elapsed sum found = rw found refl

  -- A run with an index that is sound before it, with at least one key and with a generator that
  -- stays below its bound.
  pub run_profile-warm :
      IsBelow draw
      → (w : Workload) (p : WorkloadProfile) (elapsed : ℤ) (keys : ℕ) → IsIndexed w
      → w.index_keys ≡ pos (suc keys)
      → (run_profile draw w p elapsed ≡ (build_index w, some elapsed))
        × ((run_profile draw w p elapsed).0.index_cold ≡ false)
        × (lookups draw
              (build_index w).index_keys
              (build_index w).index
              p.seed
              (rounds p.samples)
              0
              (pos 0)
            ≡ some (sum_draws draw p.seed (suc keys) (rounds p.samples) 0 (pos 0)))
  unfolding run_profile
  run_profile-warm below w p elapsed keys i e =
      let (b, warm, kept) = build_index-IsIndexed w i in
      let full : IsIdentity (suc keys) (build_index w).index =
        subst (λ (z : ℤ). IsIdentity (rounds z) (build_index w).index) (kept ∙ e)
          (b.complete warm) in
      let found =
        ap (λ z. lookups draw z (build_index w).index p.seed (rounds p.samples) 0 (pos 0))
          (kept ∙ e)
        ∙ lookups-sum_draws draw below keys (build_index w).index p.seed (rounds p.samples) 0
            (pos 0) full in
      (returns w p elapsed _ found, b.agree ∙ ap not warm, found)

  -- Whatever calls a server has made of its workload of `n` keys, with a generator that stays below its bound:
  -- a run returns, and leaves the workload warm, if there is a key, and every lookup of it finds the
  -- key that it asks for; and a reset leaves the workload as a new one.
  pub run_profile-after_uses :
      IsBelow draw
      → (us : List Use) (keys : ℕ) (p : WorkloadProfile) (elapsed : ℤ)
      → let w = uses (new_workload (pos (suc keys))) us in
        (run_profile draw w p elapsed ≡ (build_index w, some elapsed))
        × ((run_profile draw w p elapsed).0.index_cold ≡ false)
        × (lookups draw
              (build_index w).index_keys
              (build_index w).index
              p.seed
              (rounds p.samples)
              0
              (pos 0)
            ≡ some (sum_draws draw p.seed (suc keys) (rounds p.samples) 0 (pos 0)))
        × (reset_cold w ≡ new_workload (pos (suc keys)))
  unfolding new_workload reset_cold
  run_profile-after_uses below us keys p elapsed =
      let n = pos (suc keys) in
      let (i, e) = uses-IsIndexed us (new_workload n) n (new_workload-IsIndexed n) refl in
      let (r, warm, found) = run_profile-warm below (uses (new_workload n) us) p elapsed keys i e in
      (r, warm, found, ap new_workload e)

  lookups-panics :
      (keys : ℤ) (index : List (ℤ × ℤ)) (seed : ℤ) (n i : ℕ) (sink : ℤ)
      → (lookups draw keys index seed n i sink ≡ none) ↔ ((keys ≤ℤ pos 0) × (0 < n))
  unfolding lookups intn
  lookups-panics keys index seed zero i sink = ground arith
  lookups-panics (pos zero) index seed (suc n) i sink = ground arith
  lookups-panics (negsuc k) index seed (suc n) i sink = ground arith
  lookups-panics (pos (suc k)) index seed (suc n) i sink =
      let next = add64 sink (index_at index (pos (draw seed (suc k) i))) in
      let (few, _) = lookups-panics (pos (suc k)) index seed n (suc i) next in
      (λ e. absurd (omega (arith, (few e).0)), λ (h, _). absurd (omega (arith, h)))

  build_index-keys : (w : Workload) → (build_index w).index_keys ≡ w.index_keys
  unfolding build_index
  build_index-keys w = ground arith

  run_profile-none :
      (w : Workload) (p : WorkloadProfile) (elapsed : ℤ)
      → ((run_profile draw w p elapsed).1 ≡ none) ↔ (
          lookups draw
            (build_index w).index_keys
            (build_index w).index
            p.seed
            (rounds p.samples)
            0
            (pos 0)
          ≡ none)
  unfolding run_profile
  run_profile-none w p elapsed = ground arith

  rounds_lem : (z : ℤ) → (0 < rounds z) ↔ (pos 0 <ℤ z)
  rounds_lem (pos n) = ground arith
  rounds_lem (negsuc n) = ground arith

  -- A run panics exactly where there is no key, the number of keys being zero or negative, and a
  -- sample is asked for.
  pub run_profile-panics :
      (w : Workload) (p : WorkloadProfile) (elapsed : ℤ)
      → ((run_profile draw w p elapsed).1 ≡ none) ↔ ((w.index_keys ≤ℤ pos 0) × (pos 0 <ℤ p.samples))
  run_profile-panics w p elapsed =
      subst
        (λ (keys : ℤ).
          ((run_profile draw w p elapsed).1 ≡ none) ↔ ((keys ≤ℤ pos 0) × (pos 0 <ℤ p.samples)))
        (build_index-keys w)
        (let (to, from) = run_profile-none w p elapsed in
          let (goes, comes) =
            lookups-panics (build_index w).index_keys (build_index w).index p.seed
              (rounds p.samples) 0 (pos 0) in
          let (asks, asked) = rounds_lem p.samples in
          (
            λ e. let (few, n) = goes (to e) in (few, asks n),
            λ (few, n). from (comes (few, asked n)),
          ))

-- ===== src/Experiment/Overhead/Loaded.antt =====
-- `RunOverhead` (benchmark/internal/experiment/experiment.go) with a manifest that `LoadFromEnv`
-- (benchmark/internal/profile/manifest.go) has read.
use itmo_master_research.Base.{
  ℕ, ◌≤◌, ◌≡◌, String, Bool, ℤ, pos, pos_part, ◌≤ℤ◌, List, length, Option, arith,
}
use itmo_master_research.Base.Result.{Result, ok}
use itmo_master_research.Envcfg.{Env}
use itmo_master_research.Experiment.Overhead.{Side, Limits, Collected, run_overhead}
use itmo_master_research.Experiment.Overhead.Balance.{run_overhead-returns}
use itmo_master_research.Manifest.{Manifest, load_from_env}
use itmo_master_research.Manifest.Valid.{load_from_env-IsValid}

-- What `RunOverhead` reads of a manifest.
unfoldable pub overhead_limits : {F Meta : Type 0} → Manifest F Meta → Limits
overhead_limits m = record {
  h4_runs = pos_part m.h4_runs;
  h4_max_runs = pos_part m.h4_max_runs;
  profile_on_high_cv = m.profile_on_high_cv;
}

positive_range : (a b : ℤ) → pos 1 ≤ℤ a → a ≤ℤ b → (1 ≤ pos_part a) × (pos_part a ≤ pos_part b)
positive_range a b h k = ground arith

-- With a manifest that `LoadFromEnv` has returned, and when every measurement succeeds,
-- `RunOverhead` returns results in which either side has a run.
pub run_overhead-load_from_env :
    {F Meta E A : Type 0} (env : Env) (parse_float : String → Option F) (run_meta : Meta)
    (m : Manifest F Meta) (cv_pass : Side → List A → Bool) (attempt : Side → ℕ → ℕ → Result E A)
    → load_from_env env parse_float run_meta ≡ ok m
    → ((side : Side) (n i : ℕ) → (a : A) × (attempt side n i ≡ ok a))
    → (d : Collected A) × (run_overhead (overhead_limits m) cv_pass attempt ≡ ok d)
      × (1 ≤ length d.off_runs)
      × (1 ≤ length d.on_runs)
unfolding overhead_limits
run_overhead-load_from_env env parse_float run_meta m cv_pass attempt loaded works =
    let v = load_from_env-IsValid env parse_float run_meta m loaded in
    let (one, range) = positive_range m.h4_runs m.h4_max_runs v.some_h4_run v.h4_range in
    let (d, e, c) = run_overhead-returns (overhead_limits m) cv_pass attempt works range in
    (d, e, omega (arith, one, c.by_turns, c.enough), omega (arith, one, c.enough))

-- ===== src/Examples/Runs.antt =====
-- Runs of the two loops that collect measurements.
use itmo_master_research.Base.{
  ℕ, ◌≡◌, refl, String, pos, Bool, true, false, ltb, List, [], ◌∷◌, length, none, arith,
}
use itmo_master_research.Base.Result.{Result, ok}
use itmo_master_research.Warmkit.Types.{warming, other}
use itmo_master_research.Experiment.{StateSnapshot, valid_pre_probe}
use itmo_master_research.Experiment.Overhead.{Side, Limits, Collected, run_overhead}
use itmo_master_research.Experiment.Overhead.Balance.{IsComplete, run_overhead-IsComplete}
use itmo_master_research.Experiment.Independent.{
  WarmupOutcome, RunRecord, RunLimits, Attempt, run_independent, attempt_outcome, max_attempts,
  max_valid, stops_here,
}
use itmo_master_research.Experiment.Independent.Runs.{IsCollected, run_independent-IsCollected}

abbrev limits : Limits
limits = record { h4_runs = 2; h4_max_runs = 3; profile_on_high_cv = true }

-- The results of a side pass with three runs.
abbrev three_pass : Side → List ℕ → Bool
three_pass side (a ∷ b ∷ c ∷ runs) = true
three_pass side runs = false

abbrev measured : Side → ℕ → ℕ → Result String ℕ
measured side n i = ok n

abbrev collected : Collected ℕ
collected = record { off_runs = 1 ∷ 3 ∷ 5 ∷ []; on_runs = 2 ∷ 4 ∷ 6 ∷ [] }

overhead_run : run_overhead limits three_pass measured ≡ ok collected
unfolding run_overhead
overhead_run = refl

run_overhead-IsComplete_example : IsComplete limits three_pass measured collected
run_overhead-IsComplete_example =
    run_overhead-IsComplete limits three_pass measured collected (omega arith) overhead_run

abbrev run_limits : RunLimits
run_limits = record { runs = 1; max_runs = 2; profile_on_high_cv = false }

abbrev cold_snap : Bool → StateSnapshot
cold_snap cold = record {
  index_cold = cold;
  warmkit = record {
    state = warming;
    shadow_count = pos 0;
    shadow_latency_p95 = pos 0;
    ready_after = pos 3;
  };
}

abbrev outcome : WarmupOutcome
outcome = record {
  session_id = "";
  shadow_count_at_probe = pos 0;
  warmkit_state = other "";
  post_load_settle_ms = pos 0;
  loadgen_duration_ms = pos 0;
  session_ready_at = none;
}

-- The first attempt finds a warm index, which is no valid start of s0-control; the second a cold one.
abbrev attempts : ℕ → Attempt String
attempts n = record {
  reset_warmup = none;
  warmup = ok outcome;
  readyz_ok = false;
  fetch_state = ok (cold_snap (ltb 1 n));
  t_first = ok (record { workload_ns = pos 40; e2e_ns = pos 50 });
}

abbrev count : List RunRecord → ℕ
count rs = length rs

independent_run :
    run_independent run_limits count (λ r. true) "s0-control" false (λ t. "") attempts ≡ ok 1
unfolding run_independent attempt_outcome valid_pre_probe max_attempts max_valid stops_here
independent_run = refl

run_independent-IsCollected_example :
    (rs : List RunRecord) × (1 ≡ length rs)
    × IsCollected run_limits count (λ r. true) "s0-control" false (λ t. "") attempts rs
run_independent-IsCollected_example =
    run_independent-IsCollected run_limits count (λ r. true) "s0-control" false (λ t. "") attempts 1
      independent_run

-- ===== src/Experiment/Independent.antt =====
-- `runIndependent` of benchmark/internal/experiment/experiment.go: reset, warm up, look at the
-- state, probe, until there are enough valid runs. What each attempt meets outside is an `Attempt`;
-- the summary of the runs is a parameter.
pub mod Runs
use itmo_master_research.Base.{
  ℕ, zero, suc, ◌+◌, ◌*◌, ◌≤◌, ℤ, pos, String, Bool, true, false, ◌&&◌, ◌||◌, not, ltb, leb, List,
  [], ◌∷◌, ◌++◌, length, Option, none, some, if◌then◌else◌,
}
use itmo_master_research.Base.Result.{Result, ok, err}
use itmo_master_research.Experiment.{StateSnapshot, valid_pre_probe}
use itmo_master_research.Warmkit.Types.{State, other, state_eq}

pub record Sample : Type 0 where
  pub workload_ns : ℤ
  pub e2e_ns : ℤ

-- `WarmkitState` is a string in Go, "" when it is not set: here `other ""`. `session_ready_at` is
-- none for Go's zero time.
pub record WarmupOutcome : Type 0 where
  pub session_id : String
  pub shadow_count_at_probe : ℤ
  pub warmkit_state : State
  pub post_load_settle_ms : ℤ
  pub loadgen_duration_ms : ℤ
  pub session_ready_at : Option ℤ

-- Without `Invalidated`, which nothing sets.
pub record RunRecord : Type 0 where
  pub run_index : ℕ
  pub attempt : ℕ
  pub probe : Sample
  pub state : StateSnapshot
  pub warmkit : State
  pub ready_ok : Bool
  pub session_id : String
  pub shadow_count_at_probe : ℤ
  pub post_load_settle_ms : ℤ
  pub loadgen_duration_ms : ℤ
  pub session_ready_at : String

-- The outcomes of the calls that one attempt makes; `E` is Go's error.
pub record Attempt (E : Type 0) : Type 0 where
  pub reset_warmup : Option E
  pub warmup : Result E WarmupOutcome
  pub readyz_ok : Bool
  pub fetch_state : Result E StateSnapshot
  pub t_first : Result E Sample

-- What `runIndependent` reads of the manifest. `LoadFromEnv` admits only positive numbers;
-- they are taken to be below 2^62, where doubling them does not wrap around.
pub record RunLimits : Type 0 where
  pub runs : ℕ
  pub max_runs : ℕ
  pub profile_on_high_cv : Bool

unfoldable pub max_attempts : RunLimits → ℕ
max_attempts m = if m.profile_on_high_cv then m.max_runs * 2 else m.runs * 2

unfoldable pub max_valid : RunLimits → ℕ
max_valid m = if m.profile_on_high_cv then m.max_runs else m.runs

-- The error for a scenario without a valid run, or the error of a call.
pub data RunError (E : Type 0) : Type 0 where
  no_valid_runs : ℕ → RunError E
  failed_call : E → RunError E

-- How an attempt ends: with an error of the whole scenario, without a run, or with a run.
pub data Outcome (E : Type 0) : Type 0 where
  fails : E → Outcome E
  invalid : Outcome E
  valid : RunRecord → Outcome E

-- `rfc3339` is time.Format.
module _ (rfc3339 : ℤ → String) where
  unfoldable pub run_record : ℕ → ℕ → Sample → StateSnapshot → Bool → WarmupOutcome → RunRecord
  run_record run_index attempt s snap ready_ok out = record {
    run_index = run_index;
    attempt = attempt;
    probe = s;
    state = snap;
    warmkit =
        if not (state_eq out.warmkit_state (other ""))
        then out.warmkit_state
        else snap.warmkit.state;
    ready_ok = ready_ok;
    session_id = out.session_id;
    shadow_count_at_probe = out.shadow_count_at_probe;
    post_load_settle_ms = out.post_load_settle_ms;
    loadgen_duration_ms = out.loadgen_duration_ms;
    session_ready_at = elim out.session_ready_at [ none ↦ "" | some t ↦ rfc3339 t ];
  }

  module _ {E : Type 0} (name : String) (track_ready : Bool) where
    -- After the warmup: the check of the state, and the probe.
    unfoldable pub probed :
        ℕ → ℕ → Bool → WarmupOutcome → Result E StateSnapshot → Result E Sample → Outcome E
    unfolding run_record
    probed runs attempt ready_ok out (err e) probe = invalid
    probed runs attempt ready_ok out (ok snap) probe =
        if not (valid_pre_probe name snap ready_ok) then invalid else elim probe [
          | err e ↦ invalid
          | ok s ↦ valid (run_record (runs + 1) attempt s snap ready_ok out)
        ]

    -- The calls of one attempt, after `runs` valid runs.
    unfoldable pub attempt_outcome : ℕ → ℕ → Attempt E → Outcome E
    unfolding probed
    attempt_outcome runs attempt a = elim a.reset_warmup [
      | some e ↦ fails e
      | none ↦ elim a.warmup [
        | err e ↦ fails e
        | ok out ↦
            probed runs attempt (if track_ready then a.readyz_ok else false) out a.fetch_state
              a.t_first
      ]
    ]

-- `R` is Go's `Result`: `build_result` makes it of the records and the values in them, `cv_pass` is
-- its field `CVPass`.
module _ {R : Type 0} (m : RunLimits) (build_result : List RunRecord → R) (cv_pass : R → Bool) where
  -- The test that ends the body of the loop: whether it returns its result here.
  unfoldable pub stops_here : List RunRecord → Bool
  stops_here records =
      if leb m.runs (length records)
      then cv_pass (build_result records)
        || leb (max_valid m) (length records)
        || not m.profile_on_high_cv
      else false

  module _ {E : Type 0} (name : String) (track_ready : Bool) (rfc3339 : ℤ → String) where
    -- The return after the loop.
    unfoldable pub last_return : List RunRecord → Result (RunError E) (List RunRecord)
    last_return [] = err (no_valid_runs (max_attempts m))
    last_return (a ∷ records) = ok (a ∷ records)

    -- The loop from an attempt on, with the number of attempts that are left. It returns the records;
    -- Go returns `build_result` of them.
    unfoldable pub run_from :
        (ℕ → Attempt E) → ℕ → ℕ → List RunRecord → Result (RunError E) (List RunRecord)
    unfolding last_return
    run_from world zero n records = last_return records
    run_from world (suc left) n records = elim (ltb (length records) (max_valid m)) [
      | false ↦ last_return records
      | true ↦ elim (attempt_outcome rfc3339 name track_ready (length records) n (world n)) [
        | fails e ↦ err (failed_call e)
        | invalid ↦ run_from world left (suc n) records
        | valid rec ↦
            let records' = records ++ rec ∷ [] in
            elim (stops_here records') [
              | true ↦ ok records'
              | false ↦ run_from world left (suc n) records'
            ]
      ]
    ]

    unfoldable pub run_independent : (ℕ → Attempt E) → Result (RunError E) R
    unfolding run_from
    run_independent world = elim (run_from world (max_attempts m) 1 []) [
      | err e ↦ err e
      | ok records ↦ ok (build_result records)
    ]

-- ===== src/Report.antt =====
-- The computed parts of benchmark/internal/report/report.go: medians of the runs' diagnostics, and the
-- validation of a payload.
pub mod Verdict
use itmo_master_research.Base.{
  ℕ, ◌/◌, ℤ, pos, String, ◌==◌, Bool, true, false, ◌||◌, not, List, [], ◌∷◌, ◌++◌, length,
  get_elem?, Option, none, some, ltb_ℤ, if◌then◌else◌,
}
use itmo_master_research.Base.Exchange.{exchange_sort}
use itmo_master_research.Experiment.Independent.{RunRecord}

-- What `ValidatePayload` reads of an experiment.Result.
pub record Scored : Type 0 where
  pub scenario : String
  pub display_name : String
  pub n_filtered : ℤ
  pub cv_pass : Bool
  pub cv_pass_reason : String

-- What it reads of the manifest.
pub record Expected : Type 0 where
  pub runs : ℤ
  pub h4_runs : ℤ

-- A warning with the values that fmt.Sprintf puts into its text.
pub data Warning : Type 0 where
  cv_failed : String → String → Warning
  too_few : String → ℤ → ℤ → Warning

unfoldable pub shadow_counts : List RunRecord → List ℤ
shadow_counts [] = []
shadow_counts (run ∷ runs) =
    let rest = shadow_counts runs in
    if ltb_ℤ (pos 0) run.shadow_count_at_probe then run.shadow_count_at_probe ∷ rest else rest

unfoldable pub loadgen_durations : List RunRecord → List ℤ
loadgen_durations [] = []
loadgen_durations (run ∷ runs) =
    let rest = loadgen_durations runs in
    if ltb_ℤ (pos 0) run.loadgen_duration_ms then run.loadgen_duration_ms ∷ rest else rest

-- None stands for the panic of an index out of range.
unfoldable pub median_int64 : List ℤ → Option ℤ
median_int64 [] = some (pos 0)
median_int64 (v ∷ values) = let cp = exchange_sort (v ∷ values) in get_elem? cp (length cp / 2)

-- The first value of `ScenarioInfo`, benchmark/internal/experiment/experiment.go.
scenario_name : String → String
scenario_name name =
    if name == "s0-control"
    then "Без прогрева"
    else if name == "s-ref"
    then "Ручной прогрев"
    else if name == "s-dw"
    then "Динамический прогрев"
    else if name == "overhead-mirror-off" || name == "h4-mirror-off"
    then "Зеркалирование выключено"
    else if name == "overhead-mirror-on" || name == "h4-mirror-on"
    then "Зеркалирование включено"
    else name

unfoldable pub result_name : Scored → String
unfolding scenario_name
result_name r = if not (r.display_name == "") then r.display_name else scenario_name r.scenario

unfoldable pub expected_runs : Expected → Scored → ℤ
expected_runs manifest r =
    if r.scenario == "overhead-mirror-off"
      || r.scenario == "overhead-mirror-on"
      || r.scenario == "h4-mirror-off"
      || r.scenario == "h4-mirror-on"
    then manifest.h4_runs
    else manifest.runs

-- The warnings of one result, and whether it passes.
unfoldable pub validate_result : Expected → Scored → List Warning × Bool
unfolding result_name expected_runs
validate_result manifest r =
    let failed = if not r.cv_pass then cv_failed (result_name r) r.cv_pass_reason ∷ [] else [] in
    let expected = expected_runs manifest r in
    let few =
      if ltb_ℤ r.n_filtered expected
      then too_few (result_name r) r.n_filtered expected ∷ []
      else [] in
    (failed ++ few, r.cv_pass)

-- The loop of `ValidatePayload`, with the warnings and the verdict so far.
unfoldable pub validate_from : Expected → List Warning → Bool → List Scored → List Warning × Bool
unfolding validate_result
validate_from manifest warnings ok [] = (warnings, ok)
validate_from manifest warnings ok (r ∷ results) =
    let here = validate_result manifest r in
    validate_from manifest (warnings ++ here.0) (if here.1 then ok else false) results

unfoldable pub validate_payload : Expected → List Scored → List Warning × Bool
unfolding validate_from
validate_payload manifest results = validate_from manifest [] true results

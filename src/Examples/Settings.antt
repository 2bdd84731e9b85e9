-- ===== src/Examples/Settings.antt =====
-- Runs of the readers of the environment, and of the arithmetic of loads and reports.
use itmo_master_research.Base.{
  ℕ, ◌/◌, ◌≤◌, ◌≡◌, refl, ℤ, pos, ◌≤ℤ◌, true, false, List, [], ◌∷◌, length, some, arith, All, add64,
  mul64,
}
use itmo_master_research.Base.Text.{split, trim_space}
use itmo_master_research.Base.Chain.{◌>>=◌}
use itmo_master_research.Base.Rank.{IsRanked}
use itmo_master_research.Base.Result.{Result, ok}
use itmo_master_research.Envcfg.{
  Env, required, required_int, required_int64, optional_int, optional_bool, required_csv,
  required_duration_from_seconds, csv_parts,
}
use itmo_master_research.Settings.{Settings, load}
use itmo_master_research.Manifest.{Manifest, load_from_env, optional_float, optional_string, getenv}
use itmo_master_research.Manifest.Valid.{IsValid, load_from_env-IsValid}
use itmo_master_research.Loadgen.{Profile, total_sec, in_steady}
use itmo_master_research.Loadgen.Steady.{ComparisonLaws}
use itmo_master_research.Report.{Scored, Expected, median_int64, validate_payload}
use itmo_master_research.Report.Verdict.{IsSound, median_int64-IsRanked, validate_payload-IsSound}
use itmo_master_research.Stats.{filter_iqr_indexed}
use itmo_master_research.Bench.{resolve_scenarios}
use itmo_master_research.Bench.Selection.{IsName, resolve_scenarios-IsName}
use itmo_master_research.Experiment.Overhead.{Side}
use itmo_master_research.Examples.{whole}

-- An environment in which every variable is " x, y", every number 7 and every switch off.
abbrev env : Env
env = record {
  lookup_env = λ key. some " x, y";
  atoi = λ s. some (pos 7);
  parse_int = λ s. some (pos 7);
  parse_bool = λ s. some false;
}

csv : required_csv env "DWSS_ZK_ENDPOINTS" ≡ ok ("x" ∷ "y" ∷ [])
unfolding required_csv required csv_parts split trim_space
csv = refl

abbrev loaded : Settings
loaded = record {
  http_addr = " x, y";
  role = " x, y";
  instance_id = " x, y";
  mmap_file = " x, y";
  mmap_size_mb = pos 7;
  index_keys = pos 7;
  service_name = " x, y";
  zk_endpoints = "x" ∷ "y" ∷ [];
  ready_after = pos 7;
  warmup_timeout = pos 7000000000;
  shadow_keep = pos 7;
}

loads : load env ≡ ok loaded
unfolding load ◌>>=◌ required required_int required_csv required_duration_from_seconds mul64
    csv_parts split trim_space
loads = refl

abbrev measured : Side → ℕ → ℕ → Result ℕ ℕ
measured side n i = ok n

abbrev manifest : Manifest ℕ ℕ
manifest = record {
  run_meta = 0;
  seed = pos 7;
  samples = pos 7;
  runs = pos 7;
  max_runs = pos 7;
  profile_on_high_cv = false;
  profile = record { seed = pos 7; samples = pos 7 };
  proxy_url = " x, y";
  warmup_url = " x, y";
  coord_url = " x, y";
  active_url = " x, y";
  rps = pos 7;
  ramp_up_sec = pos 7;
  steady_sec = pos 7;
  ramp_down_sec = pos 7;
  h4_steady_sec = pos 7;
  h4_runs = pos 7;
  h4_max_runs = pos 7;
  cv_threshold = 9;
  cv_threshold_s0 = 9;
  cv_threshold_s_ref = 9;
  cv_threshold_s_dw = 9;
  cooldown_ms = pos 7;
  post_load_settle_ms = pos 7;
  env_profile_name = "x, y";
  target_inst = " x, y";
  active_inst = " x, y";
  ready_after = pos 7;
  ready_after_actual = pos 0;
}

manifest_loads : load_from_env env (λ s. some 9) 0 ≡ ok manifest
unfolding load_from_env ◌>>=◌ required required_int required_int64 optional_int optional_bool
    optional_float optional_string getenv trim_space
manifest_loads = refl

load_from_env-IsValid_example : IsValid manifest
load_from_env-IsValid_example = load_from_env-IsValid env (λ s. some 9) 0 manifest manifest_loads

abbrev load_shape : Profile
load_shape = record {
  max_rps = pos 50;
  ramp_up_sec = pos 10;
  steady_sec = pos 30;
  ramp_down_sec = pos 5;
}

whole-laws : ComparisonLaws whole
whole-laws = record { below = λ x a b h e. ground arith }

steady_now : in_steady whole load_shape 12 ≡ true
unfolding in_steady add64
steady_now = refl

goes_on : add64 load_shape.ramp_up_sec load_shape.steady_sec ≤ℤ total_sec load_shape
unfolding total_sec add64
goes_on = omega arith

abbrev rtts : List ℤ
rtts = pos 4 ∷ pos 6 ∷ pos 5 ∷ []

median_int64-IsRanked_example :
    (med : ℤ) × (median_int64 rtts ≡ some med) × IsRanked med (length rtts / 2) rtts
median_int64-IsRanked_example = median_int64-IsRanked (pos 4) (pos 6 ∷ pos 5 ∷ [])

abbrev expected : Expected
expected = record { runs = pos 5; h4_runs = pos 3 }

abbrev results : List Scored
results =
    record {
      scenario = "s-dw";
      display_name = "";
      n_filtered = pos 6;
      cv_pass = true;
      cv_pass_reason = "";
    }
    ∷ []

silent : (validate_payload expected results).0 ≡ []
unfolding validate_payload
silent = refl

validate_payload-IsSound_example : All (IsSound expected) results
validate_payload-IsSound_example = validate_payload-IsSound expected results silent

passed : (validate_payload expected results).1 ≡ true
unfolding validate_payload
passed = refl

-- Five times, sorted as they stand. In whole numbers both quartiles are the least of them.
abbrev times : List ℕ
times = 10 ∷ 10 ∷ 11 ∷ 11 ∷ 99 ∷ []

filtered : filter_iqr_indexed whole (λ l. l) times ≡ some (10 ∷ 10 ∷ [], 3 ∷ 4 ∷ 5 ∷ [])
unfolding filter_iqr_indexed
filtered = refl

selected : resolve_scenarios {E = ℕ} " s-dw, h4-overhead" "" ≡ ok ("s-dw" ∷ "overhead" ∷ [])
unfolding resolve_scenarios split trim_space
selected = refl

resolve_scenarios-IsName_example : (1 ≤ 2) × All IsName ("s-dw" ∷ "overhead" ∷ [])
resolve_scenarios-IsName_example =
    resolve_scenarios-IsName " s-dw, h4-overhead" "" ("s-dw" ∷ "overhead" ∷ []) selected

-- ===== src/Manifest.antt =====
-- benchmark/internal/profile/manifest.go: the manifest of an experiment, read from the environment
-- with the guards on its numbers. `F` is float64, `Meta` is what `collectRunMeta` finds out about the
-- machine. Strconv's ParseFloat is a parameter.
pub mod Valid
use itmo_master_research.Base.{
  ℕ, ◌+◌, ◌*◌, ℤ, pos, String, ◌==◌, Bool, true, false, not, Option, none, some, ltb_ℤ, add64,
  mul64, if◌then◌else◌,
}
use itmo_master_research.Base.Result.{Result, ok, err}
use itmo_master_research.Base.Chain.{◌>>=◌}
use itmo_master_research.Base.Text.{trim_space, is_empty}
use itmo_master_research.Envcfg.{
  EnvError, Env, required, required_int, required_int64, optional_int, optional_bool,
}
use itmo_master_research.Loadgen.{Profile}
use itmo_master_research.Warmkit.Types.{WorkloadProfile}

abbrev pub min_runs : ℤ
min_runs = pos 5

-- `Manifest`, with its fields in the order of the source.
pub record Manifest (F Meta : Type 0) : Type 0 where
  pub run_meta : Meta
  pub seed : ℤ
  pub samples : ℤ
  pub runs : ℤ
  pub max_runs : ℤ
  pub profile_on_high_cv : Bool
  pub profile : WorkloadProfile
  pub proxy_url : String
  pub warmup_url : String
  pub coord_url : String
  pub active_url : String
  pub rps : ℤ
  pub ramp_up_sec : ℤ
  pub steady_sec : ℤ
  pub ramp_down_sec : ℤ
  pub h4_steady_sec : ℤ
  pub h4_runs : ℤ
  pub h4_max_runs : ℤ
  pub cv_threshold : F
  pub cv_threshold_s0 : F
  pub cv_threshold_s_ref : F
  pub cv_threshold_s_dw : F
  pub cooldown_ms : ℤ
  pub post_load_settle_ms : ℤ
  pub env_profile_name : String
  pub target_inst : String
  pub active_inst : String
  pub ready_after : ℤ
  pub ready_after_actual : ℤ

-- The errors of `LoadFromEnv`: of a setting, of a number, or of a float.
pub data LoadError : Type 0 where
  bad_setting : EnvError → LoadError
  out_of_range : String → LoadError
  bad_float : String → LoadError

abbrev pub wrapped : {A : Type 0} → Result EnvError A → Result LoadError A
wrapped (ok a) = ok a
wrapped (err e) = err (bad_setting e)

-- An early return of an error.
abbrev pub refuse_if : Bool → LoadError → Result LoadError (Unit {0})
refuse_if true e = err e
refuse_if false e = ok tt

-- os.Getenv: the empty string for a variable that is not set.
unfoldable pub getenv : Env → String → String
getenv env key = elim (env.lookup_env key) [ none ↦ "" | some v ↦ v ]

unfoldable pub optional_string : Env → String → String → Result LoadError String
unfolding getenv
optional_string env key default_value =
    let value = trim_space (getenv env key) in if is_empty value then ok default_value else ok value

module _ {F : Type 0} (env : Env) (parse_float : String → Option F) where
  float_of : String → String → Result LoadError F
  float_of key value = elim (parse_float value) [ none ↦ err (bad_float key) | some f ↦ ok f ]

  unfoldable pub optional_float : String → F → Result LoadError F
  unfolding float_of getenv
  optional_float key default_value =
      let value = trim_space (getenv env key) in
      if is_empty value then ok default_value else float_of key value

  unfoldable pub load_from_env : {Meta : Type 0} → Meta → Result LoadError (Manifest F Meta)
  unfolding float_of
  load_from_env run_meta = do
    seed ← wrapped (required_int64 env "DWSS_BENCH_SEED")
    samples ← wrapped (required_int env "DWSS_BENCH_SAMPLES")
    runs ← wrapped (required_int env "DWSS_BENCH_RUNS")
    _ ← refuse_if (ltb_ℤ runs min_runs) (out_of_range "DWSS_BENCH_RUNS")
    max_runs ← wrapped (optional_int env "DWSS_BENCH_MAX_RUNS" runs)
    _ ← refuse_if (ltb_ℤ max_runs runs) (out_of_range "DWSS_BENCH_MAX_RUNS")
    profile_on_high_cv ← wrapped (optional_bool env "DWSS_BENCH_PROFILE_ON_HIGH_CV" false)
    proxy_url ← wrapped (required env "DWSS_BENCH_PROXY_URL")
    warmup_url ← wrapped (required env "DWSS_BENCH_WARMUP_URL")
    coord_url ← wrapped (required env "DWSS_BENCH_COORD_URL")
    active_url ← wrapped (required env "DWSS_BENCH_ACTIVE_URL")
    rps ← wrapped (required_int env "DWSS_BENCH_RPS")
    ramp_up_sec ← wrapped (required_int env "DWSS_BENCH_RAMP_UP_SEC")
    steady_sec ← wrapped (required_int env "DWSS_BENCH_STEADY_SEC")
    ramp_down_sec ← wrapped (required_int env "DWSS_BENCH_RAMP_DOWN_SEC")
    h4_steady_sec ← wrapped (required_int env "DWSS_BENCH_H4_STEADY_SEC")
    h4_runs ← wrapped (optional_int env "DWSS_BENCH_H4_RUNS" min_runs)
    _ ← refuse_if (ltb_ℤ h4_runs (pos 1)) (out_of_range "DWSS_BENCH_H4_RUNS")
    h4_max_runs ← wrapped (optional_int env "DWSS_BENCH_H4_MAX_RUNS" h4_runs)
    _ ← refuse_if (ltb_ℤ h4_max_runs h4_runs) (out_of_range "DWSS_BENCH_H4_MAX_RUNS")
    _ ← refuse_if (ltb_ℤ ramp_up_sec (pos 1)) (out_of_range "DWSS_BENCH_RAMP_UP_SEC")
    _ ← refuse_if (ltb_ℤ steady_sec (pos 5)) (out_of_range "DWSS_BENCH_STEADY_SEC")
    cv_str ← wrapped (required env "DWSS_BENCH_CV_THRESHOLD")
    cv_threshold ← float_of "DWSS_BENCH_CV_THRESHOLD" cv_str
    cv_threshold_s0 ← optional_float "DWSS_BENCH_CV_THRESHOLD_S0" cv_threshold
    cv_threshold_s_ref ← optional_float "DWSS_BENCH_CV_THRESHOLD_S_REF" cv_threshold
    cv_threshold_s_dw ← optional_float "DWSS_BENCH_CV_THRESHOLD_S_DW" cv_threshold
    cooldown_ms ← wrapped (required_int env "DWSS_BENCH_COOLDOWN_MS")
    post_load_settle_ms ← wrapped (optional_int env "DWSS_BENCH_POST_LOAD_SETTLE_MS" (pos 3000))
    env_profile_name ← optional_string env "DWSS_BENCH_ENV_PROFILE" ""
    target_inst ← wrapped (required env "DWSS_BENCH_TARGET_INSTANCE")
    active_inst ← wrapped (required env "DWSS_BENCH_ACTIVE_INSTANCE")
    ready_after ← wrapped (required_int env "DWSS_BENCH_READY_AFTER")
    ok (record {
      run_meta = run_meta;
      seed = seed;
      samples = samples;
      runs = runs;
      max_runs = max_runs;
      profile_on_high_cv = profile_on_high_cv;
      profile = record { seed = seed; samples = samples };
      proxy_url = proxy_url;
      warmup_url = warmup_url;
      coord_url = coord_url;
      active_url = active_url;
      rps = rps;
      ramp_up_sec = ramp_up_sec;
      steady_sec = steady_sec;
      ramp_down_sec = ramp_down_sec;
      h4_steady_sec = h4_steady_sec;
      h4_runs = h4_runs;
      h4_max_runs = h4_max_runs;
      cv_threshold = cv_threshold;
      cv_threshold_s0 = cv_threshold_s0;
      cv_threshold_s_ref = cv_threshold_s_ref;
      cv_threshold_s_dw = cv_threshold_s_dw;
      cooldown_ms = cooldown_ms;
      post_load_settle_ms = post_load_settle_ms;
      env_profile_name = env_profile_name;
      target_inst = target_inst;
      active_inst = active_inst;
      ready_after = ready_after;
      ready_after_actual = pos 0;
    })

module _ {F Meta : Type 0} (m : Manifest F Meta) where
  unfoldable pub load_profile : Profile
  load_profile = record {
    max_rps = m.rps;
    ramp_up_sec = m.ramp_up_sec;
    steady_sec = m.steady_sec;
    ramp_down_sec = m.ramp_down_sec;
  }

  unfoldable pub h4_load_profile : Profile
  h4_load_profile = record {
    max_rps = m.rps;
    ramp_up_sec = m.ramp_up_sec;
    steady_sec = m.h4_steady_sec;
    ramp_down_sec = m.ramp_down_sec;
  }

  unfoldable pub total_load_sec : ℤ
  total_load_sec = add64 (add64 m.ramp_up_sec m.steady_sec) m.ramp_down_sec

  unfoldable pub total_h4_load_sec : ℤ
  total_h4_load_sec = add64 (add64 m.ramp_up_sec m.h4_steady_sec) m.ramp_down_sec

  unfoldable pub cv_threshold_for_scenario : String → F
  cv_threshold_for_scenario scenario =
      if scenario == "s0-control"
      then m.cv_threshold_s0
      else if scenario == "s-ref"
      then m.cv_threshold_s_ref
      else if scenario == "s-dw"
      then m.cv_threshold_s_dw
      else m.cv_threshold

  -- The manifest that `EnrichFromFlags` leaves.
  unfoldable pub enrich_from_flags : String → String → ℤ → Manifest F Meta
  enrich_from_flags target active ready = record m {
    target_inst = if not (is_empty target) then target else m.target_inst;
    active_inst = if not (is_empty active) then active else m.active_inst;
    ready_after = if ltb_ℤ (pos 0) ready then ready else m.ready_after;
  }

  unfoldable pub manifest_max_attempts : ℤ
  manifest_max_attempts =
      if m.profile_on_high_cv then mul64 m.max_runs (pos 2) else mul64 m.runs (pos 2)

-- ===== src/Manifest/Valid.antt =====
-- What a manifest that `LoadFromEnv` (benchmark/internal/profile/manifest.go) returns is guaranteed.
use itmo_master_research.Base.{
  ◌≡◌, refl, String, ℤ, pos, ◌≤ℤ◌, Bool, true, false, ltb_ℤ, Option, arith,
}
use itmo_master_research.Base.Result.{Result, ok}
use itmo_master_research.Base.Chain.{◌>>=◌, Holds, >>=-Holds, Holds-ok}
use itmo_master_research.Envcfg.{Env}
use itmo_master_research.Manifest.{Manifest, LoadError, refuse_if, min_runs, load_from_env}

refuse_if-Holds :
    {B : Type 0} (P : B → Type 0) (t : Bool) (e : LoadError) (f : Unit {0} → Result LoadError B)
    → (t ≡ false → Holds P (f tt))
    → Holds P (refuse_if t e >>= f)
unfolding ◌>>=◌
refuse_if-Holds P true e f h = tt
refuse_if-Holds P false e f h = h refl

-- The guarantees: the least numbers of runs, the ends of the ranges of runs, and a load long enough
-- to be measured.
pub record IsValid {F Meta : Type 0} (m : Manifest F Meta) : Type 0 where
  pub enough_runs : min_runs ≤ℤ m.runs
  pub runs_range : m.runs ≤ℤ m.max_runs
  pub some_h4_run : pos 1 ≤ℤ m.h4_runs
  pub h4_range : m.h4_runs ≤ℤ m.h4_max_runs
  pub ramps_up : pos 1 ≤ℤ m.ramp_up_sec
  pub measured : pos 5 ≤ℤ m.steady_sec

not_below : (a b : ℤ) → ltb_ℤ a b ≡ false → b ≤ℤ a
not_below a b h = ground arith

guards-IsValid :
    {F Meta : Type 0} (m : Manifest F Meta)
    → ltb_ℤ m.runs min_runs ≡ false
    → ltb_ℤ m.max_runs m.runs ≡ false
    → ltb_ℤ m.h4_runs (pos 1) ≡ false
    → ltb_ℤ m.h4_max_runs m.h4_runs ≡ false
    → ltb_ℤ m.ramp_up_sec (pos 1) ≡ false
    → ltb_ℤ m.steady_sec (pos 5) ≡ false
    → IsValid m
guards-IsValid m guard3 guard5 guard17 guard19 guard20 guard21 = record {
  enough_runs = not_below m.runs min_runs guard3;
  runs_range = not_below m.max_runs m.runs guard5;
  some_h4_run = not_below m.h4_runs (pos 1) guard17;
  h4_range = not_below m.h4_max_runs m.h4_runs guard19;
  ramps_up = not_below m.ramp_up_sec (pos 1) guard20;
  measured = not_below m.steady_sec (pos 5) guard21;
}

module _ {F Meta : Type 0} (env : Env) (parse_float : String → Option F) (run_meta : Meta) where
  load_from_env-Holds : Holds IsValid (load_from_env env parse_float run_meta)
  unfolding load_from_env
  load_from_env-Holds = >>=-Holds IsValid _ _ (λ seed _. >>=-Holds IsValid _ _ (λ samples _.
      >>=-Holds IsValid _ _ (λ runs _. refuse_if-Holds IsValid _ _ _ (λ guard3.
        >>=-Holds IsValid _ _ (λ max_runs _. refuse_if-Holds IsValid _ _ _ (λ guard5.
          >>=-Holds IsValid _ _ (λ profile_on_high_cv _. >>=-Holds IsValid _ _ (λ proxy_url _.
            >>=-Holds IsValid _ _ (λ warmup_url _. >>=-Holds IsValid _ _ (λ coord_url _.
              >>=-Holds IsValid _ _ (λ active_url _. >>=-Holds IsValid _ _ (λ rps _.
                >>=-Holds IsValid _ _ (λ ramp_up_sec _. >>=-Holds IsValid _ _ (λ steady_sec _.
                  >>=-Holds IsValid _ _ (λ ramp_down_sec _.
                    >>=-Holds IsValid _ _ (λ h4_steady_sec _. >>=-Holds IsValid _ _ (λ h4_runs _.
                      refuse_if-Holds IsValid _ _ _ (λ guard17.
                        >>=-Holds IsValid _ _ (λ h4_max_runs _.
                          refuse_if-Holds IsValid _ _ _ (λ guard19.
                            refuse_if-Holds IsValid _ _ _ (λ guard20.
                              refuse_if-Holds IsValid _ _ _ (λ guard21.
                                >>=-Holds IsValid _ _ (λ cv_str _.
                                  >>=-Holds IsValid _ _ (λ cv_threshold _.
                                    >>=-Holds IsValid _ _ (λ cv_threshold_s0 _.
                                      >>=-Holds IsValid _ _ (λ cv_threshold_s_ref _.
                                        >>=-Holds IsValid _ _ (λ cv_threshold_s_dw _.
                                          >>=-Holds IsValid _ _ (λ cooldown_ms _.
                                            >>=-Holds IsValid _ _ (λ post_load_settle_ms _.
                                              >>=-Holds IsValid _ _ (λ env_profile_name _.
                                                >>=-Holds IsValid _ _ (λ target_inst _.
                                                  >>=-Holds IsValid _ _ (λ active_inst _.
                                                    >>=-Holds IsValid _ _ (λ ready_after _.
                                                      guards-IsValid _ guard3 guard5 guard17 guard19
                                                        guard20
                                                        guard21)))))))))))))))))))))))))))))))))

  -- A manifest that `LoadFromEnv` returns has at least 5 runs and no maximum below its number of
  -- runs, at least 1 run of the overhead scenario and no maximum below that number, a ramp-up of
  -- at least 1 second and a steady phase of at least 5.
  pub load_from_env-IsValid :
      (m : Manifest F Meta) → load_from_env env parse_float run_meta ≡ ok m → IsValid m
  load_from_env-IsValid m e = Holds-ok IsValid _ m e load_from_env-Holds

-- ===== src/Bench.antt =====
-- benchmark/cmd/bench/main.go: which scenarios a run of the bench selects, and the loop over them.
-- What a scenario returns comes from outside, as the outcome of the call.
pub mod Selection
use itmo_master_research.Base.{
  ℕ, suc, String, ◌==◌, Bool, true, false, ◌&&◌, not, List, [], ◌∷◌, ◌++◌, Option, none, some,
  if◌then◌else◌,
}
use itmo_master_research.Base.Result.{Result, ok, err, ◌>>=◌}
use itmo_master_research.Base.Text.{split, trim_space, is_empty}

-- The errors of the two functions: nothing was named, every name was empty, a name is not known,
-- or a scenario failed.
pub data BenchError (E : Type 0) : Type 0 where
  scenario_required no_scenarios : BenchError E
  unknown_scenario : String → BenchError E
  scenario_failed : E → BenchError E

unfoldable pub normalize_scenario : String → String
normalize_scenario name = if name == "h4-overhead" then "overhead" else name

-- The loop of `resolveScenarios` over the parts.
unfoldable pub named_parts : List String → List String
unfolding normalize_scenario
named_parts [] = []
named_parts (part ∷ parts) =
    let name = normalize_scenario (trim_space part) in
    let rest = named_parts parts in if is_empty name then rest else name ∷ rest

some_named : {E : Type 0} → List String → Result (BenchError E) (List String)
some_named [] = err no_scenarios
some_named (name ∷ out) = ok (name ∷ out)

unfoldable pub resolve_scenarios :
    {E : Type 0} → String → String → Result (BenchError E) (List String)
unfolding some_named named_parts
resolve_scenarios flag_value positional =
    let flag = trim_space flag_value in
    let raw = if is_empty flag then trim_space positional else flag in
    if is_empty raw
    then err scenario_required
    else if raw == "all"
    then ok ("s0-control" ∷ "s-ref" ∷ "s-dw" ∷ [])
    else some_named (named_parts (split b',' raw))

-- What the calls of the scenarios return: `RunS0Control`, `RunSRef`, `RunSDw`, `RunOverhead`. `R` is
-- the result of a scenario.
pub record Scenarios (E R : Type 0) : Type 0 where
  pub run_s0_control : Result E R
  pub run_s_ref : Result E R
  pub run_s_dw : Result E R
  pub run_overhead : Result E (List R)

-- The variables of `runScenarios`; a scenario that has not run is none. `compared` is the pair that
-- the last `EvaluateOverhead` got.
pub record Ran (R : Type 0) : Type 0 where
  pub results : List R
  pub s0 : Option R
  pub s_ref : Option R
  pub s_dw : Option R
  pub compared : Option (R × R)

called : {E A : Type 0} → Result E A → Result (BenchError E) A
called (ok a) = ok a
called (err e) = err (scenario_failed e)

pair_of : {R : Type 0} → Option (R × R) → List R → Option (R × R)
pair_of before (off ∷ on ∷ []) = some (off, on)
pair_of before results = before

-- The three results that `EvaluateHypotheses` gets, when all three scenarios have run.
unfoldable pub hypotheses_of : {R : Type 0} → Ran R → Option (R × (R × R))
hypotheses_of ran = elim ran.s0 [
  | none ↦ none
  | some s0 ↦ elim ran.s_ref [
    | none ↦ none
    | some s_ref ↦ elim ran.s_dw [ none ↦ none | some s_dw ↦ some (s0, (s_ref, s_dw)) ]
  ]
]

module _ {E R : Type 0} where
  -- One turn of the loop.
  unfoldable pub run_scenario : Scenarios E R → Ran R → String → Result (BenchError E) (Ran R)
  unfolding called pair_of
  run_scenario calls ran name =
      if name == "s0-control"
      then (called calls.run_s0_control >>= λ res.
          ok (record ran { s0 = some res; results = ran.results ++ res ∷ [] }))
      else if name == "s-ref"
      then (called calls.run_s_ref >>= λ res.
          ok (record ran { s_ref = some res; results = ran.results ++ res ∷ [] }))
      else if name == "s-dw"
      then (called calls.run_s_dw >>= λ res.
          ok (record ran { s_dw = some res; results = ran.results ++ res ∷ [] }))
      else if name == "overhead"
      then (called calls.run_overhead >>= λ oh.
          ok (record ran { results = ran.results ++ oh; compared = pair_of ran.compared oh }))
      else err (unknown_scenario name)

  -- The loop from the `n`-th name on; each turn has its own outcomes.
  unfoldable pub run_scenarios :
      (ℕ → Scenarios E R) → ℕ → Ran R → List String → Result (BenchError E) (Ran R)
  unfolding run_scenario
  run_scenarios world n ran [] = ok ran
  run_scenarios world n ran (name ∷ names) = do
    ran' ← run_scenario (world n) ran name
    run_scenarios world (suc n) ran' names

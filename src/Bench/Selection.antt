-- ===== src/Bench/Selection.antt =====
-- What `resolveScenarios` of benchmark/cmd/bench/main.go selects.
use itmo_master_research.Base.{
  ◌≤◌, ◌≡◌, refl, subst, inl, inr, String, ◌==◌, false, List, [], ◌∷◌, length, All, arith,
  Bool-cases, if◌then◌else◌,
}
use itmo_master_research.Base.Result.{Result, ok, err}
use itmo_master_research.Base.Text.{split, trim_space, is_empty}
use itmo_master_research.Bench.{
  BenchError, normalize_scenario, named_parts, some_named, resolve_scenarios,
}

-- What a selected name is: not empty, and not the old name of a scenario.
abbrev pub IsName : String → Type 0
IsName name = (is_empty name ≡ false) × ((name == "h4-overhead") ≡ false)

normalize_scenario-new : (name : String) → (normalize_scenario name == "h4-overhead") ≡ false
unfolding normalize_scenario
normalize_scenario-new name = elim (Bool-cases (name == "h4-overhead")) [
  | inl e ↦ rw e refl
  | inr e ↦ rw (e, e) refl
]

named_parts-IsName : (parts : List String) → All IsName (named_parts parts)
unfolding named_parts
named_parts-IsName [] = tt
named_parts-IsName (part ∷ parts) =
    let name = normalize_scenario (trim_space part) in
    elim (Bool-cases (is_empty name)) [
      | inl e ↦ rw e (named_parts-IsName parts)
      | inr e ↦ rw e ((e, normalize_scenario-new (trim_space part)), named_parts-IsName parts)
    ]

-- What is said of a selection: there is a name in it, and each is a name.
abbrev IsSelection : {E : Type 0} → Result (BenchError E) (List String) → Type 0
IsSelection (err e) = Unit
IsSelection (ok names) = (1 ≤ length names) × All IsName names

some_named-IsSelection :
    (E : Type 0) (names : List String) → All IsName names → IsSelection (some_named {E = E} names)
unfolding some_named
some_named-IsSelection E [] a = tt
some_named-IsSelection E (name ∷ names) a = (omega arith, a)

resolved-IsSelection :
    (E : Type 0) (flag_value positional : String)
    → IsSelection (resolve_scenarios {E = E} flag_value positional)
unfolding resolve_scenarios
resolved-IsSelection E flag_value positional =
    let flag = trim_space flag_value in
    let raw = if is_empty flag then trim_space positional else flag in
    elim (Bool-cases (is_empty raw)) [
      | inl e ↦ rw e tt
      | inr e ↦ elim (Bool-cases (raw == "all")) [
        | inl a ↦ rw (e, a) (omega arith, ((refl, refl), ((refl, refl), ((refl, refl), tt))))
        | inr a ↦
            rw (e, a)
              (some_named-IsSelection E (named_parts (split b',' raw))
                (named_parts-IsName (split b',' raw)))
      ]
    ]

-- A selection that `resolveScenarios` returns has a name in it, no empty name, and no `h4-overhead`,
-- whatever the flag and the argument are.
pub resolve_scenarios-IsName :
    {E : Type 0} (flag_value positional : String) (names : List String)
    → resolve_scenarios {E = E} flag_value positional ≡ ok names
    → (1 ≤ length names) × All IsName names
resolve_scenarios-IsName flag_value positional names e =
    subst IsSelection e (resolved-IsSelection _ flag_value positional)

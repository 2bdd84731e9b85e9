-- ===== src/Envcfg.antt =====
-- internal/envcfg/envcfg.go: settings read from the environment. The environment and strconv are
-- parameters; a duration is a number of nanoseconds.
pub mod Parts
use itmo_master_research.Base.{
  ℕ, ℤ, pos, String, Bool, true, false, ◌&&◌, not, List, [], ◌∷◌, length, Option, none, some, mul64,
  if◌then◌else◌,
}
use itmo_master_research.Base.Result.{Result, ok, err, ◌>>=◌}
use itmo_master_research.Base.Text.{split, trim_space, is_empty}

-- The errors of the package, each with the name of the variable.
pub data EnvError : Type 0 where
  not_set unparsable empty_after_split : String → EnvError

-- What the settings come from: os.LookupEnv, strconv.Atoi, strconv.ParseInt of base 10 and 64 bits,
-- strconv.ParseBool; none for an error of theirs.
pub record Env : Type 0 where
  pub lookup_env : String → Option String
  pub atoi : String → Option ℤ
  pub parse_int : String → Option ℤ
  pub parse_bool : String → Option Bool

-- The error of a parser, wrapped.
parsed : {A : Type 0} → String → Option A → Result EnvError A
parsed key none = err (unparsable key)
parsed key (some a) = ok a

-- `time.Second` of Go.
abbrev second : ℤ
second = pos 1000000000

-- The loop of `RequiredCSV` over the parts.
unfoldable pub csv_parts : List String → List String
csv_parts [] = []
csv_parts (p ∷ parts) =
    let p' = trim_space p in
    let rest = csv_parts parts in if not (is_empty p') then p' ∷ rest else rest

module _ (env : Env) where
  unfoldable pub required : String → Result EnvError String
  required key = elim (env.lookup_env key) [
    | none ↦ err (not_set key)
    | some v ↦ if is_empty (trim_space v) then err (not_set key) else ok v
  ]

  unfoldable pub required_int : String → Result EnvError ℤ
  unfolding parsed
  required_int key = do s ← required key; parsed key (env.atoi s)

  unfoldable pub required_int64 : String → Result EnvError ℤ
  unfolding parsed
  required_int64 key = do s ← required key; parsed key (env.parse_int s)

  unfoldable pub required_bool : String → Result EnvError Bool
  unfolding parsed
  required_bool key = do s ← required key; parsed key (env.parse_bool s)

  unfoldable pub optional_int : String → ℤ → Result EnvError ℤ
  unfolding parsed
  optional_int key default_value = elim (env.lookup_env key) [
    | none ↦ ok default_value
    | some v ↦ if is_empty (trim_space v) then ok default_value else parsed key (env.atoi v)
  ]

  unfoldable pub optional_bool : String → Bool → Result EnvError Bool
  unfolding parsed
  optional_bool key default_value = elim (env.lookup_env key) [
    | none ↦ ok default_value
    | some v ↦ if is_empty (trim_space v) then ok default_value else parsed key (env.parse_bool v)
  ]

  unfoldable pub required_duration_from_seconds : String → Result EnvError ℤ
  required_duration_from_seconds key = do sec ← required_int key; ok (mul64 sec second)

  not_empty : String → List String → Result EnvError (List String)
  not_empty key [] = err (empty_after_split key)
  not_empty key (p ∷ out) = ok (p ∷ out)

  unfoldable pub required_csv : String → Result EnvError (List String)
  unfolding not_empty csv_parts
  required_csv key = do s ← required key; not_empty key (csv_parts (split b',' s))

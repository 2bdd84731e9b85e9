-- ===== src/Base/Text.antt =====
-- What the program uses of Go's package strings: `Split` by one byte, `Trim`, `TrimSpace`.
use Prim.Native.Char.{Char, code}
use Prim.Native.String.{String}
use itmo_master_research.Base.Tests.{leb, eqb, if◌then◌else◌}
use Prim.Native.Nat.{ℕ}
use mathlib.Core.Bool.{Bool, true, false, ◌&&◌, ◌||◌}
use mathlib.Core.List.{List, [], ◌∷◌}

abbrev pub is_empty : String → Bool
is_empty String.[] = true
is_empty (String.◌∷◌ c s) = false

-- Puts a character in front of the first part.
unfoldable pub onto_first : Char → List String → List String
onto_first c [] = String.◌∷◌ c String.[] ∷ []
onto_first c (p ∷ ps) = String.◌∷◌ c p ∷ ps

-- `strings.Split(s, sep)` at a separator of one byte.
unfoldable pub split : ℕ → String → List String
unfolding onto_first
split sep String.[] = String.[] ∷ []
split sep (String.◌∷◌ c s) =
    let rest = split sep s in if eqb (code c) sep then String.[] ∷ rest else onto_first c rest

-- The white space of Unicode, as ranges of code points.
abbrev white_ranges : List (ℕ × ℕ)
white_ranges =
    (9, 13)
    ∷ (32, 32)
    ∷ (133, 133)
    ∷ (160, 160)
    ∷ (5760, 5760)
    ∷ (8192, 8202)
    ∷ (8232, 8233)
    ∷ (8239, 8239)
    ∷ (8287, 8287)
    ∷ (12288, 12288)
    ∷ []

in_ranges : ℕ → List (ℕ × ℕ) → Bool
in_ranges c [] = false
in_ranges c ((low, high) ∷ ranges) = (leb low c && leb c high) || in_ranges c ranges

-- `unicode.IsSpace`
unfoldable pub is_space : ℕ → Bool
unfolding in_ranges
is_space c = in_ranges c white_ranges

module _ (out : ℕ → Bool) where
  unfoldable pub trim_left : String → String
  trim_left String.[] = String.[]
  trim_left (String.◌∷◌ c s) = if out (code c) then trim_left s else String.◌∷◌ c s

  unfoldable pub trim_right : String → String
  trim_right String.[] = String.[]
  trim_right (String.◌∷◌ c s) =
      let rest = trim_right s in
      if is_empty rest && out (code c) then String.[] else String.◌∷◌ c rest

  unfoldable pub trim_func : String → String
  unfolding trim_left trim_right
  trim_func s = trim_right (trim_left s)

unfoldable pub trim_space : String → String
unfolding trim_func is_space
trim_space s = trim_func is_space s

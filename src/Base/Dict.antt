-- ===== src/Base/Dict.antt =====
-- A Go map with string keys: one entry for each key, in no particular order.
use Prim.Native.String.{String}
use text.Mathlib.Text.{◌==◌}
use text.Mathlib.TextEquality.{eq_iff}
use itmo_master_research.Base.Tests.{if◌then◌else◌, Bool-cases}
use mathlib.Core.Path.{◌≡◌, refl}
use mathlib.Core.Option.{Option, none, some}
use mathlib.Core.List.{List, [], ◌∷◌}
use mathlib.Core.Logic.{inl, inr}
use native.Mathlib.Omega.{arith}

module _ {ℓ} {Value : Type ℓ} where
  -- Every entry of the key goes.
  unfoldable pub delete : String → List (String × Value) → List (String × Value)
  delete key [] = []
  delete key ((name, value) ∷ entries) =
      let rest = delete key entries in if name == key then rest else (name, value) ∷ rest

  -- The new entry takes the place of those of its key.
  unfoldable pub insert : String → Value → List (String × Value) → List (String × Value)
  unfolding delete
  insert key value entries = (key, value) ∷ delete key entries

  unfoldable pub lookup : String → List (String × Value) → Option Value
  lookup key [] = none
  lookup key ((name, value) ∷ entries) =
      let later = lookup key entries in if name == key then some value else later

  pub lookup-delete :
      (gone key : String) (entries : List (String × Value))
      → lookup key (delete gone entries) ≡ (if gone == key then none else lookup key entries)
  unfolding lookup delete
  lookup-delete gone key [] = ground arith
  lookup-delete gone key ((name, value) ∷ entries) =
      let later = lookup-delete gone key entries in
      ground (arith, later, eq_iff gone key, eq_iff name gone, eq_iff name key)

  pub lookup-insert :
      (added key : String) (value : Value) (entries : List (String × Value))
      → lookup key (insert added value entries)
        ≡ (if added == key then some value else lookup key entries)
  unfolding lookup insert
  lookup-insert added key value entries = elim (Bool-cases (added == key)) [
    | inl same ↦ rw same refl
    | inr other ↦ rw other (rw (lookup-delete added key entries, other) refl)
  ]

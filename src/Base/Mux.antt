-- ===== src/Base/Mux.antt =====
-- What the servers use of Go's `http.ServeMux`: patterns with a method and a path, in which a
-- segment may be a wildcard. No two patterns of a table match the same request.
use itmo_master_research.Base.Tests.{if◌then◌else◌, Bool-cases, Option-cases}
use itmo_master_research.Base.Lists.{All}
use mathlib.Core.Path.{◌≡◌}
use mathlib.Core.Logic.{inl, inr}
use itmo_master_research.Base.Text.{is_empty}
use text.Mathlib.Text.{◌==◌}
use Prim.Native.String.{String}
use mathlib.Core.Bool.{Bool, true, false, ◌&&◌, ◌||◌}
use mathlib.Core.Option.{Option, none, some}
use mathlib.Core.List.{List, [], ◌∷◌}

pub data Segment : Type 0 where
  fixed : String → Segment
  wildcard : Segment

pub record Pattern (H : Type 0) : Type 0 where
  pub method : String
  pub segments : List Segment
  pub handler : H

-- What the wildcards stand for; none of them stands for an empty segment.
unfoldable pub match_path : List Segment → List String → Option (List String)
match_path [] [] = some []
match_path [] (p ∷ ps) = none
match_path (s ∷ ss) [] = none
match_path (fixed name ∷ ss) (p ∷ ps) =
    let rest = match_path ss ps in if name == p then rest else none
match_path (wildcard ∷ ss) (p ∷ ps) =
    let rest = match_path ss ps in
    if is_empty p then none else elim rest [ none ↦ none | some values ↦ some (p ∷ values) ]

-- A pattern for GET takes HEAD too.
unfoldable pub takes_method : String → String → Bool
takes_method wanted method = (wanted == method) || ((wanted == "GET") && (method == "HEAD"))

-- A handler with the values of the wildcards, or the answers 405 and 404 of the mux itself.
pub data RouteMatch (H : Type 0) : Type 0 where
  handled : H → List String → RouteMatch H
  method_not_allowed : RouteMatch H
  not_found : RouteMatch H

module _ {H : Type 0} where
  -- The path matches; another pattern may take the method.
  abbrev pub or_other : Bool → H → List String → RouteMatch H → RouteMatch H
  or_other true h values rest = handled h values
  or_other false h values (handled other others) = handled other others
  or_other false h values _ = method_not_allowed

  unfoldable pub find_route : List (Pattern H) → String → List String → RouteMatch H
  unfolding match_path takes_method
  find_route [] method path = not_found
  find_route (p ∷ ps) method path =
      let rest = find_route ps method path in
      elim (match_path p.segments path) [
        | none ↦ rest
        | some values ↦ or_other (takes_method p.method method) p.handler values rest
      ]

-- What holds of a route, said of what the mux finds.
abbrev pub OfRoute : {H : Type 0} → (H → Type 0) → RouteMatch H → Type 0
OfRoute P (handled h values) = P h
OfRoute P method_not_allowed = Unit
OfRoute P not_found = Unit

other_pattern :
    {H : Type 0} (P : H → Type 0) (h : H) (values : List String) (found : RouteMatch H)
    → OfRoute P found
    → OfRoute P (or_other false h values found)
other_pattern P h values (handled other others) good = good
other_pattern P h values method_not_allowed good = tt
other_pattern P h values not_found good = tt

-- A handler that is found was registered with a pattern that takes the method.
pub find_route-takes :
    {H : Type 0} (P : H → Type 0) (table : List (Pattern H)) (method : String) (path : List String)
    → All (λ p. takes_method p.method method ≡ true → P p.handler) table
    → OfRoute P (find_route table method path)
unfolding find_route
find_route-takes P [] method path all = tt
find_route-takes P (p ∷ ps) method path (here, later) =
    let rest = find_route-takes P ps method path later in
    elim (Option-cases (match_path p.segments path)) [
      | inl miss ↦ rw (miss, find_route) rest
      | inr (values, hit) ↦ elim (Bool-cases (takes_method p.method method)) [
        | inl taken ↦ rw (hit, taken, find_route) (here taken)
        | inr refused ↦
            rw (hit, refused, find_route)
              (other_pattern P p.handler values (find_route ps method path) rest)
      ]
    ]

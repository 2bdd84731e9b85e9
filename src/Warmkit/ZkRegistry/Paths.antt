-- ===== src/Warmkit/ZkRegistry/Paths.antt =====
-- The paths that warmkit/registry.go makes on the way to a node, and why no two nodes share one.
use Prim.Native.Char.{Char, code}
use Prim.Native.String.{◌++◌ as concat, count}
use text.Mathlib.TextLemmas.{
  nil-append, cons-append, append_assoc, length-append, length-cons, length-nil,
}
use itmo_master_research.Base.{
  ℕ, suc, ◌+◌, ◌≤◌, ◌<◌, String, ◌≡◌, ◌≢◌, ◌⊎◌, refl, sym, ap, ◌∙◌, List, [], ◌∷◌, arith, Bool, eqb,
  false, ◌&&◌, Bool-cases, inl, inr,
}
use itmo_master_research.Base.Text.{split, trim_func, trim_left, trim_right, onto_first, is_empty}

-- The native `◌++◌` computes at literals only; this one at every text that begins with one.
abbrev push : String → String → String
push String.[] t = t
push (String.◌∷◌ c s) t = String.◌∷◌ c (push s t)

concat-push : (s t : String) → concat s t ≡ push s t
concat-push String.[] t = nil-append t
concat-push (String.◌∷◌ c s) t = cons-append c s t ∙ ap (String.◌∷◌ c) (concat-push s t)

abbrev second_code : String → ℕ
second_code (String.◌∷◌ c (String.◌∷◌ d s)) = code d
second_code _ = 0

-- Every path of the walk from `cur` along the parts.
abbrev pub Visits : (String → Type 0) → String → List String → Type 0
Visits P cur [] = Unit {0}
Visits P cur (p ∷ ps) = let next = concat cur (concat "/" p) in P next × Visits P next ps

pub Visits-map :
    {P Q : String → Type 0}
    → ((q : String) → P q → Q q)
    → (cur : String) (ps : List String) → Visits P cur ps
    → Visits Q cur ps
Visits-map f cur [] v = tt
Visits-map f cur (p ∷ ps) (v, vs) = (f _ v, Visits-map f (concat cur (concat "/" p)) ps vs)

-- A path below `/config`.
abbrev pub IsConfig : String → Type 0
IsConfig q = (y : String) × (q ≡ concat "/config" y)

pub Visits-IsConfig : (cur : String) (ps : List String) → IsConfig cur → Visits IsConfig cur ps
Visits-IsConfig cur [] c = tt
Visits-IsConfig cur (p ∷ ps) (y, e) =
    let next : IsConfig (concat cur (concat "/" p)) = (
      concat y (concat "/" p),
      ap (λ q. concat q (concat "/" p)) e ∙ append_assoc "/config" y (concat "/" p),
    ) in
    (next, Visits-IsConfig (concat cur (concat "/" p)) ps next)

pub config≢services : (y z : String) → concat "/config" y ≢ concat "/services/" z
config≢services y z h =
    let codes : code "c" ≡ code "s" =
      ap second_code (sym (concat-push "/config" y) ∙ h ∙ concat-push "/services/" z) in
    omega (arith, codes)

abbrev pub slash : ℕ → Bool
slash c = eqb c b'/'

trim_right-keep :
    (c : Char) (s : String)
    → slash (code c) ≡ false
    → trim_right slash (String.◌∷◌ c s) ≡ String.◌∷◌ c (trim_right slash s)
unfolding trim_right
trim_right-keep c s h = ground (arith, h)

trim-config :
    (x : String)
    → trim_right slash (push "config/" x) ≡ push "config" (trim_right slash (push "/" x))
trim-config x =
    rw
      (
        trim_right-keep "c" (push "onfig/" x) refl,
        trim_right-keep "o" (push "nfig/" x) refl,
        trim_right-keep "n" (push "fig/" x) refl,
        trim_right-keep "f" (push "ig/" x) refl,
        trim_right-keep "i" (push "g/" x) refl,
        trim_right-keep "g" (push "/" x) refl,
      )
      refl

-- What is left behind the first folder.
trim-slash :
    (x : String)
    → (trim_right slash (push "/" x) ≡ String.[])
      ⊎ (trim_right slash (push "/" x) ≡ push "/" (trim_right slash x))
unfolding trim_right
trim-slash x = elim (Bool-cases (is_empty (trim_right slash x))) [
  | inl none_left ↦ inl (rw (none_left, trim_right) refl)
  | inr some_left ↦ inr (rw (some_left, trim_right) refl)
]

pub split-config :
    (x : String)
    → (ps : List String) × (split b'/' (trim_func slash (concat "/config/" x)) ≡ "config" ∷ ps)
unfolding split trim_func trim_left onto_first
split-config x = elim (trim-slash x) [
  | inl e ↦ ([], rw (concat-push "/config/" x) (rw (trim-config x) (rw e refl)))
  | inr e ↦ (
    split b'/' (trim_right slash x),
    rw (concat-push "/config/" x) (rw (trim-config x) (rw e refl)),
  )
]

-- How many characters the parts add to a path.
abbrev total : List String → ℕ
total [] = 0
total (p ∷ ps) = suc (count p) + total ps

total-onto_first :
    (c : Char) (ps : List String) → 0 < total ps → total (onto_first c ps) ≡ suc (total ps)
unfolding onto_first
total-onto_first c [] h = absurd (omega (arith, h))
total-onto_first c (p ∷ ps) h = omega (arith, length-cons c p)

total-split : (sep : ℕ) (s : String) → total (split sep s) ≡ suc (count s)
unfolding split
total-split sep String.[] = omega (arith, length-nil)
total-split sep (String.◌∷◌ c s) =
    let rest = total-split sep s in
    elim (Bool-cases (eqb (code c) sep)) [
      | inl same ↦ rw same (omega (arith, rest, length-cons c s, length-nil))
      | inr other ↦
          rw (other, total-onto_first c (split sep s) (omega (arith, rest)))
            (omega (arith, rest, length-cons c s))
    ]

trim_left-count : (s : String) → count (trim_left slash s) ≤ count s
unfolding trim_left
trim_left-count String.[] = omega arith
trim_left-count (String.◌∷◌ c s) = elim (Bool-cases (slash (code c))) [
  | inl out ↦ rw out (omega (arith, trim_left-count s, length-cons c s))
  | inr kept ↦ rw kept (omega arith)
]

trim_right-count : (s : String) → count (trim_right slash s) ≤ count s
unfolding trim_right
trim_right-count String.[] = omega arith
trim_right-count (String.◌∷◌ c s) =
    let rest = trim_right-count s in
    elim (Bool-cases (is_empty (trim_right slash s) && slash (code c))) [
      | inl out ↦ rw out (omega (arith, length-nil))
      | inr kept ↦
          rw kept (omega (arith, rest, length-cons c s, length-cons c (trim_right slash s)))
    ]

-- The slash in front is no part.
pub total-path : (x : String) → total (split b'/' (trim_func slash (concat "/" x))) ≤ suc (count x)
unfolding trim_func trim_left
total-path x = rw (concat-push "/" x) (
    omega (
      arith,
      total-split b'/' (trim_right slash (trim_left slash x)),
      trim_right-count (trim_left slash x),
      trim_left-count x,
    ))

-- A path of at most so many characters.
abbrev pub IsWithin : ℕ → String → Type 0
IsWithin n q = count q ≤ n

pub Visits-IsWithin :
    (n : ℕ) (cur : String) (ps : List String)
    → count cur + total ps ≤ n
    → Visits (IsWithin n) cur ps
Visits-IsWithin n cur [] h = tt
Visits-IsWithin n cur (p ∷ ps) h =
    let longer : count (concat cur (concat "/" p)) ≡ count cur + suc (count p) =
      omega (arith, length-append cur (concat "/" p), length-append "/" p) in
    (
      omega (arith, h, longer),
      Visits-IsWithin n (concat cur (concat "/" p)) ps (omega (arith, h, longer)),
    )

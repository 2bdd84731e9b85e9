-- ===== src/Envcfg/Parts.antt =====
-- What the lists of settings that internal/envcfg/envcfg.go returns contain.
use itmo_master_research.Base.{
  ◌≤◌, ◌≡◌, refl, sym, ap, subst, ◌∙◌, inl, inr, String, false, List, [], ◌∷◌, length, All, arith,
  Bool-cases,
}
use itmo_master_research.Base.Result.{Result, ok, err, Result-cases}
use itmo_master_research.Base.Text.{split, trim_space, is_empty}
use itmo_master_research.Envcfg.{EnvError, Env, required, required_csv, csv_parts, not_empty}

-- What a returned part is: the trimmed form of some text, and not empty.
abbrev pub IsPart : String → Type 0
IsPart p = (raw : String) × (p ≡ trim_space raw) × (is_empty p ≡ false)

csv_parts-IsPart : (parts : List String) → All IsPart (csv_parts parts)
unfolding csv_parts
csv_parts-IsPart [] = tt
csv_parts-IsPart (p ∷ parts) = elim (Bool-cases (is_empty (trim_space p))) [
  | inl e ↦ rw e (csv_parts-IsPart parts)
  | inr e ↦ rw e ((p, refl, e), csv_parts-IsPart parts)
]

list_inj : {a b : List String} → Path (Result EnvError (List String)) (ok a) (ok b) → a ≡ b
list_inj {a} e = ap (λ r. elim r [ ok x ↦ x | err x ↦ a ]) e

not_empty-length :
    (env : Env) (key : String) (parts out : List String)
    → not_empty env key parts ≡ ok out
    → (parts ≡ out) × (1 ≤ length out)
unfolding not_empty
not_empty-length env key [] out e = absurd (ground (arith, e))
not_empty-length env key (p ∷ parts) out e =
    let same : p ∷ parts ≡ out = list_inj e in (same, subst (λ l. 1 ≤ length l) same (omega arith))

-- A list that `RequiredCSV` returns has a part, and all its parts are trimmed and not empty.
pub required_csv-IsPart :
    (env : Env) (key : String) (out : List String)
    → required_csv env key ≡ ok out
    → (1 ≤ length out) × All IsPart out
unfolding required_csv
required_csv-IsPart env key out e = elim (Result-cases (required env key)) [
  | inl (s, z) ↦
      let q : required_csv env key ≡ not_empty env key (csv_parts (split b',' s)) =
        rw (z, required_csv) refl in
      let r = not_empty-length env key (csv_parts (split b',' s)) out (sym q ∙ e) in
      (r.1, subst (All IsPart) r.0 (csv_parts-IsPart (split b',' s)))
  | inr (x, z) ↦ absurd (ground (arith, e, z))
]

-- ===== src/Report/Verdict.antt =====
-- What the medians and the verdict of benchmark/internal/report/report.go mean.
use itmo_master_research.Base.{
  ◌/◌, ◌≡◌, refl, subst, inl, inr, Bool, true, false, ℤ, ltb_ℤ, ◌≤ℤ◌, List, [], ◌∷◌, ◌++◌, length,
  All, some, arith, Bool-cases, if◌then◌else◌,
}
use itmo_master_research.Base.Exchange.{length-exchange_sort}
use itmo_master_research.Base.Rank.{IsRanked, exchange_sort-IsRanked}
use itmo_master_research.Report.{
  Scored, Expected, Warning, median_int64, expected_runs, validate_result, validate_from,
  validate_payload,
}

-- `medianInt64` of a list with an element does not panic, and its value may stand at index length
-- / 2 of the list in ascending order.
pub median_int64-IsRanked :
    (v : ℤ) (values : List ℤ)
    → (med : ℤ) × (median_int64 (v ∷ values) ≡ some med)
      × IsRanked med (length (v ∷ values) / 2) (v ∷ values)
unfolding median_int64
median_int64-IsRanked v values =
    let (med, at, r) =
      exchange_sort-IsRanked (v ∷ values) (length (v ∷ values) / 2) (omega arith) in
    (med, rw (length-exchange_sort (v ∷ values)) at, r)

-- What a result is that is ready for the report.
pub record IsSound (manifest : Expected) (r : Scored) : Type 0 where
  pub passes : r.cv_pass ≡ true
  pub enough : expected_runs manifest r ≤ℤ r.n_filtered

at_least : (a b : ℤ) → ltb_ℤ a b ≡ false → b ≤ℤ a
at_least a b h = ground arith

nil-append : {A : Type 0} (xs ys : List A) → xs ++ ys ≡ [] → (xs ≡ []) × (ys ≡ [])
nil-append [] ys h = (refl, h)
nil-append (x ∷ xs) ys h = absurd (ground (arith, h))

validate_result-silent :
    (manifest : Expected) (r : Scored) → (validate_result manifest r).0 ≡ [] → IsSound manifest r
unfolding validate_result
validate_result-silent manifest r h = elim (Bool-cases r.cv_pass) [
  | inl p ↦ elim (Bool-cases (ltb_ℤ r.n_filtered (expected_runs manifest r))) [
    | inl few ↦ absurd (ground (arith, h, p, few))
    | inr few ↦ record { passes = p; enough = at_least r.n_filtered (expected_runs manifest r) few }
  ]
  | inr p ↦ absurd (ground (arith, h, p))
]

validate_from-silent :
    (manifest : Expected) (warnings : List Warning) (ok : Bool) (results : List Scored)
    → (validate_from manifest warnings ok results).0 ≡ []
    → (warnings ≡ []) × All (IsSound manifest) results
unfolding validate_from
validate_from-silent manifest warnings ok [] h = (h, tt)
validate_from-silent manifest warnings ok (r ∷ results) h =
    let here = validate_result manifest r in
    let (w, a) =
      validate_from-silent manifest (warnings ++ here.0) (if here.1 then ok else false) results h in
    let (q, silent) = nil-append warnings here.0 w in
    (q, (validate_result-silent manifest r silent, a))

validate_from-verdict :
    (manifest : Expected) (warnings : List Warning) (ok : Bool) (results : List Scored)
    → (validate_from manifest warnings ok results).1 ≡ true
    → (ok ≡ true) × All (λ (r : Scored). r.cv_pass ≡ true) results
unfolding validate_from
validate_from-verdict manifest warnings ok [] h = (h, tt)
validate_from-verdict manifest warnings ok (r ∷ results) h =
    let here = validate_result manifest r in
    let (w, a) =
      validate_from-verdict manifest (warnings ++ here.0) (if here.1 then ok else false) results
        h in
    elim (Bool-cases r.cv_pass) [
      | inl p ↦ (subst (λ t. (if t then ok else false) ≡ true) p w, (p, a))
      | inr p ↦ absurd (ground (arith, subst (λ t. (if t then ok else false) ≡ true) p w))
    ]

-- A payload that `ValidatePayload` passes over without a warning has in every result a CV that
-- passed and as many filtered values as were expected.
pub validate_payload-IsSound :
    (manifest : Expected) (results : List Scored)
    → (validate_payload manifest results).0 ≡ []
    → All (IsSound manifest) results
unfolding validate_payload
validate_payload-IsSound manifest results h = (validate_from-silent manifest [] true results h).1

-- A payload that `ValidatePayload` passes has no result whose CV failed.
pub validate_payload-passed :
    (manifest : Expected) (results : List Scored)
    → (validate_payload manifest results).1 ≡ true
    → All (λ (r : Scored). r.cv_pass ≡ true) results
unfolding validate_payload
validate_payload-passed manifest results h = (validate_from-verdict manifest [] true results h).1

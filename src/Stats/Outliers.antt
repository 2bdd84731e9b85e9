-- ===== src/Stats/Outliers.antt =====
-- The outlier filter of benchmark/internal/stats/stats.go loses no value.
use itmo_master_research.Base.{
  ℕ, suc, ◌+◌, ◌≡◌, refl, ◌∙◌, ap, subst, inl, inr, ltb, List, [], ◌∷◌, length, Option, none, some,
  arith, Bool-cases, Option-cases,
}
use itmo_master_research.Base.Float.{Float64}
use itmo_master_research.Stats.{
  Indexed, percentile, numbered, vals, part, or_all, filter_iqr_indexed,
}

module _ {F : Type 0} (float : Float64 F) where
  length-numbered : (i : ℕ) (values : List F) → length (numbered float i values) ≡ length values
  unfolding numbered
  length-numbered i [] = refl
  length-numbered i (v ∷ values) = ap suc (length-numbered (suc i) values)

  length-part :
      (low high : F) (items : List (Indexed F))
      → length (part float low high items).0 + length (part float low high items).1 ≡ length items
  unfolding part
  length-part low high [] = omega arith
  length-part low high (it ∷ items) = ground (arith, length-part low high items)

  length-or_all :
      (values : List F) (p : List F × List ℕ)
      → length p.0 + length p.1 ≡ length values
      → length (or_all float values p).0 + length (or_all float values p).1 ≡ length values
  unfolding or_all
  length-or_all values ([], outliers) h = omega arith
  length-or_all values (v ∷ filtered, outliers) h = h

  -- Together as many as the values, if there is an answer.
  abbrev IsKept : List F → Option (List F × List ℕ) → Type 0
  IsKept values none = Unit
  IsKept values (some p) = length p.0 + length p.1 ≡ length values

  filter_iqr_indexed-IsKept :
      (sort_slice : List (Indexed F) → List (Indexed F))
      → ((items : List (Indexed F)) → length (sort_slice items) ≡ length items)
      → (values : List F) → IsKept values (filter_iqr_indexed float sort_slice values)
  unfolding filter_iqr_indexed
  filter_iqr_indexed-IsKept sort_slice keeps values =
      let items = sort_slice (numbered float 1 values) in
      let q1 = percentile float (vals float items) (float.lit 25 100) in
      let q3 = percentile float (vals float items) (float.lit 75 100) in
      let all : length items ≡ length values =
        keeps (numbered float 1 values) ∙ length-numbered 1 values in
      elim (Bool-cases (ltb (length values) 5)) [
        | inl few ↦ rw few (omega arith)
        | inr few ↦ elim (Option-cases q1) [
          | inl e ↦ rw (few, e) tt
          | inr (a, e) ↦ elim (Option-cases q3) [
            | inl z ↦ rw (few, e, z) tt
            | inr (b, z) ↦
                rw (few, e, z)
                  (length-or_all values (part float _ _ items) (length-part _ _ items ∙ all))
          ]
        ]
      ]

  -- When `FilterIQRIndexed` answers and sort.Slice keeps the number of the elements, the values that
  -- it keeps and the indexes that it reports are together as many as the values.
  pub length-filter_iqr_indexed :
      (sort_slice : List (Indexed F) → List (Indexed F))
      → ((items : List (Indexed F)) → length (sort_slice items) ≡ length items)
      → (values filtered : List F) (outliers : List ℕ)
      → filter_iqr_indexed float sort_slice values ≡ some (filtered, outliers)
      → length filtered + length outliers ≡ length values
  length-filter_iqr_indexed sort_slice keeps values filtered outliers e =
      subst (IsKept values) e (filter_iqr_indexed-IsKept sort_slice keeps values)

-- ===== src/Stats/Bootstrap/Sampled.antt =====
-- What the bootstrap of benchmark/internal/stats/stats.go gives: statistics of resampled data.
use itmo_master_research.Base.{
  ℕ, zero, suc, ◌+◌, ◌<◌, ℤ, pos, ◌≤ℤ◌, two63, ◌≡◌, refl, ap, ◌∙◌, List, [], ◌∷◌, length, get_elem?,
  get_elem?-total, Option, some, All, arith, subst, sub64-one, ℤ-cases, Bool-cases, leb_ℤ, inl, inr,
}
use itmo_master_research.Base.Float.{Float64}
use itmo_master_research.Workload.Cold.{IsBelow}
use itmo_master_research.Stats.{at}
use itmo_master_research.Stats.Bootstrap.{
  draw_batch, draw_samples, alpha, low_index, high_index, bootstrap_ci,
}

-- What is relied on of sort.Float64s: it keeps the number of the values and makes no new ones.
pub record IsSort {F : Type 0} (sort : List F → List F) : Type 0 where
  pub keeps : (xs : List F) → length (sort xs) ≡ length xs
  pub from :
      (xs : List F) (i : ℕ) (v : F)
      → get_elem? (sort xs) i ≡ some v
      → (j : ℕ) × (get_elem? xs j ≡ some v)

-- One of the values.
abbrev pub IsIn : {F : Type 0} → List F → F → Type 0
IsIn xs v = (j : ℕ) × (get_elem? xs j ≡ some v)

-- The statistic of a batch that was drawn from the values, with repetition, as many as there are.
abbrev pub IsSampled : {F : Type 0} → (List F → Option F) → List F → F → Type 0
IsSampled {F} stat values s =
    (batch : List F) × (length batch ≡ length values)
    × All (IsIn values) batch
    × (stat batch ≡ some s)

some-inj : {F : Type 0} (x v : F) → some x ≡ some v → x ≡ v
some-inj x v h = cc h

All-get :
    {F : Type 0} (P : F → Type 0) (xs : List F) (i : ℕ) (v : F)
    → All P xs
    → get_elem? xs i ≡ some v
    → P v
All-get P [] i v a h = cc h
All-get P (x ∷ xs) zero v a h = subst P (some-inj x v h) a.0
All-get P (x ∷ xs) (suc i) v a h = All-get P xs i v a.1 h

module _ {F : Type 0} (float : Float64 F) (sort : List F → List F) (draw : ℤ → ℕ → ℕ → ℕ)
    (below : IsBelow draw) (first : F) (rest : List F) where
  abbrev values : List F
  values = first ∷ rest

  draw_batch-IsIn :
      (seed : ℤ) (k j : ℕ)
      → (batch : List F) × (draw_batch float sort draw values seed k j ≡ some batch)
        × (length batch ≡ j)
        × All (IsIn values) batch
  unfolding draw_batch
  draw_batch-IsIn seed k zero = ([], refl, refl, tt)
  draw_batch-IsIn seed k (suc j) =
      let (batch, more, long, all) = draw_batch-IsIn seed (suc k) j in
      let i = draw seed (length values) k in
      let (v, found) = get_elem?-total values i (below seed (length rest) k) in
      (v ∷ batch, rw (found, more) refl, ap suc long, ((i, found), all))

  module _ (stat : List F → Option F)
      (total : (batch : List F)
        → length batch ≡ length values
        → (s : F) × (stat batch ≡ some s)) where
    draw_samples-IsSampled :
        (seed : ℤ) (k i : ℕ)
        → (samples : List F) × (draw_samples float sort draw stat values seed k i ≡ some samples)
          × (length samples ≡ i)
          × All (IsSampled stat values) samples
    unfolding draw_samples
    draw_samples-IsSampled seed k zero = ([], refl, refl, tt)
    draw_samples-IsSampled seed k (suc i) =
        let (samples, more, long, all) = draw_samples-IsSampled seed (k + length values) i in
        let (batch, drawn, size, inside) = draw_batch-IsIn seed k (length values) in
        let (s, is) = total batch size in
        (s ∷ samples, rw (drawn, is, more) refl, ap suc long, ((batch, size, inside, is), all))

module _ {F : Type 0} (float : Float64 F) (sort : List F → List F) (draw : ℤ → ℕ → ℕ → ℕ) where
  -- The two products of which the indexes are made.
  abbrev pub lower : ℕ → F → ℤ
  lower iterations level =
      float.floor (float.mul (float.of_int (pos iterations)) (alpha float sort draw level))

  abbrev pub upper : ℕ → F → ℤ
  upper iterations level = float.ceil (
      float.mul (float.of_int (pos iterations))
        (float.sub (float.of_int (pos 1)) (alpha float sort draw level)))

  low_index-lt :
      (n : ℕ) (level : F)
      → lower (suc n) level ≤ℤ pos n
      → (i : ℕ) × (low_index float sort draw (suc n) level ≡ pos i) × (i < suc n)
  unfolding low_index
  low_index-lt n level h = elim (ℤ-cases (lower (suc n) level)) [
    | inl (i, e) ↦ (i, ground (arith, e), ground (arith, e, h))
    | inr (i, e) ↦ (0, ground (arith, e), omega arith)
  ]

  high_index-lt :
      (n : ℕ) (level : F) (c : ℕ)
      → suc n < two63
      → suc c < two63
      → upper (suc n) level ≡ pos (suc c)
      → (i : ℕ) × (high_index float sort draw (suc n) level ≡ pos i) × (i < suc n)
  unfolding high_index
  high_index-lt n level c small bounded e = elim (Bool-cases (leb_ℤ (pos (suc n)) (pos c))) [
    | inl over ↦ (n, ground (arith, e, over, sub64-one n small, sub64-one c bounded), omega arith)
    | inr under ↦ (c, ground (arith, e, under, sub64-one c bounded), ground (arith, under))
  ]

  at-drawn :
      (P : F → Type 0) (xs : List F) (n i : ℕ) (z : ℤ)
      → IsSort sort
      → length xs ≡ n
      → All P xs
      → z ≡ pos i
      → i < n
      → (v : F) × (at float (sort xs) z ≡ some v) × P v
  unfolding at
  at-drawn P xs n i z sorts long all e h =
      let (v, found) = get_elem?-total (sort xs) i (omega (arith, h, long, sorts.keeps xs)) in
      let (j, there) = sorts.from xs i v found in
      (v, ap (at float (sort xs)) e ∙ found, All-get P xs j v all there)

  -- For data of at least one value, with a generator that stays below its bound, a sort that keeps
  -- the values, a statistic that exists of every batch of that size, and a level whose two products
  -- lie where the ends of an interval can be, the interval exists: no index is out of range, and
  -- both ends are the statistic of a batch drawn from the data.
  pub bootstrap_ci-IsSampled :
      IsBelow draw
      → IsSort sort
      → (first : F) (rest : List F) (n c : ℕ) (level : F) (stat : List F → Option F) (seed : ℤ)
      → ((batch : List F) → length batch ≡ length (first ∷ rest) → (s : F) × (stat batch ≡ some s))
      → suc n < two63
      → suc c < two63
      → lower (suc n) level ≤ℤ pos n
      → upper (suc n) level ≡ pos (suc c)
      → (low : F) × (high : F) × (bootstrap_ci float sort draw
            (first ∷ rest)
            (suc n)
            level
            stat
            seed
          ≡ some (low, high))
        × IsSampled stat (first ∷ rest) low
        × IsSampled stat (first ∷ rest) high
  unfolding bootstrap_ci
  bootstrap_ci-IsSampled below sorts first rest n c level stat seed total small bounded lo hi =
      let (samples, drawn, long, all) =
        draw_samples-IsSampled float sort draw below first rest stat total seed 0 (suc n) in
      let (i, low_at, low_in) = low_index-lt n level lo in
      let (j, high_at, high_in) = high_index-lt n level c small bounded hi in
      let (low, low_found, low_is) =
        at-drawn (IsSampled stat (first ∷ rest)) samples (suc n) i _ sorts long all low_at low_in in
      let (high, high_found, high_is) =
        at-drawn (IsSampled stat (first ∷ rest)) samples (suc n) j _ sorts long all high_at
          high_in in
      (low, high, rw (drawn, low_found, high_found) refl, low_is, high_is)

-- ===== src/Stats/Bootstrap.antt =====
-- The summary of benchmark/internal/stats/stats.go with its bootstrap. sort.Float64s and the
-- generator of math/rand are parameters: `draw seed n k` is the k-th `Intn(n)` of the source of this
-- seed. None stands for the panic of an index out of range.
pub mod Sampled
use itmo_master_research.Base.{
  ℕ, zero, suc, ◌+◌, ◌-◌, ℤ, pos, negsuc, sub64, Bool, true, false, List, [], ◌∷◌, length,
  get_elem?, Option, none, some, ltb_ℤ, leb_ℤ, if◌then◌else◌,
}
use itmo_master_research.Base.Float.{Float64}
use itmo_master_research.Stats.{◌>>=◌, at, percentile, Indexed, filter_iqr_indexed}

pub record Summary (F : Type 0) : Type 0 where
  pub mean : F
  pub p50 : F
  pub p95 : F
  pub std_err : F
  pub cv : F
  pub ci_low : F
  pub ci_high : F
  pub p50_ci_low : F
  pub p50_ci_high : F
  pub n : ℕ
  pub n_filtered : ℕ
  pub outliers : List ℕ

module _ {F : Type 0} (float : Float64 F) (sort : List F → List F) (draw : ℤ → ℕ → ℕ → ℕ) where
  abbrev nought : F
  nought = float.of_int (pos 0)

  -- The loops that add up, from the left.
  sum_from : F → List F → F
  sum_from sum [] = sum
  sum_from sum (v ∷ values) = sum_from (float.add sum v) values

  squares_from : F → F → List F → F
  squares_from mean variance [] = variance
  squares_from mean variance (v ∷ values) =
      let d = float.sub v mean in squares_from mean (float.add variance (float.mul d d)) values

  unfoldable pub bootstrap_mean : List F → Option F
  unfolding sum_from
  bootstrap_mean values =
      some (float.div (sum_from nought values) (float.of_int (pos (length values))))

  unfoldable pub bootstrap_percentile : F → List F → Option F
  unfolding percentile
  bootstrap_percentile p values = percentile float (sort values) p

  -- The inner loop: so many draws, from the `k`-th on.
  unfoldable pub draw_batch : List F → ℤ → ℕ → ℕ → Option (List F)
  draw_batch values seed k zero = some []
  draw_batch values seed k (suc j) =
      let rest = draw_batch values seed (suc k) j in
      get_elem? values (draw seed (length values) k) >>= λ v. rest >>= λ batch. some (v ∷ batch)

  -- The outer loop, with so many iterations left.
  unfoldable pub draw_samples : (List F → Option F) → List F → ℤ → ℕ → ℕ → Option (List F)
  unfolding draw_batch
  draw_samples stat values seed k zero = some []
  draw_samples stat values seed k (suc i) =
      let rest = draw_samples stat values seed (k + length values) i in
      draw_batch values seed k (length values) >>= λ batch.
      stat batch >>= λ s. rest >>= λ samples. some (s ∷ samples)

  unfoldable pub alpha : F → F
  alpha level = float.div (float.sub (float.of_int (pos 1)) level) (float.of_int (pos 2))

  unfoldable pub low_index : ℕ → F → ℤ
  unfolding alpha
  low_index iterations level =
      let i = float.floor (float.mul (float.of_int (pos iterations)) (alpha level)) in
      if ltb_ℤ i (pos 0) then pos 0 else i

  unfoldable pub high_index : ℕ → F → ℤ
  unfolding alpha
  high_index iterations level =
      let share = float.sub (float.of_int (pos 1)) (alpha level) in
      let i = sub64 (float.ceil (float.mul (float.of_int (pos iterations)) share)) (pos 1) in
      if leb_ℤ (pos iterations) i then sub64 (pos iterations) (pos 1) else i

  unfoldable pub bootstrap_ci : List F → ℕ → F → (List F → Option F) → ℤ → Option (F × F)
  unfolding draw_samples low_index high_index at
  bootstrap_ci [] iterations level stat seed = some (nought, nought)
  bootstrap_ci (v ∷ values) iterations level stat seed = do
    samples ← draw_samples stat (v ∷ values) seed 0 iterations
    low ← at float (sort samples) (low_index iterations level)
    high ← at float (sort samples) (high_index iterations level)
    some (low, high)

  -- `Summary{N: len(all), NFiltered: 0, Outliers: outlierRuns}`
  abbrev bare_summary : ℕ → List ℕ → Summary F
  bare_summary n outliers = record {
    mean = nought;
    p50 = nought;
    p95 = nought;
    std_err = nought;
    cv = nought;
    ci_low = nought;
    ci_high = nought;
    p50_ci_low = nought;
    p50_ci_high = nought;
    n = n;
    n_filtered = 0;
    outliers = outliers;
  }

  unfoldable pub mean_of : List F → F
  unfolding sum_from
  mean_of cp = float.div (sum_from nought cp) (float.of_int (pos (length cp)))

  unfoldable pub std_of : List F → F
  unfolding mean_of squares_from
  std_of cp =
      float.sqrt (float.div (squares_from (mean_of cp) nought cp) (float.of_int (pos (length cp))))

  unfoldable pub cv_of : List F → F
  unfolding mean_of std_of
  cv_of cp =
      if float.lt nought (mean_of cp)
      then float.mul (float.div (std_of cp) (mean_of cp)) (float.of_int (pos 100))
      else nought

  abbrev confidence : F
  confidence = float.lit 95 100

  unfoldable pub summarize_filtered_with_seed : List F → List F → List ℕ → ℤ → Option (Summary F)
  unfolding mean_of std_of cv_of bootstrap_ci bootstrap_mean bootstrap_percentile percentile
  summarize_filtered_with_seed all [] outliers seed = some (bare_summary (length all) outliers)
  summarize_filtered_with_seed all (v ∷ filtered) outliers seed = do
    let cp = sort (v ∷ filtered)
    ci ← bootstrap_ci cp 2000 confidence bootstrap_mean seed
    p50_ci ← bootstrap_ci cp 2000 confidence (bootstrap_percentile (float.lit 50 100)) seed
    p50 ← percentile float cp (float.lit 50 100)
    p95 ← percentile float cp (float.lit 95 100)
    some (record {
      mean = mean_of cp;
      p50 = p50;
      p95 = p95;
      std_err = float.div (std_of cp) (float.sqrt (float.of_int (pos (length (v ∷ filtered)))));
      cv = cv_of cp;
      ci_low = ci.0;
      ci_high = ci.1;
      p50_ci_low = p50_ci.0;
      p50_ci_high = p50_ci.1;
      n = length all;
      n_filtered = length (v ∷ filtered);
      outliers = outliers;
    })

  unfoldable pub summarize : (List (Indexed F) → List (Indexed F)) → List F → Option (Summary F)
  unfolding filter_iqr_indexed summarize_filtered_with_seed
  summarize sort_slice values = do
    found ← filter_iqr_indexed float sort_slice values
    summarize_filtered_with_seed values found.0 found.1 (pos 42)

-- ===== src/Warmkit/Metrics/Window.antt =====
-- The latency window of `ShadowMetrics` (warmkit/fsm.go), over any history of samples.
use mathlib.Core.List.{append-nil, append_assoc}
use itmo_master_research.Base.{
  ℕ, ◌+◌, ◌-◌, ◌≤◌, ◌<◌, ℤ, pos, pos_part, ◌≤ℤ◌, add64, add64-pos, two63, ◌≡◌, refl, sym, ap, ◌∙◌,
  inl, inr, false, List, [], ◌∷◌, ◌++◌, length, drop, length-append, length-drop, drop-append,
  drop-nil, drop-drop, some, arith, ◌⊎◌,
}
use itmo_master_research.Base.Rank.{IsRanked, exchange_sort-IsRanked}
use itmo_master_research.Warmkit.Metrics.{
  ShadowMetrics, new_shadow_metrics, record_latency, percentile_duration, p95_ns,
}

-- `Record` counts every call, the panicking ones included, and keeps its bound.
pub record_latency-count :
    (m : ShadowMetrics) (d : ℤ)
    → ((record_latency m d).0.count ≡ add64 m.count (pos 1))
      × ((record_latency m d).0.max_keep ≡ m.max_keep)
unfolding record_latency
record_latency-count m d = ground arith

-- With a bound that is not negative it does not panic.
pub record_latency_ok :
    (m : ShadowMetrics) (d : ℤ) (k : ℕ) → m.max_keep ≡ pos k → (record_latency m d).1 ≡ false
unfolding record_latency
record_latency_ok m d k h = ground arith

-- A history of samples; after a panic of one request the next one finds the metrics as left.
unfoldable pub record_all : ShadowMetrics → List ℤ → ShadowMetrics
record_all m [] = m
record_all m (d ∷ ds) = record_all (record_latency m d).0 ds

-- The newest `k` samples of a history.
abbrev pub newest : ℕ → List ℤ → List ℤ
newest k ds = drop (length ds - k) ds

-- The metrics after the samples `ds`, for a window of `k`.
abbrev pub windowed : ℕ → List ℤ → ShadowMetrics
windowed k ds = record { count = pos (length ds); latencies = newest k ds; max_keep = pos k }

length-snoc : (ds : List ℤ) (d : ℤ) → length (ds ++ d ∷ []) ≡ length ds + 1
length-snoc ds d = length-append ds (d ∷ [])

newest-snoc :
    (k : ℕ) (ds : List ℤ) (d : ℤ)
    → drop (length (newest k ds ++ d ∷ []) - k) (newest k ds ++ d ∷ []) ≡ newest k (ds ++ d ∷ [])
newest-snoc k ds d =
    let n : ℕ = length ds in
    let size : length (newest k ds ++ d ∷ []) ≡ n - (n - k) + 1 =
      omega (arith, length-snoc (newest k ds) d, length-drop (n - k) ds) in
    let cut : (n - k) + (length (newest k ds ++ d ∷ []) - k) ≡ length (ds ++ d ∷ []) - k =
      omega (arith, size, length-snoc ds d) in
    ap (drop (length (newest k ds ++ d ∷ []) - k))
      (sym (drop-append (n - k) ds (d ∷ []) (omega arith)))
    ∙ drop-drop (length (newest k ds ++ d ∷ []) - k) (n - k) (ds ++ d ∷ [])
    ∙ ap (λ (c : ℕ). drop c (ds ++ d ∷ [])) cut

newest-short :
    (k : ℕ) (ds : List ℤ) (d : ℤ)
    → length (newest k ds ++ d ∷ []) ≤ k
    → newest k ds ++ d ∷ [] ≡ newest k (ds ++ d ∷ [])
newest-short k ds d h =
    let none_cut : length (newest k ds ++ d ∷ []) - k ≡ 0 = omega arith in
    ap (λ (c : ℕ). drop c (newest k ds ++ d ∷ [])) (sym none_cut) ∙ newest-snoc k ds d

record_windowed :
    (k : ℕ) (ds : List ℤ) (d : ℤ)
    → length ds + 1 < two63
    → record_latency (windowed k ds) d ≡ (windowed k (ds ++ d ∷ []), false)
unfolding record_latency
record_windowed k ds d h =
    ground
      (arith, add64-pos (length ds) 1 h, length-snoc ds d, newest-snoc k ds d, newest-short k ds d)

record_all-windowed :
    (k : ℕ) (before ds : List ℤ)
    → length before + length ds < two63
    → record_all (windowed k before) ds ≡ windowed k (before ++ ds)
unfolding record_all
record_all-windowed k before [] h = ap (windowed k) (sym (append-nil before))
record_all-windowed k before (d ∷ ds) h =
    ap (λ r. record_all r.0 ds) (record_windowed k before d (omega arith))
    ∙ record_all-windowed k (before ++ d ∷ []) ds (omega (arith, length-snoc before d))
    ∙ ap (windowed k) (append_assoc before (d ∷ []) ds)

fresh-windowed : (k : ℕ) → new_shadow_metrics (pos k) ≡ windowed k []
unfolding new_shadow_metrics
fresh-windowed k = ground (arith, drop-nil {A = ℤ} (0 - k))

-- After any history of fewer than 2^63 samples, a fresh window of `k` counts all of them and holds
-- the newest `k`, oldest first.
pub record_all_lem :
    (k : ℕ) (ds : List ℤ)
    → length ds < two63
    → record_all (new_shadow_metrics (pos k)) ds ≡ windowed k ds
record_all_lem k ds h =
    ap (λ m. record_all m ds) (fresh-windowed k) ∙ record_all-windowed k [] ds (omega arith)

-- `int(float64(k) * 0.95)` stays an index of a list of `k + 1` elements.
abbrev pub IsIndexScale : (ℕ → ℤ) → Type 0
IsIndexScale scale = (k : ℕ) → scale k ≤ℤ pos k

-- The index that the percentile reads.
abbrev pub p95_index : (ℕ → ℤ) → List ℤ → ℕ
p95_index scale xs = pos_part (scale (length xs - 1))

pos_part-le : (z : ℤ) (k : ℕ) → z ≤ℤ pos k → pos_part z ≤ k
pos_part-le z k h = ground arith

percentile-IsRanked :
    (scale : ℕ → ℤ)
    → IsIndexScale scale
    → (xs : List ℤ)
    → ((xs ≡ []) × (percentile_duration scale xs ≡ some (pos 0)))
      ⊎ ((v : ℤ) × (percentile_duration scale xs ≡ some v) × IsRanked v (p95_index scale xs) xs)
unfolding percentile_duration
percentile-IsRanked scale h [] = inl (refl, refl)
percentile-IsRanked scale h (x ∷ xs) =
    let i = p95_index scale (x ∷ xs) in
    let (v, at, r) =
      exchange_sort-IsRanked (x ∷ xs) i
        (omega (arith, pos_part-le _ (length (x ∷ xs) - 1) (h (length (x ∷ xs) - 1)))) in
    inr (v, ground (arith, at), r)

-- When the scaled index is never above the last index, `P95Ns` never reads out of range: it is 0
-- for an empty window, and otherwise a sample whose rank among the window's samples is the scaled
-- index.
pub p95_ns_lem :
    (scale : ℕ → ℤ) (m : ShadowMetrics)
    → IsIndexScale scale
    → ((m.latencies ≡ []) × (p95_ns scale m ≡ some (pos 0)))
      ⊎ ((v : ℤ) × (p95_ns scale m ≡ some v) × IsRanked v (p95_index scale m.latencies) m.latencies)
unfolding p95_ns
p95_ns_lem scale m h = percentile-IsRanked scale h m.latencies

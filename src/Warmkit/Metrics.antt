-- ===== src/Warmkit/Metrics.antt =====
-- warmkit/fsm.go, `ShadowMetrics`. A call returns the new metrics and whether it panicked; Go's
-- slice expression panics where its low bound exceeds the length.
pub mod Window
use itmo_master_research.Base.{
  ℕ, ◌-◌, ℤ, pos, negsuc, add64, ltb_ℤ, Bool, true, false, List, [], ◌∷◌, ◌++◌, length, drop,
  get_elem?, Option, none, some, if◌then◌else◌, ltb,
}
use itmo_master_research.Base.Exchange.{exchange_sort}

pub record ShadowMetrics : Type 0 where
  pub count : ℤ
  pub latencies : List ℤ
  pub max_keep : ℤ

unfoldable pub new_shadow_metrics : ℤ → ShadowMetrics
new_shadow_metrics max_keep = record { count = pos 0; latencies = []; max_keep = max_keep }

-- `m.latencies[len(m.latencies)-m.maxKeep:]`; `none` is the panic of a negative `maxKeep`.
keep_last : ℤ → List ℤ → Option (List ℤ)
keep_last (pos k) xs = some (drop (length xs - k) xs)
keep_last (negsuc k) xs = none

or_panic : ShadowMetrics → Option (List ℤ) → ShadowMetrics × Bool
or_panic m none = (m, true)
or_panic m (some xs) = (record m { latencies = xs }, false)

-- `Record`: the panic leaves the count and the appended sample in place.
unfoldable pub record_latency : ShadowMetrics → ℤ → ShadowMetrics × Bool
unfolding keep_last or_panic add64
record_latency m d =
    let grown = record m { count = add64 m.count (pos 1); latencies = m.latencies ++ d ∷ [] } in
    if ltb_ℤ m.max_keep (pos (length grown.latencies))
    then or_panic grown (keep_last m.max_keep grown.latencies)
    else (grown, false)

-- `scale k` is `int(float64(k) * 0.95)`, a truncated float64 product. Any index below the length
-- is read; `none` is the panic of an index out of range.
module _ (scale : ℕ → ℤ) where
  or_zero : ℤ → ℤ
  or_zero idx = if ltb_ℤ idx (pos 0) then pos 0 else idx

  nth : List ℤ → ℤ → Option ℤ
  nth xs (pos i) = get_elem? xs i
  nth xs (negsuc i) = none

  unfoldable pub percentile_duration : List ℤ → Option ℤ
  unfolding or_zero nth exchange_sort
  percentile_duration xs =
      if ltb 0 (length xs)
      then nth (exchange_sort xs) (or_zero (scale (length xs - 1)))
      else some (pos 0)

  unfoldable pub p95_ns : ShadowMetrics → Option ℤ
  unfolding percentile_duration
  p95_ns m = percentile_duration m.latencies

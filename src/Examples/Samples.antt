-- ===== src/Examples/Samples.antt =====
-- A run of the bootstrap of the statistics.
use itmo_master_research.Base.{ℕ, ◌-◌, ℤ, pos, ◌≡◌, ◌≤ℤ◌, refl, List, [], ◌∷◌, length, some, arith}
use itmo_master_research.Workload.Cold.{IsBelow}
use itmo_master_research.Stats.Bootstrap.{bootstrap_ci, bootstrap_mean, alpha}
use itmo_master_research.Stats.Bootstrap.Sampled.{
  IsSort, IsSampled, lower, upper, bootstrap_ci-IsSampled,
}
use itmo_master_research.Examples.{whole}

-- Every draw is the last value.
abbrev last_draw : ℤ → ℕ → ℕ → ℕ
last_draw seed n i = n - 1

last_draw-IsBelow : IsBelow last_draw
last_draw-IsBelow seed n i = omega arith

-- For values that are in order.
abbrev sorted : List ℕ → List ℕ
sorted xs = xs

sorted-IsSort : IsSort sorted
sorted-IsSort = record { keeps = λ xs. refl; from = λ xs i v h. (i, h) }

mean-total :
    (batch : List ℕ)
    → length batch ≡ 2
    → (s : ℕ) × (bootstrap_mean whole sorted last_draw batch ≡ some s)
unfolding bootstrap_mean
mean-total batch h = (_, refl)

lower_end : lower whole sorted last_draw 3 0 ≤ℤ pos 2
unfolding alpha
lower_end = omega arith

upper_end : upper whole sorted last_draw 3 0 ≡ pos 3
unfolding alpha
upper_end = refl

bootstrap_ci-IsSampled_example :
    (low : ℕ) × (high : ℕ) × (bootstrap_ci whole sorted last_draw
        (10 ∷ 30 ∷ [])
        3
        0
        (bootstrap_mean whole sorted last_draw)
        (pos 42)
      ≡ some (low, high))
    × IsSampled (bootstrap_mean whole sorted last_draw) (10 ∷ 30 ∷ []) low
    × IsSampled (bootstrap_mean whole sorted last_draw) (10 ∷ 30 ∷ []) high
bootstrap_ci-IsSampled_example =
    bootstrap_ci-IsSampled whole sorted last_draw last_draw-IsBelow sorted-IsSort 10 (30 ∷ []) 2 2 0
      (bootstrap_mean whole sorted last_draw) (pos 42) mean-total (omega arith) (omega arith)
      lower_end upper_end

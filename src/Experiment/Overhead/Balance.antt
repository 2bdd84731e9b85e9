-- ===== src/Experiment/Overhead/Balance.antt =====
-- The two sides of `RunOverhead` (benchmark/internal/experiment/experiment.go) are measured by
-- strict turns, and the results have as many runs of each as were asked for.
use itmo_master_research.Base.{
  ℕ, zero, suc, ◌+◌, ◌*◌, ◌/◌, ◌%◌, ◌-◌, ◌≤◌, ◌≡◌, refl, sym, ap, subst, ◌∙◌, inl, inr, Bool, true,
  false, eqb, List, [], ◌∷◌, length, length-append, some, arith, Bool-cases, Option-cases,
}
use itmo_master_research.Base.Result.{Result, ok, err, Result-cases}
use itmo_master_research.Experiment.Overhead.{
  Side, mirror_off, mirror_on, pick_overhead_side, Limits, Collected, max_per_side, run_index,
  append_run, returns_here, collect_from, run_overhead,
}

-- The sides before attempt `n`, when they have been measured by turns from the first attempt on.
pub record IsBalanced {A : Type 0} (n : ℕ) (c : Collected A) : Type 0 where
  pub off_count : length c.off_runs ≡ n / 2
  pub on_count : length c.on_runs ≡ (n - 1) / 2

-- The side whose turn it is.
abbrev pub turn : ℕ → Side
turn n = elim (eqb (n % 2) 1) [ true ↦ mirror_off | false ↦ mirror_on ]

-- While attempts are left the side whose turn it is can always be measured.
pick-turn :
    (n max : ℕ)
    → 1 ≤ n
    → n ≤ max * 2
    → pick_overhead_side n (n / 2) ((n - 1) / 2) max ≡ some (turn n)
unfolding pick_overhead_side
pick-turn n max h k = elim (Bool-cases (eqb (n % 2) 1)) [
  | inl odd ↦ ground (arith, odd)
  | inr even ↦ ground (arith, even)
]

module _ {E A : Type 0} (m : Limits) (cv_pass : Side → List A → Bool)
    (attempt : Side → ℕ → ℕ → Result E A) where
  append-IsBalanced :
      (n : ℕ) (c : Collected A) (a : A)
      → 1 ≤ n
      → IsBalanced n c
      → IsBalanced (suc n) (append_run m cv_pass attempt c (turn n) a)
  unfolding append_run
  append-IsBalanced n c a h b = elim (Bool-cases (eqb (n % 2) 1)) [
    | inl odd ↦ ground (arith, odd, length-append c.off_runs (a ∷ []))
    | inr even ↦ ground (arith, even, length-append c.on_runs (a ∷ []))
  ]

  -- What the results of `RunOverhead` promise.
  pub record IsComplete (c : Collected A) : Type 0 where
    pub by_turns : length c.on_runs ≤ length c.off_runs
    pub paired : length c.off_runs ≤ length c.on_runs + 1
    pub enough : m.h4_runs ≤ length c.on_runs
    pub bounded : length c.off_runs ≤ max_per_side m

  returns-enough :
      (c : Collected A) → returns_here m cv_pass attempt c ≡ true → m.h4_runs ≤ length c.on_runs
  unfolding returns_here
  returns-enough c h = ground arith

  stop-IsComplete :
      (n : ℕ) (c : Collected A)
      → IsBalanced n c
      → 1 ≤ n
      → n ≤ max_per_side m * 2 + 1
      → m.h4_runs ≤ length c.on_runs
      → IsComplete c
  stop-IsComplete n c b h k e = record {
    by_turns = omega (arith, b.off_count, b.on_count);
    paired = omega (arith, b.off_count, b.on_count);
    enough = e;
    bounded = omega (arith, b.off_count);
  }

  collect-none : (n : ℕ) (c : Collected A) → collect_from m cv_pass attempt zero n c ≡ ok c
  unfolding collect_from
  collect-none n c = refl

  ok_inj : {c d : Collected A} → Path (Result E (Collected A)) (ok c) (ok d) → c ≡ d
  ok_inj {c} e = ap (λ r. elim r [ ok d ↦ d | err x ↦ c ]) e

  collect-attempt :
      (left n : ℕ) (c : Collected A) (side : Side)
      → pick_overhead_side n (length c.off_runs) (length c.on_runs) (max_per_side m) ≡ some side
      → collect_from m cv_pass attempt (suc left) n c
        ≡ elim (attempt side n (run_index m cv_pass attempt c side)) [
          | err e ↦ err e
          | ok a ↦
              let c' = append_run m cv_pass attempt c side a in
              elim (returns_here m cv_pass attempt c') [
                | true ↦ ok c'
                | false ↦ collect_from m cv_pass attempt left (suc n) c'
              ]
        ]
  unfolding collect_from
  collect-attempt left n c side p = rw (p, collect_from) refl

  -- What the loop does after one measurement.
  go_on : ℕ → ℕ → Collected A → Side → Result E A → Result E (Collected A)
  go_on left n c side (err e) = err e
  go_on left n c side (ok a) =
      let c' = append_run m cv_pass attempt c side a in
      elim (returns_here m cv_pass attempt c') [
        | true ↦ ok c'
        | false ↦ collect_from m cv_pass attempt left (suc n) c'
      ]

  collect-go_on :
      (left n : ℕ) (c : Collected A) (side : Side)
      → pick_overhead_side n (length c.off_runs) (length c.on_runs) (max_per_side m) ≡ some side
      → collect_from m cv_pass attempt (suc left) n c
        ≡ go_on left n c side (attempt side n (run_index m cv_pass attempt c side))
  unfolding go_on
  collect-go_on left n c side p =
      collect-attempt left n c side p
      ∙ elim (Result-cases (attempt side n (run_index m cv_pass attempt c side))) [
        | inl (a, q) ↦ rw q refl
        | inr (x, q) ↦ rw q refl
      ]

  pick-IsBalanced :
      (n : ℕ) (c : Collected A)
      → IsBalanced n c
      → 1 ≤ n
      → n ≤ max_per_side m * 2
      → pick_overhead_side n (length c.off_runs) (length c.on_runs) (max_per_side m) ≡ some (turn n)
  pick-IsBalanced n c b h k = rw (b.off_count, b.on_count) (pick-turn n (max_per_side m) h k)

  go_on-IsComplete :
      (left n : ℕ) (c d : Collected A) (r : Result E A)
      → m.h4_runs ≤ max_per_side m
      → 1 ≤ n
      → suc left + n ≡ max_per_side m * 2 + 1
      → IsBalanced n c
      → ((c' : Collected A)
          → IsBalanced (suc n) c'
          → collect_from m cv_pass attempt left (suc n) c' ≡ ok d
          → IsComplete d)
      → go_on left n c (turn n) r ≡ ok d
      → IsComplete d
  unfolding go_on
  go_on-IsComplete left n c d (err x) s h k b next e = absurd (ground (arith, e))
  go_on-IsComplete left n c d (ok a) s h k b next e =
      let c' = append_run m cv_pass attempt c (turn n) a in
      elim (Bool-cases (returns_here m cv_pass attempt c')) [
        | inl t ↦
            let q : go_on left n c (turn n) (ok a) ≡ ok c' = rw (t, go_on) refl in
            subst IsComplete (ok_inj (sym q ∙ e)) (
              stop-IsComplete (suc n) c' (append-IsBalanced n c a h b) (omega arith) (omega arith)
                (returns-enough c' t))
        | inr t ↦
            let q : go_on left n c (turn n) (ok a)
                ≡ collect_from m cv_pass attempt left (suc n) c' =
              rw (t, go_on) refl in
            next c' (append-IsBalanced n c a h b) (sym q ∙ e)
      ]

  collect-IsComplete :
      (left n : ℕ) (c d : Collected A)
      → m.h4_runs ≤ max_per_side m
      → 1 ≤ n
      → left + n ≡ max_per_side m * 2 + 1
      → IsBalanced n c
      → collect_from m cv_pass attempt left n c ≡ ok d
      → IsComplete d
  collect-IsComplete zero n c d s h k b e =
      subst IsComplete (ok_inj (sym (collect-none n c) ∙ e))
        (stop-IsComplete n c b h (omega arith) (omega (arith, b.on_count)))
  collect-IsComplete (suc left) n c d s h k b e =
      go_on-IsComplete left n c d (attempt (turn n) n (run_index m cv_pass attempt c (turn n))) s h
        k b (λ c' b' e'. collect-IsComplete left (suc n) c' d s (omega arith) (omega arith) b' e')
        (sym (collect-go_on left n c (turn n) (pick-IsBalanced n c b h (omega arith))) ∙ e)

  -- When the greatest number of runs is at least the least one, what `RunOverhead` returns has at
  -- least `h4_runs` runs of each side and at most its maximum, and as many of the mirror off as of
  -- the mirror on, or one more.
  pub run_overhead-IsComplete :
      (d : Collected A)
      → m.h4_runs ≤ m.h4_max_runs
      → run_overhead m cv_pass attempt ≡ ok d
      → IsComplete d
  unfolding run_overhead
  run_overhead-IsComplete d s e =
      collect-IsComplete (max_per_side m * 2) 1 (record { off_runs = []; on_runs = [] }) d
        (ground arith) (omega arith) (omega arith)
        (record { off_count = omega arith; on_count = omega arith }) e

  go_on-ok :
      (left n : ℕ) (c : Collected A) (side : Side) (a : A)
      → ((c' : Collected A)
          → (d : Collected A) × (collect_from m cv_pass attempt left (suc n) c' ≡ ok d))
      → (d : Collected A) × (go_on left n c side (ok a) ≡ ok d)
  unfolding go_on append_run
  go_on-ok left n c side a next =
      let c' = append_run m cv_pass attempt c side a in
      elim (Bool-cases (returns_here m cv_pass attempt c')) [
        | inl t ↦ (c', rw (t, go_on) refl)
        | inr t ↦
            let (d, e) = next c' in
            let q : go_on left n c side (ok a) ≡ collect_from m cv_pass attempt left (suc n) c' =
              rw (t, go_on) refl in
            (d, q ∙ e)
      ]

  collect-ok :
      ((side : Side) (n i : ℕ) → (a : A) × (attempt side n i ≡ ok a))
      → (left n : ℕ) (c : Collected A)
      → (d : Collected A) × (collect_from m cv_pass attempt left n c ≡ ok d)
  unfolding collect_from
  collect-ok works zero n c = (c, collect-none n c)
  collect-ok works (suc left) n c =
      elim (Option-cases
        (pick_overhead_side n (length c.off_runs) (length c.on_runs) (max_per_side m))) [
          | inl p ↦ (c, rw (p, collect_from) refl)
          | inr (side, p) ↦
              let (a, w) = works side n (run_index m cv_pass attempt c side) in
              let (d, e) = go_on-ok left n c side a (λ c'. collect-ok works left (suc n) c') in
              (d, collect-go_on left n c side p ∙ ap (go_on left n c side) w ∙ e)
        ]

  run-ok :
      ((side : Side) (n i : ℕ) → (a : A) × (attempt side n i ≡ ok a))
      → (d : Collected A) × (run_overhead m cv_pass attempt ≡ ok d)
  unfolding run_overhead
  run-ok works = collect-ok works (max_per_side m * 2) 1 (record { off_runs = []; on_runs = [] })

  -- When every measurement succeeds and the greatest number of runs is at least the least one,
  -- `RunOverhead` returns results with at least `h4_runs` runs of each side and at most its
  -- maximum, and as many of the mirror off as of the mirror on, or one more.
  pub run_overhead-returns :
      ((side : Side) (n i : ℕ) → (a : A) × (attempt side n i ≡ ok a))
      → m.h4_runs ≤ m.h4_max_runs
      → (d : Collected A) × (run_overhead m cv_pass attempt ≡ ok d) × IsComplete d
  run_overhead-returns works s = let (d, e) = run-ok works in (d, e, run_overhead-IsComplete d s e)

-- ===== src/Loadgen/Steady.antt =====
-- What the phases of a load (benchmark/internal/loadgen/profile.go) have to do with its rate.
use itmo_master_research.Base.{
  ◌≡◌, refl, inl, inr, ℤ, pos, ◌==◌, true, false, ◌≤ℤ◌, add64, arith, Bool-cases,
}
use itmo_master_research.Base.Float.{Float64}
use itmo_master_research.Loadgen.{Profile, total_sec, in_steady, phase, target_rps}

-- What comparisons of a float64 with whole numbers do: a value below one of them does not reach a
-- greater one.
pub record ComparisonLaws {F : Type 0} (float : Float64 F) : Type 0 where
  pub below :
      (x : F) (a b : ℤ)
      → a ≤ℤ b
      → float.lt x (float.of_int a) ≡ true
      → float.le (float.of_int b) x ≡ false

module _ {F : Type 0} (float : Float64 F) where
  -- `InSteady` holds exactly when `Phase` says "steady".
  pub in_steady-phase :
      (p : Profile) (elapsed_sec : F)
      → in_steady float p elapsed_sec ≡ (phase float p elapsed_sec == "steady")
  unfolding in_steady phase
  in_steady-phase p x = elim (Bool-cases (float.lt x (float.of_int p.ramp_up_sec))) [
    | inl e ↦ rw e refl
    | inr e ↦ elim (Bool-cases (float.lt x (float.of_int (add64 p.ramp_up_sec p.steady_sec)))) [
      | inl s ↦ rw (e, s) refl
      | inr s ↦ rw (e, s) refl
    ]
  ]

  -- In the steady window of a load whose whole duration is no shorter than its ramp-up and steady
  -- phase, from time 0 on, the target rate is the full one; comparisons obey `ComparisonLaws`.
  pub in_steady-target_rps :
      ComparisonLaws float
      → (p : Profile) (elapsed_sec : F) → float.lt elapsed_sec (float.of_int (pos 0)) ≡ false
      → add64 p.ramp_up_sec p.steady_sec ≤ℤ total_sec p
      → in_steady float p elapsed_sec ≡ true
      → target_rps float p elapsed_sec ≡ p.max_rps
  unfolding in_steady target_rps
  in_steady-target_rps laws p x h le s =
      let steady_end = add64 p.ramp_up_sec p.steady_sec in
      elim (Bool-cases (float.lt x (float.of_int p.ramp_up_sec))) [
        | inl e ↦ absurd (ground (arith, e, s))
        | inr e ↦ elim (Bool-cases (float.lt x (float.of_int steady_end))) [
          | inl t ↦
              let past = laws.below x steady_end (total_sec p) le t in
              rw (h, past, e, t) (ground arith)
          | inr t ↦ absurd (ground (arith, e, t, s))
        ]
      ]

-- ===== src/Coordinator/Ramp/Ends.antt =====
-- The ramp of cmd/warmup-coordinator/main.go ends once its deadline has passed, whatever the other
-- goroutines make of the instance in the meantime.
use itmo_master_research.Base.{
  ℕ, zero, suc, ◌+◌, ◌*◌, ◌-◌, ◌≤◌, ℤ, ◌≤ℤ◌, ◌+ℤ◌, String, ◌≡◌, refl, sym, subst, ◌≢◌, [], ◌∷◌,
  length, arith,
}
use itmo_master_research.Base.Float.{Float64}
use itmo_master_research.Warmkit.Types.{MirrorConfig, InstanceRecord}
use itmo_master_research.Zk.{Zk, Codec}
use itmo_master_research.Coordinator.{Coordinator}
use itmo_master_research.Coordinator.Ramp.{
  Pc, beginning, ramping, polling, holding_on, waiting, finishing, marking, done, Ramp, step_at,
  launch, ramp_step, run_ramp,
}

-- How many steps are left where the deadline has passed.
module _ {F : Type 0} where
  abbrev pub base : ℕ → Pc F → ℕ
  base steps beginning = 6 + 2 * steps
  base steps (ramping rest) = 4 + 2 * length rest
  base steps (polling rest) = 5 + 2 * length rest
  base steps holding_on = 3
  base steps waiting = 4
  base steps finishing = 2
  base steps marking = 1
  base steps done = 0

-- The deadline is not after any time of the clock from step `t` on.
abbrev pub IsPast : ℤ → ℕ → (ℕ → ℤ) → Type 0
IsPast deadline t clock = (k : ℕ) → t ≤ k → deadline ≤ℤ clock k

module _ {S B F : Type 0} (zk : Zk S B) (float : Float64 F) (configs : Codec (MirrorConfig F) B)
    (records : Codec InstanceRecord B) where
  -- A step behind the first keeps the deadline and the steps, and comes nearer to the end; `slack`
  -- says whether the deadline is still to come.
  step-base :
      (slack : ℕ) (pc : Pc F) (c : Coordinator S F) (r : Ramp F) (now : ℤ)
      → pc ≢ beginning
      → (slack ≡ 0 → r.hold_deadline ≤ℤ now)
      → r.pc ≡ pc
      → let r' = (step_at zk float configs records pc c r now).1 in
        (r'.hold_deadline ≡ r.hold_deadline)
        × (r'.pc ≢ beginning)
        × (2 * (slack - 1) + base 0 r'.pc ≤ 2 * slack + base 0 pc - 1)
  unfolding step_at
  step-base slack beginning c r now h k e = absurd (h refl)
  step-base slack (ramping []) c r now h k e = ground arith
  step-base slack (ramping (ratio ∷ rest)) c r now h k e = ground arith
  step-base slack (polling rest) c r now h k e = ground arith
  step-base slack holding_on c r now h k e = ground arith
  step-base slack waiting c r now h k e = ground arith
  step-base slack finishing c r now h k e = ground arith
  step-base slack marking c r now h k e = ground arith
  step-base slack done c r now h k e = ground arith

  base-zero : (pc : Pc F) → base 0 pc ≡ 0 → pc ≡ done
  base-zero pc h = ground arith

  run-done :
      (n slack : ℕ) (clock : ℕ → ℤ) (c : Coordinator S F) (r : Ramp F)
      → r.pc ≢ beginning
      → IsPast r.hold_deadline slack clock
      → 2 * slack + base 0 r.pc ≤ n
      → (run_ramp zk float configs records n clock c r).1.pc ≡ done
  unfolding run_ramp
  run-done zero slack clock c r b p h = base-zero r.pc (omega arith)
  run-done (suc n) slack clock c r b p h =
      let c' = (ramp_step zk float configs records c r (clock 0)).0 in
      let r' = (ramp_step zk float configs records c r (clock 0)).1 in
      let (same, b', less) = step-base slack r.pc c r (clock 0) b (λ e. p 0 (omega arith)) refl in
      run-done n (slack - 1) (λ k. clock (suc k)) c' r' b'
        (λ k q. subst (λ x. x ≤ℤ clock (suc k)) (sym same) (p (suc k) (omega arith)))
        (omega (arith, less))

  -- Where the clock is past the deadline of the ramp from its reading `slack` on, a ramp that has
  -- been launched is over after two steps for each ratio, two for each of the `slack` readings and
  -- six more, whatever the records in ZooKeeper are.
  pub run_ramp-done :
      (n slack : ℕ) (clock : ℕ → ℤ) (c : Coordinator S F) (session_id target active : String)
      → IsPast (clock 0 +ℤ c.hold_max) slack clock
      → 2 * slack + 2 * length c.steps + 6 ≤ n
      → (run_ramp zk float configs records n clock c
          (launch zk float configs records session_id target active)).1.pc
        ≡ done
  unfolding run_ramp ramp_step launch
  run_ramp-done zero slack clock c session_id target active p h = absurd (omega arith)
  run_ramp-done (suc n) slack clock c session_id target active p h =
      run-done n slack (λ k. clock (suc k)) _ _ (λ e. cc) (λ k q. p (suc k) (omega arith))
        (omega arith)

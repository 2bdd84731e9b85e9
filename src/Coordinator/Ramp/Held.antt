-- ===== src/Coordinator/Ramp/Held.antt =====
-- When the ramp of cmd/warmup-coordinator/main.go can no longer undo a completion.
use itmo_master_research.Base.{
  ℕ, zero, suc, ℤ, String, ◌≡◌, ◌≢◌, refl, sym, ap, subst, ◌∙◌, ◌⊎◌, inl, inr, [], ◌∷◌, some,
}
use itmo_master_research.Base.Dict.{lookup}
use itmo_master_research.Base.Float.{Float64}
use itmo_master_research.Warmkit.Types.{MirrorConfig, InstanceRecord}
use itmo_master_research.Zk.{Zk, Codec}
use itmo_master_research.Coordinator.{Coordinator, Session, holding, complete_session}
use itmo_master_research.Coordinator.Sessions.{write-sessions}
use itmo_master_research.Coordinator.Ramp.{
  Pc, beginning, ramping, polling, holding_on, waiting, finishing, marking, done, Ramp, launch,
  step_at, ramp_step, run_ramp,
}

some-status : (s t : Session) → some s ≡ some t → s.status ≡ t.status
some-status s t h = cc h

module _ {S B F : Type 0} (zk : Zk S B) (float : Float64 F) (configs : Codec (MirrorConfig F) B)
    (records : Codec InstanceRecord B) where
  ramp_step-done :
      (c : Coordinator S F) (r : Ramp F) (now : ℤ)
      → r.pc ≡ done
      → ramp_step zk float configs records c r now ≡ (c, r)
  unfolding ramp_step step_at
  ramp_step-done c r now h = ap (λ pc. step_at zk float configs records pc c r now) h

  -- A goroutine that has returned does nothing.
  run_ramp-after_done :
      (n : ℕ) (clock : ℕ → ℤ) (c : Coordinator S F) (r : Ramp F)
      → r.pc ≡ done
      → run_ramp zk float configs records n clock c r ≡ (c, r)
  unfolding run_ramp
  run_ramp-after_done zero clock c r h = refl
  run_ramp-after_done (suc n) clock c r h =
      ap
        (λ (p : Coordinator S F × Ramp F).
          run_ramp zk float configs records n (λ k. clock (suc k)) p.0 p.1)
        (ramp_step-done c r (clock 0) h)
      ∙ run_ramp-after_done n (λ k. clock (suc k)) c r h

  -- Only the last step touches a session.
  step_at-touches :
      (pc : Pc F) (c : Coordinator S F) (r : Ramp F) (now : ℤ)
      → let (c', r') = step_at zk float configs records pc c r now in
        (r'.pc ≡ done) ⊎ (c'.sessions ≡ c.sessions)
  unfolding step_at
  step_at-touches (ramping []) c r now = inr refl
  step_at-touches (ramping (ratio ∷ rest)) c r now =
      inr (write-sessions zk float configs records c _ now)
  step_at-touches beginning c r now = inr (write-sessions zk float configs records c _ now)
  step_at-touches waiting c r now = inr (write-sessions zk float configs records c _ now)
  step_at-touches finishing c r now = inr (write-sessions zk float configs records c _ now)
  step_at-touches marking c r now = inl refl
  step_at-touches (polling rest) c r now = inr refl
  step_at-touches holding_on c r now = inr refl
  step_at-touches done c r now = inr refl

  run_ramp-touches :
      (n : ℕ) (clock : ℕ → ℤ) (c : Coordinator S F) (r : Ramp F)
      → let (c', r') = run_ramp zk float configs records n clock c r in
        (r'.pc ≡ done) ⊎ (c'.sessions ≡ c.sessions)
  unfolding run_ramp ramp_step
  run_ramp-touches zero clock c r = inr refl
  run_ramp-touches (suc n) clock c r =
      let next = step_at zk float configs records r.pc c r (clock 0) in
      let later : ℕ → ℤ = λ k. clock (suc k) in
      elim (step_at-touches r.pc c r (clock 0)) [
        | inl ended ↦ inl (
            ap (λ (p : Coordinator S F × Ramp F). p.1.pc)
              (run_ramp-after_done n later next.0 next.1 ended)
            ∙ ended)
        | inr kept ↦ elim (run_ramp-touches n later next.0 next.1) [
          | inl ended ↦ inl ended
          | inr same ↦ inr (same ∙ kept)
        ]
      ]

  -- Where a session that did not read `holding` when its ramp was launched reads `holding` after some
  -- steps of the ramp, the goroutine has returned: whatever the session's completion then makes of
  -- the coordinator and of ZooKeeper, no later step of the ramp changes.
  pub run_ramp-after_holding :
      (session_id target active : String) (n m : ℕ) (clock later : ℕ → ℤ) (now : ℤ)
      (c c' : Coordinator S F) (r' : Ramp F) (s s' : Session)
      → run_ramp zk float configs records n clock c
          (launch zk float configs records session_id target active)
        ≡ (c', r')
      → lookup session_id c.sessions ≡ some s
      → s.status ≢ holding
      → lookup session_id c'.sessions ≡ some s'
      → s'.status ≡ holding
      → let completed_now = (complete_session zk float configs records c' session_id now).0 in
        run_ramp zk float configs records m later completed_now r' ≡ (completed_now, r')
  run_ramp-after_holding session_id target active n m clock later now c c' r' s s' ran found fresh
        seen held =
      elim (subst (λ (p : Coordinator S F × Ramp F). (p.1.pc ≡ done) ⊎ (p.0.sessions ≡ c.sessions))
        ran
        (run_ramp-touches n clock c (launch zk float configs records session_id target active))) [
          | inl ended ↦ run_ramp-after_done m later _ r' ended
          | inr same ↦ absurd (
              fresh
                (sym (some-status s' s (sym seen ∙ ap (lookup session_id) same ∙ found)) ∙ held))
        ]

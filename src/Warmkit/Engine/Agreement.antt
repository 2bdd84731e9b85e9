-- ===== src/Warmkit/Engine/Agreement.antt =====
-- Between calls the registry shows the state of the engine (warmkit/engine.go), for a registry
-- whose calls succeed.
use itmo_master_research.Base.{
  ◌≡◌, refl, subst, ◌∙◌, ◌≢◌, sym, ap, Bool, true, false, List, [], ◌∷◌, Option, none, some, arith,
  ℤ, inl, inr, Bool-cases, Option-cases, ◌⊎◌, ◌≤ℤ◌, All, ◌==◌, not,
}
use itmo_master_research.Warmkit.Types.{State, registered, warming, ready, active, failed, Error}
use itmo_master_research.Warmkit.Fsm.{Fsm, transition}
use itmo_master_research.Warmkit.Registry.{Registry, RegistryLaws}
use itmo_master_research.Warmkit.Metrics.{record_latency}
use itmo_master_research.Warmkit.Engine.{
  Engine, Config, new_engine, advance, after_next, after_register, instance_record, start,
  reset_benchmark,
}
use itmo_master_research.Warmkit.Engine.Rules.{
  begin_warming_rule, after_next_rule, shadow_middleware_rule, timeout_rule,
  handle_mirror_config_rule,
}
use itmo_master_research.Warmkit.Engine.Calls.{
  Call, starts, configures, times_out, watch_fails, resets, serves, time_of, call, calls,
}

-- The states that a registered engine can be in.
abbrev pub is_lived : State → Bool
is_lived registered = true
is_lived warming = true
is_lived ready = true
is_lived active = true
is_lived failed = true
is_lived _ = false

-- A call that neither registers anew nor gives up watching.
abbrev pub IsRoutine : {F : Type 0} → Call F → Type 0
IsRoutine (starts now) = ⊥
IsRoutine watch_fails = ⊥
IsRoutine _ = Unit {0}

transition-warming : (f : Fsm) → f.state ≡ registered → (transition f warming).0.state ≡ warming
unfolding transition
transition-warming f h = ground arith

transition-ready : (f : Fsm) → f.state ≡ warming → (transition f ready).0.state ≡ ready
unfolding transition
transition-ready f h = ground arith

transition-active : (f : Fsm) → f.state ≡ ready → (transition f active).0.state ≡ active
unfolding transition
transition-active f h = ground arith

transition-failed :
    (f : Fsm) → is_lived f.state ≡ true → f.state ≢ active → (transition f failed).0.state ≡ failed
unfolding transition
transition-failed f h k = ground arith

module _ {R : Type 0} {registry : Registry R} (laws : RegistryLaws registry) where
  open laws use {stored, stored-register, stored-update}

  pub record Agrees (e : Engine R) : Type 0 where
    pub shown : stored e.reg e.cfg.service_name e.cfg.instance_id ≡ some e.fsm.state
    pub lived : is_lived e.fsm.state ≡ true

  advance-Agrees :
      (e : Engine R) (s : State)
      → Agrees e
      → is_lived s ≡ true
      → (transition e.fsm s).0.state ≡ s
      → Agrees (advance registry e s)
  unfolding advance
  advance-Agrees e s a l moved = record {
    shown =
        stored-update e.reg e.cfg.service_name e.cfg.instance_id s a.shown ∙ ap some (sym moved);
    lived = ap is_lived moved ∙ l;
  }

  same-Agrees :
      (e d : Engine R) → Agrees e → d.reg ≡ e.reg → d.cfg ≡ e.cfg → d.fsm ≡ e.fsm → Agrees d
  same-Agrees e d a r c f = record {
    shown =
        subst
          (λ (x : R × Config × Fsm). stored x.0 x.1.service_name x.1.instance_id ≡ some x.2.state)
          (λ i. (sym r i, sym c i, sym f i)) a.shown;
    lived = ap (λ (x : Fsm). is_lived x.state) f ∙ a.lived;
  }

  ready-Agrees :
      (e : Engine R)
      → Agrees e
      → e.cfg.ready_after ≤ℤ e.shadow.count
      → e.fsm.state ≡ warming
      → Agrees (advance registry e ready)
  ready-Agrees e a _ at = advance-Agrees e ready a refl (transition-ready e.fsm at)

  warm-Agrees :
      (e : Engine R) → Agrees e → e.fsm.state ≡ registered → Agrees (advance registry e warming)
  warm-Agrees e a at = advance-Agrees e warming a refl (transition-warming e.fsm at)

  reset_benchmark-Agrees : (e : Engine R) → Agrees e → Agrees (reset_benchmark registry e).0
  unfolding reset_benchmark
  reset_benchmark-Agrees e a = elim (Bool-cases (not (e.cfg.role == "warmup"))) [
    | inl other_role ↦ rw other_role a
    | inr warmup ↦ rw warmup (record {
      shown = stored-update e.reg e.cfg.service_name e.cfg.instance_id registered a.shown;
      lived = refl;
    })
  ]

  after_next-Agrees : (e : Engine R) (d : ℤ) → Agrees e → Agrees (after_next registry e d)
  after_next-Agrees e d a =
      let recorded = record e { shadow = (record_latency e.shadow d).0 } in
      let b = same-Agrees e recorded a refl refl refl in
      after_next_rule registry Agrees e d (b, ready-Agrees recorded b)

  registered-Agrees :
      (cfg : Config) (reg reg' : R)
      → stored reg' cfg.service_name cfg.instance_id ≡ some registered
      → Agrees
          (after_register registry (record (new_engine registry cfg reg) { reg = reg' }) none).0
  unfolding after_register new_engine
  registered-Agrees cfg reg reg' h = record {
    shown = stored-update reg' cfg.service_name cfg.instance_id registered h;
    lived = refl;
  }

  start-warmup :
      (e : Engine R) (now : ℤ)
      → (e.cfg.role == "warmup") ≡ true
      → start registry e now ≡ (
          let (reg, err) =
            registry.register_instance e.reg e.cfg.service_name e.cfg.instance_id
              (instance_record registry e now) in
          after_register registry (record e { reg = reg }) err)
  unfolding start
  start-warmup e now w = rw w refl

  pub start-Agrees :
      (cfg : Config) (reg : R) (now : ℤ)
      → (cfg.role == "warmup") ≡ true
      → (start registry (new_engine registry cfg reg) now).1 ≡ none
      → Agrees (start registry (new_engine registry cfg reg) now).0
  unfolding new_engine after_register instance_record
  start-Agrees cfg reg now w ok = by_result (Option-cases result.1)
    where
      fresh : Engine R
      fresh = new_engine registry cfg reg

      result : R × Option Error
      result =
          registry.register_instance reg cfg.service_name cfg.instance_id
            (instance_record registry fresh now)

      started :
          (o : Option Error)
          → result.1 ≡ o
          → start registry fresh now ≡ after_register registry (record fresh { reg = result.0 }) o
      started o e =
          start-warmup fresh now w
          ∙ ap (after_register registry (record fresh { reg = result.0 })) e

      by_result :
          (result.1 ≡ none) ⊎ ((x : Error) × (result.1 ≡ some x))
          → Agrees (start registry fresh now).0
      by_result (inl done) =
          subst (λ (p : Engine R × Option Error). Agrees p.0) (sym (started none done))
            (registered-Agrees cfg reg result.0 (
              stored-register reg cfg.service_name cfg.instance_id
                (instance_record registry fresh now) done))
      by_result (inr (x, down)) =
          cc (ok, ap (λ (p : Engine R × Option Error). p.1) (started (some x) down))

  module _ {F : Type 0} (positive : F → Bool) where
    pub call-Agrees :
        (e : Engine R) (c : Call F) → IsRoutine c → Agrees e → Agrees (call registry positive e c)
    unfolding call
    call-Agrees e (starts now) q a = absurd q
    call-Agrees e (configures cfg) q a =
        handle_mirror_config_rule registry Agrees positive cfg e a warm-Agrees
          (λ d b at. advance-Agrees d active b refl (transition-active d.fsm at)) ready-Agrees
    call-Agrees e times_out q a = timeout_rule registry Agrees e a λ r n.
        let down = advance-Agrees e failed a refl (transition-failed e.fsm a.lived n) in
        same-Agrees (advance registry e failed) _ down refl refl refl
    call-Agrees e watch_fails q a = absurd q
    call-Agrees e resets q a = reset_benchmark-Agrees e a
    call-Agrees e (serves r run) q a =
        shadow_middleware_rule registry Agrees Agrees _ e tt r (time_of run) a
          (begin_warming_rule registry Agrees e a (warm-Agrees e a)) (λ _ b. b) (λ _ b. b)
          (λ x b. after_next-Agrees x (time_of run) b)

    calls-Agrees :
        (e : Engine R) (cs : List (Call F))
        → All IsRoutine cs
        → Agrees e
        → Agrees (calls registry positive e cs)
    unfolding calls
    calls-Agrees e [] q a = a
    calls-Agrees e (c ∷ cs) q a =
        calls-Agrees (call registry positive e c) cs q.1 (call-Agrees e c q.0 a)

    -- Once a new engine of role warmup has started without an error, on a registry that obeys
    -- `RegistryLaws`, its record in the registry shows the state of the engine after any history of
    -- configurations, requests, resets and the timer in which every call runs to its end before
    -- the next one begins. Calls that overlap are not in such a history.
    pub calls-shown :
        (cfg : Config) (reg : R) (now : ℤ) (cs : List (Call F))
        → (cfg.role == "warmup") ≡ true
        → (start registry (new_engine registry cfg reg) now).1 ≡ none
        → All IsRoutine cs
        → let e = calls registry positive (start registry (new_engine registry cfg reg) now).0 cs in
          stored e.reg e.cfg.service_name e.cfg.instance_id ≡ some e.fsm.state
    calls-shown cfg reg now cs w ok q =
        (calls-Agrees (start registry (new_engine registry cfg reg) now).0 cs q
          (start-Agrees cfg reg now w ok)).shown

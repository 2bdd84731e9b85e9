-- ===== src/Warmkit/Engine/Closed.antt =====
-- What no routine call of the engine (warmkit/engine.go) breaks: a property that the life cycle and
-- the metrics do not matter to, and that an update of the registry keeps.
use itmo_master_research.Base.{
  ◌≡◌, refl, Option, none, some, Option-cases, true, ℤ, Bool, Bool-cases, inl, inr, not, ◌==◌,
}
use itmo_master_research.Warmkit.Types.{State, registered, warming, ready, active, failed, Error}
use itmo_master_research.Warmkit.Fsm.{Fsm, transition}
use itmo_master_research.Warmkit.Metrics.{ShadowMetrics, record_latency}
use itmo_master_research.Warmkit.Registry.{Registry}
use itmo_master_research.Warmkit.Engine.{
  Engine, update_state, advance, after_next, reset_benchmark, start, after_register,
  instance_record,
}
use itmo_master_research.Warmkit.Engine.Rules.{
  begin_warming_rule, after_next_rule, shadow_middleware_rule, timeout_rule,
  handle_mirror_config_rule,
}
use itmo_master_research.Warmkit.Engine.Calls.{
  Call, starts, configures, times_out, watch_fails, resets, serves, time_of, call,
}
use itmo_master_research.Warmkit.Engine.Agreement.{IsRoutine}

module _ {R : Type 0} (registry : Registry R) (P : Engine R → Type 0)
    (free : (e : Engine R) (f : Fsm) (m : ShadowMetrics) (w : Bool)
      → P e
      → P (record e { fsm = f; shadow = m; watching = w }))
    (updates : (e : Engine R) (s : State) → P e → P (update_state registry e s)) where
  advance_closed : (e : Engine R) (s : State) → P e → P (advance registry e s)
  unfolding advance
  advance_closed e s p = updates _ s (free e (transition e.fsm s).0 e.shadow e.watching p)

  reset_closed : (e : Engine R) → P e → P (reset_benchmark registry e).0
  unfolding reset_benchmark update_state
  reset_closed e p = elim (Bool-cases (not (e.cfg.role == "warmup"))) [
    | inl other_role ↦ rw other_role p
    | inr warmup ↦ rw warmup (updates _ registered (free e _ _ e.watching p))
  ]

  after_next_closed : (e : Engine R) (d : ℤ) → P e → P (after_next registry e d)
  after_next_closed e d p =
      let recorded = record e { shadow = (record_latency e.shadow d).0 } in
      let q = free e e.fsm (record_latency e.shadow d).0 e.watching p in
      after_next_rule registry P e d (q, λ _ _. advance_closed recorded ready q)

  after_register_closed :
      (e : Engine R) (err : Option Error) → P e → P (after_register registry e err).0
  unfolding after_register update_state
  after_register_closed e (some x) p = p
  after_register_closed e none p =
      let (f, err) = transition e.fsm registered in
      let q = free e f e.shadow e.watching p in
      elim (Option-cases (transition e.fsm registered).1) [
        | inr (x, wrong) ↦ rw (wrong, after_register) q
        | inl moved ↦
            rw (moved, after_register)
              (free (update_state registry (record e { fsm = f }) registered) f e.shadow true
                (updates (record e { fsm = f }) registered q))
      ]

  -- `Start`, where the registration keeps the property.
  pub start_closed :
      (e : Engine R) (now : ℤ)
      → P e
      → P (record e {
        reg =
            (registry.register_instance e.reg e.cfg.service_name e.cfg.instance_id
              (instance_record registry e now)).0;
      })
      → P (start registry e now).0
  unfolding start
  start_closed e now p q = elim (Bool-cases (not (e.cfg.role == "warmup"))) [
    | inl other_role ↦ rw other_role (free e (transition e.fsm active).0 e.shadow e.watching p)
    | inr warmup ↦ rw warmup (after_register_closed _ _ q)
  ]

  module _ {F : Type 0} (positive : F → Bool) where
    pub call_closed :
        (e : Engine R) (c : Call F) → IsRoutine c → P e → P (call registry positive e c)
    unfolding call
    call_closed e (starts now) q p = absurd q
    call_closed e (configures cfg) q p =
        handle_mirror_config_rule registry P positive cfg e p (λ d r _. advance_closed d warming r)
          (λ d r _. advance_closed d active r) (λ d r _ _. advance_closed d ready r)
    call_closed e times_out q p =
        timeout_rule registry P e p
          λ _ _. free (advance registry e failed) _ _ _ (advance_closed e failed p)
    call_closed e watch_fails q p = absurd q
    call_closed e resets q p = reset_closed e p
    call_closed e (serves r run) q p =
        shadow_middleware_rule registry P P _ e tt r (time_of run) p
          (begin_warming_rule registry P e p (λ _. advance_closed e warming p)) (λ _ x. x)
          (λ _ x. x) (λ x y. after_next_closed x (time_of run) y)

module _ {R : Type 0} (registry : Registry R) where
  -- No call changes the configuration of an engine.
  pub call-cfg :
      {F : Type 0} (positive : F → Bool) (e : Engine R) (c : Call F)
      → IsRoutine c
      → (call registry positive e c).cfg ≡ e.cfg
  unfolding update_state
  call-cfg positive e c q =
      call_closed registry (λ d. d.cfg ≡ e.cfg) (λ d f m w p. p) (λ d s p. p) positive e c q refl

  pub start-cfg : (e : Engine R) (now : ℤ) → (start registry e now).0.cfg ≡ e.cfg
  unfolding update_state
  start-cfg e now =
      start_closed registry (λ d. d.cfg ≡ e.cfg) (λ d f m w p. p) (λ d s p. p) e now refl refl

-- ===== src/Warmkit/Engine/Rules.antt =====
-- How to reason about the engine (warmkit/engine.go): a method is a chain of guarded `advance`
-- calls, and each rule hands on what its guard has found.
use itmo_master_research.Base.{
  ℤ, ◌≤ℤ◌, leb_ℤ, ◌≡◌, ap, refl, inl, inr, eq_iff, ◌==◌, Bool, true, false, ◌&&◌, not, arith,
  Bool-cases, Option, Option-cases, and_true, leb_ℤ→≤ℤ, ◌≢◌, eq_refl,
}
use itmo_master_research.Warmkit.Types.{
  State, registered, warming, ready, active, failed, other, state_eq, MirrorConfig,
}
use itmo_master_research.Warmkit.Metrics.{record_latency}
use itmo_master_research.Warmkit.Registry.{Registry}
use itmo_master_research.Warmkit.Engine.{
  Engine, Request, Response, is_shadow_request, after_next, shadow_middleware, advance, check_ready,
  begin_warming, warm_on_mirror, promote_on_mirror, handle_mirror_config, timeout,
}

pub state_eq-eq : (s t : State) → state_eq s t ≡ true → s ≡ t
unfolding state_eq
state_eq-eq (other a) (other b) h = ap other ((eq_iff a b).0 h)
state_eq-eq _ _ h = ground arith

state_eq_refl : (s : State) → state_eq s s ≡ true
unfolding state_eq
state_eq_refl (other a) = eq_refl a
state_eq_refl _ = refl

not-state_eq : (s t : State) → not (state_eq s t) ≡ true → s ≢ t
not-state_eq s t h e = ground (arith, state_eq_refl t)

module _ {R : Type 0} (registry : Registry R) (P : Engine R → Type 0) where
  -- The premises of `check_ready`.
  abbrev pub Readies : Engine R → Type 0
  Readies e =
      e.cfg.ready_after ≤ℤ e.shadow.count → e.fsm.state ≡ warming → P (advance registry e ready)

  pub check_ready_rule : (e : Engine R) → P e → Readies e → P (check_ready registry e)
  unfolding check_ready
  check_ready_rule e p step =
      elim (Bool-cases (leb_ℤ e.cfg.ready_after e.shadow.count && state_eq e.fsm.state warming)) [
        | inl hit ↦
            let (enough, warm) =
              and_true (leb_ℤ e.cfg.ready_after e.shadow.count) (state_eq e.fsm.state warming)
                hit in
            rw hit (
              step (leb_ℤ→≤ℤ e.cfg.ready_after e.shadow.count enough)
                (state_eq-eq e.fsm.state warming warm))
        | inr miss ↦ rw miss p
      ]

  pub begin_warming_rule :
      (e : Engine R)
      → P e
      → (e.fsm.state ≡ registered → P (advance registry e warming))
      → P (begin_warming registry e)
  unfolding begin_warming
  begin_warming_rule e p step = elim (Bool-cases (state_eq e.fsm.state registered)) [
    | inl hit ↦ rw hit (step (state_eq-eq e.fsm.state registered hit))
    | inr miss ↦ rw miss p
  ]

  pub timeout_rule :
      (e : Engine R)
      → P e
      → (e.fsm.state ≢ ready
          → e.fsm.state ≢ active
          → P (record (advance registry e failed) { watching = false }))
      → P (timeout registry e)
  unfolding timeout
  timeout_rule e p step =
      elim (Bool-cases (not (state_eq e.fsm.state ready) && not (state_eq e.fsm.state active))) [
        | inl hit ↦
            let (r, a) =
              and_true (not (state_eq e.fsm.state ready)) (not (state_eq e.fsm.state active)) hit in
            rw hit (step (not-state_eq e.fsm.state ready r) (not-state_eq e.fsm.state active a))
        | inr miss ↦ rw miss p
      ]

  -- The rest of the server keeps `P`; the request as a whole ends in `Q`, which follows from `P`
  -- and holds too once a shadow request has been counted.
  pub shadow_middleware_rule :
      {W : Type 0} (Q : Engine R → Type 0) (next : Engine R → W → Engine R × W × Option Response)
      (e : Engine R) (w : W) (r : Request) (d : ℤ)
      → P e
      → P (begin_warming registry e)
      → ((x : Engine R) → P x → P (next x w).0)
      → ((x : Engine R) → P x → Q x)
      → ((x : Engine R) → P x → Q (after_next registry x d))
      → Q (shadow_middleware registry next e w r d).0
  unfolding shadow_middleware
  shadow_middleware_rule Q next e w r d p begun keeps ends counts =
      elim (Bool-cases (not (is_shadow_request r))) [
        | inl plain ↦ rw plain (ends (next e w).0 (keeps e p))
        | inr shadow ↦ rw shadow (elim (Bool-cases (not (r.method == "GET"))) [
          | inl other_method ↦ rw other_method (ends e p)
          | inr get ↦
              let q = keeps (begin_warming registry e) begun in
              rw get (elim (Option-cases (next (begin_warming registry e) w).2) [
                | inl panicked ↦ rw panicked (ends (next (begin_warming registry e) w).0 q)
                | inr (a, fine) ↦ rw fine (counts (next (begin_warming registry e) w).0 q)
              ])
        ])
      ]

  pub after_next_rule :
      (e : Engine R) (d : ℤ)
      → (let recorded = record e { shadow = (record_latency e.shadow d).0 } in
          P recorded × Readies recorded)
      → P (after_next registry e d)
  unfolding after_next
  after_next_rule e d (p, step) = elim (Bool-cases (record_latency e.shadow d).1) [
    | inl panicked ↦ rw panicked p
    | inr fine ↦
        rw fine (check_ready_rule (record e { shadow = (record_latency e.shadow d).0 }) p step)
  ]

  module _ {F : Type 0} (positive : F → Bool) (cfg : MirrorConfig F) where
    warm_on_mirror_rule :
        (e : Engine R)
        → P e
        → (e.fsm.state ≡ registered → P (advance registry e warming))
        → P (warm_on_mirror registry positive e cfg)
    unfolding warm_on_mirror
    warm_on_mirror_rule e p step =
        elim (Bool-cases
          ((cfg.target_instance_id == e.cfg.instance_id) && cfg.enabled && positive cfg.ratio)) [
            | inl hit ↦ rw hit (begin_warming_rule e p step)
            | inr miss ↦ rw miss p
          ]

    promote_on_mirror_rule :
        (e : Engine R)
        → P e
        → (e.fsm.state ≡ ready → P (advance registry e active))
        → P (promote_on_mirror registry e cfg)
    unfolding promote_on_mirror
    promote_on_mirror_rule e p step =
        elim (Bool-cases
          ((cfg.active_instance_id == e.cfg.instance_id) && state_eq e.fsm.state ready)) [
            | inl hit ↦
                let (_, is_ready) =
                  and_true (cfg.active_instance_id == e.cfg.instance_id)
                    (state_eq e.fsm.state ready) hit in
                rw hit (step (state_eq-eq e.fsm.state ready is_ready))
            | inr miss ↦ rw miss p
          ]

    -- Every state between the guarded moves has to satisfy `P`.
    pub handle_mirror_config_rule :
        (e : Engine R)
        → P e
        → ((d : Engine R) → P d → d.fsm.state ≡ registered → P (advance registry d warming))
        → ((d : Engine R) → P d → d.fsm.state ≡ ready → P (advance registry d active))
        → ((d : Engine R) → P d → Readies d)
        → P (handle_mirror_config registry positive e cfg)
    unfolding handle_mirror_config
    handle_mirror_config_rule e p warm promote finish =
        let one = warm_on_mirror registry positive e cfg in
        let two = promote_on_mirror registry one cfg in
        let p1 : P one = warm_on_mirror_rule e p (warm e p) in
        let p2 : P two = promote_on_mirror_rule one p1 (promote one p1) in
        check_ready_rule two p2 (finish two p2)

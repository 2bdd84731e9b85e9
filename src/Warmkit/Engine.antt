-- ===== src/Warmkit/Engine.antt =====
-- warmkit/engine.go. The engine is a record, each method the whole method as a function; a call
-- is one atomic step here, and `Engine.Race` splits the calls where another goroutine can come in.
pub mod Rules
pub mod Calls
pub mod Agreement
pub mod Closed
pub mod Promotes
pub mod Warmup
pub mod Race
pub mod Stop
use itmo_master_research.Base.{
  ℕ, ℤ, pos, leb_ℤ, String, ◌==◌, Bool, true, false, not, ◌&&◌, ◌||◌, Option, none, some,
  if◌then◌else◌,
}
use itmo_master_research.Warmkit.Types.{
  State, starting, registered, warming, ready, active, failed, state_eq, InstanceRecord,
  MirrorConfig, MetricsSnapshot, Error, external,
}
use itmo_master_research.Warmkit.Fsm.{Fsm, new_fsm, transition, force}
use itmo_master_research.Warmkit.Metrics.{ShadowMetrics, new_shadow_metrics, record_latency, p95_ns}
use itmo_master_research.Warmkit.Registry.{Registry}

pub record Config : Type 0 where
  pub service_name : String
  pub instance_id : String
  pub listen_addr : String
  pub role : String
  pub ready_after : ℤ
  pub warmup_timeout : ℤ
  pub shadow_metrics_keep : ℤ

-- `watching` says that `Start` has launched the watch goroutine; `R` is the state of the registry.
pub record Engine (R : Type 0) : Type 0 where
  pub cfg : Config
  pub reg : R
  pub fsm : Fsm
  pub shadow : ShadowMetrics
  pub watching : Bool

-- An HTTP answer: the status and the body.
pub record Response : Type 0 where
  pub status : ℕ
  pub body : String

-- What the middleware reads of a request.
pub record Request : Type 0 where
  pub method : String
  pub shadow_header : String

unfoldable pub is_shadow_request : Request → Bool
is_shadow_request r = r.shadow_header == "1"

module _ {R : Type 0} (registry : Registry R) where
  unfoldable pub new_engine : Config → R → Engine R
  unfolding new_fsm new_shadow_metrics
  new_engine cfg reg = record {
    cfg = cfg;
    reg = reg;
    fsm = new_fsm;
    shadow = new_shadow_metrics cfg.shadow_metrics_keep;
    watching = false;
  }

  -- `_ = e.reg.UpdateInstanceState(…, s)`
  unfoldable pub update_state : Engine R → State → Engine R
  update_state e s = record e {
    reg = (registry.update_instance_state e.reg e.cfg.service_name e.cfg.instance_id s).0;
  }

  -- `_ = e.fsm.Transition(s)` and then the update of the registry.
  unfoldable pub advance : Engine R → State → Engine R
  unfolding transition update_state
  advance e s = update_state (record e { fsm = (transition e.fsm s).0 }) s

  -- The check that ends both `handleMirrorConfig` and the shadow path of the middleware.
  unfoldable pub check_ready : Engine R → Engine R
  unfolding advance state_eq
  check_ready e =
      if leb_ℤ e.cfg.ready_after e.shadow.count && state_eq e.fsm.state warming
      then advance e ready
      else e

  unfoldable pub instance_record : Engine R → ℤ → InstanceRecord
  instance_record e now = record {
    addr = e.cfg.listen_addr;
    state = registered;
    role = e.cfg.role;
    started_at = now;
  }

  -- What `Start` does once the instance is in the registry.
  unfoldable pub after_register : Engine R → Option Error → Engine R × Option Error
  unfolding transition update_state
  after_register e (some err) = (e, some err)
  after_register e none =
      let (fsm, err) = transition e.fsm registered in
      let moved = record e { fsm = fsm } in
      elim err [
        | none ↦ (record (update_state moved registered) { watching = true }, none)
        | some x ↦ (moved, some x)
      ]

  unfoldable pub start : Engine R → ℤ → Engine R × Option Error
  unfolding transition instance_record after_register
  start e now =
      if not (e.cfg.role == "warmup")
      then (record e { fsm = (transition e.fsm active).0 }, none)
      else (let (reg, err) =
            registry.register_instance e.reg e.cfg.service_name e.cfg.instance_id
              (instance_record e now) in
          after_register (record e { reg = reg }) err)

  -- The first lines of `runMirrorWatch`: the registry could not watch.
  unfoldable pub watch_failed : Engine R → Engine R
  unfolding transition
  watch_failed e = record e { fsm = (transition e.fsm failed).0; watching = false }

  -- `if e.fsm.State() == StateRegistered { … }`, of the middleware and of `handleMirrorConfig`.
  unfoldable pub begin_warming : Engine R → Engine R
  unfolding advance state_eq
  begin_warming e = if state_eq e.fsm.state registered then advance e warming else e

  module _ {F : Type 0} where
    -- The first `if`; `positive` is `cfg.Ratio > 0`.
    pub warm_on_mirror : (F → Bool) → Engine R → MirrorConfig F → Engine R
    unfolding begin_warming
    warm_on_mirror positive e cfg =
        if (cfg.target_instance_id == e.cfg.instance_id) && cfg.enabled && positive cfg.ratio
        then begin_warming e
        else e

    -- The second `if`.
    pub promote_on_mirror : Engine R → MirrorConfig F → Engine R
    unfolding advance state_eq
    promote_on_mirror e cfg =
        if (cfg.active_instance_id == e.cfg.instance_id) && state_eq e.fsm.state ready
        then advance e active
        else e

    unfoldable pub handle_mirror_config : (F → Bool) → Engine R → MirrorConfig F → Engine R
    unfolding warm_on_mirror promote_on_mirror check_ready
    handle_mirror_config positive e cfg =
        check_ready (promote_on_mirror (warm_on_mirror positive e cfg) cfg)

  -- The timer of `runMirrorWatch` fires; the loop returns only where the warmup has failed.
  unfoldable pub timeout : Engine R → Engine R
  unfolding advance state_eq
  timeout e =
      if not (state_eq e.fsm.state ready) && not (state_eq e.fsm.state active)
      then record (advance e failed) { watching = false }
      else e

  unfoldable pub reset_benchmark : Engine R → Engine R × Option Error
  unfolding force new_shadow_metrics
  reset_benchmark e =
      if not (e.cfg.role == "warmup")
      then (e, none)
      else (let cold = record e {
        shadow = new_shadow_metrics e.cfg.shadow_metrics_keep;
        fsm = force e.fsm registered;
      } in
          let (reg, err) =
            registry.update_instance_state e.reg e.cfg.service_name e.cfg.instance_id registered in
          (record cold { reg = reg }, err))

  body_of : State → String
  body_of State.starting = "Starting"
  body_of State.registered = "Registered"
  body_of State.warming = "Warming"
  body_of State.ready = "Ready"
  body_of State.active = "Active"
  body_of State.failed = "Failed"
  body_of (State.other s) = s

  unfoldable pub readiness : Engine R → Response
  unfolding state_eq body_of
  readiness e =
      if state_eq e.fsm.state ready || state_eq e.fsm.state active
      then record { status = 200; body = "ready" }
      else record { status = 503; body = body_of e.fsm.state }

  unfoldable pub snapshot : (ℕ → ℤ) → Engine R → Option MetricsSnapshot
  unfolding p95_ns
  snapshot scale e = elim (p95_ns scale e.shadow) [
    | none ↦ none
    | some p95 ↦ some (record {
      state = e.fsm.state;
      shadow_count = e.shadow.count;
      shadow_latency_p95 = p95;
      ready_after = e.cfg.ready_after;
    })
  ]

  -- The shadow path behind its method test: `next` ran for `d` nanoseconds. A panic in `Record`
  -- ends the request there.
  unfoldable pub after_next : Engine R → ℤ → Engine R
  unfolding record_latency check_ready
  after_next e d =
      let (shadow, panicked) = record_latency e.shadow d in
      let recorded = record e { shadow = shadow } in
      if panicked then recorded else check_ready recorded

  -- `next` is the rest of the server, `W`, which may call the engine too. None is the answer of a
  -- request that a panic ends, of `next` or of `Record`: net/http drops the connection.
  unfoldable pub shadow_middleware :
      {W : Type 0}
      → (Engine R → W → Engine R × W × Option Response)
      → Engine R
      → W
      → Request
      → ℤ
      → Engine R × W × Option Response
  unfolding is_shadow_request begin_warming after_next record_latency
  shadow_middleware next e w r d =
      if not (is_shadow_request r)
      then next e w
      else if not (r.method == "GET")
      then (e, w, some (record { status = 403; body = "shadow mutations forbidden\n" }))
      else (let (e', w', answer) = next (begin_warming e) w in
          elim answer [
            | none ↦ (e', w', none)
            | some a ↦
                (after_next e' d, w', if (record_latency e'.shadow d).1 then none else some a)
          ])

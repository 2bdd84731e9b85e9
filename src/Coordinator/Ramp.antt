-- ===== src/Coordinator/Ramp.antt =====
-- `runRamp` of cmd/warmup-coordinator/main.go: a goroutine that the handlers interleave with. One
-- step is one access to ZooKeeper or to the sessions, with the sleep behind it. Its context is
-- never cancelled.
pub mod Ends
pub mod Config
pub mod Frames
pub mod Held
use itmo_master_research.Base.{
  ℕ, zero, suc, ℤ, pos, String, Bool, true, false, not, ◌&&◌, ltb_ℤ, ◌+ℤ◌, List, [], ◌∷◌, Option,
  none, some, if◌then◌else◌,
}
use itmo_master_research.Base.Dict.{lookup, insert}
use itmo_master_research.Base.Float.{Float64}
use itmo_master_research.Warmkit.Types.{MirrorConfig, InstanceRecord}
use itmo_master_research.Zk.{Zk, Codec}
use itmo_master_research.Coordinator.{
  Coordinator, Session, holding, write, instance_ready, zero_ratio,
}

-- Where the goroutine stands; a list holds the ratios that are left.
pub data Pc (F : Type 0) : Type 0 where
  beginning : Pc F
  ramping : List F → Pc F
  polling : List F → Pc F
  holding_on : Pc F
  waiting : Pc F
  finishing : Pc F
  marking : Pc F
  done : Pc F

pub record Ramp (F : Type 0) : Type 0 where
  pub pc : Pc F
  pub cfg : MirrorConfig F
  pub session_id : String
  pub target : String
  pub hold_deadline : ℤ

module _ {S B F : Type 0} (zk : Zk S B) (float : Float64 F) (configs : Codec (MirrorConfig F) B)
    (records : Codec InstanceRecord B) where
  -- `go c.runRamp(context.Background(), id, …)`
  unfoldable pub launch : String → String → String → Ramp F
  launch session_id target active = record {
    pc = beginning;
    cfg = record {
      enabled = true;
      ratio = zero_ratio zk float configs records;
      target_instance_id = target;
      active_instance_id = active;
      session_id = session_id;
      updated_at = pos 0;
    };
    session_id = session_id;
    target = target;
    hold_deadline = pos 0;
  }

  abbrev pub one_ratio : F
  one_ratio = float.of_int (pos 1)

  -- `cfg.Ratio = 1.0` and `cfg.Enabled = true`, behind the loop over the steps.
  full : Ramp F → Ramp F
  full r = record r { pc = holding_on; cfg = record r.cfg { ratio = one_ratio; enabled = true } }

  pub mark_found : Coordinator S F → String → Option Session → Coordinator S F
  mark_found c id none = c
  mark_found c id (some s) = record c {
    sessions = insert id (record s { status = holding }) c.sessions;
  }

  -- `now` is the time of the step.
  pub step_at : Pc F → Coordinator S F → Ramp F → ℤ → Coordinator S F × Ramp F
  unfolding full mark_found
  step_at beginning c r now = (
    (write zk float configs records c r.cfg now).0,
    record r { pc = ramping c.steps; hold_deadline = now +ℤ c.hold_max },
  )
  step_at (ramping []) c r now = (c, full r)
  step_at (ramping (ratio ∷ rest)) c r now =
      let cfg = record r.cfg { ratio = ratio } in
      ((write zk float configs records c cfg now).0, record r { cfg = cfg; pc = polling rest })
  step_at (polling rest) c r now = (
    c,
    (if instance_ready zk float configs records c r.target
        then full r
        else record r { pc = ramping rest }),
  )
  step_at holding_on c r now = (
    c,
    (if not (instance_ready zk float configs records c r.target) && ltb_ℤ now r.hold_deadline
        then record r { pc = waiting }
        else record r { pc = finishing }),
  )
  step_at waiting c r now =
      ((write zk float configs records c r.cfg now).0, record r { pc = holding_on })
  step_at finishing c r now =
      ((write zk float configs records c r.cfg now).0, record r { pc = marking })
  step_at marking c r now =
      (mark_found c r.session_id (lookup r.session_id c.sessions), record r { pc = done })
  step_at done c r now = (c, r)

  unfoldable pub ramp_step : Coordinator S F → Ramp F → ℤ → Coordinator S F × Ramp F
  unfolding step_at
  ramp_step c r now = step_at r.pc c r now

  -- So many steps with nothing in between; `clock` gives the time of each.
  unfoldable pub run_ramp : ℕ → (ℕ → ℤ) → Coordinator S F → Ramp F → Coordinator S F × Ramp F
  unfolding ramp_step
  run_ramp zero clock c r = (c, r)
  run_ramp (suc n) clock c r =
      let (c', r') = ramp_step c r (clock 0) in run_ramp n (λ k. clock (suc k)) c' r'

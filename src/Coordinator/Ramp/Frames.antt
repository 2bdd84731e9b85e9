-- ===== src/Coordinator/Ramp/Frames.antt =====
-- `runRamp` of cmd/warmup-coordinator/main.go leaves the nodes of the instances as they are.
use itmo_master_research.Base.{ℤ, String, refl, [], ◌∷◌, Option, none, some}
use itmo_master_research.Base.Float.{Float64}
use itmo_master_research.Warmkit.Types.{MirrorConfig, InstanceRecord}
use itmo_master_research.Coordinator.{Coordinator, Session}
use itmo_master_research.Coordinator.Frames.{IsBeside, IsBeside-refl, write-IsBeside}
use itmo_master_research.Coordinator.Ramp.{
  Ramp, Pc, beginning, ramping, polling, holding_on, waiting, finishing, marking, done, step_at,
  ramp_step, mark_found,
}
use itmo_master_research.Zk.{Zk, Codec, ZkFrames}

module _ {S B F : Type 0} {zk : Zk S B} (float : Float64 F) (configs : Codec (MirrorConfig F) B)
    (records : Codec InstanceRecord B) (frames : ZkFrames zk) (z : String) where
  mark-IsBeside :
      (c : Coordinator S F) (id : String) (o : Option Session)
      → IsBeside float configs records frames z c (mark_found zk float configs records c id o)
  unfolding mark_found
  mark-IsBeside c id none = IsBeside-refl float configs records frames z c
  mark-IsBeside c id (some s) = record { node = refl; name = refl }

  step_at-IsBeside :
      (pc : Pc F) (c : Coordinator S F) (r : Ramp F) (now : ℤ)
      → IsBeside float configs records frames z c (step_at zk float configs records pc c r now).0
  unfolding step_at
  step_at-IsBeside beginning c r now = write-IsBeside float configs records frames z c _ now
  step_at-IsBeside (ramping []) c r now = IsBeside-refl float configs records frames z c
  step_at-IsBeside (ramping (ratio ∷ rest)) c r now =
      write-IsBeside float configs records frames z c _ now
  step_at-IsBeside (polling rest) c r now = IsBeside-refl float configs records frames z c
  step_at-IsBeside holding_on c r now = IsBeside-refl float configs records frames z c
  step_at-IsBeside waiting c r now = write-IsBeside float configs records frames z c _ now
  step_at-IsBeside finishing c r now = write-IsBeside float configs records frames z c _ now
  step_at-IsBeside marking c r now = mark-IsBeside c _ _
  step_at-IsBeside done c r now = IsBeside-refl float configs records frames z c

  pub ramp_step-IsBeside :
      (c : Coordinator S F) (r : Ramp F) (now : ℤ)
      → IsBeside float configs records frames z c (ramp_step zk float configs records c r now).0
  unfolding ramp_step
  ramp_step-IsBeside c r now = step_at-IsBeside r.pc c r now

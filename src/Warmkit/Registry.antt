-- ===== src/Warmkit/Registry.antt =====
-- warmkit/registry.go: the interface `Registry` that the engine takes, and the in-memory one.
-- `WatchMirror` delivers a stream of mirror configurations, which the engine takes as calls.
pub mod Memory
pub mod Watch
use itmo_master_research.Base.{◌≡◌, String, Option, none, some}
use itmo_master_research.Warmkit.Types.{State, InstanceRecord, Error}

-- The calls on the registry's state `R`, with the service and the instance they name.
pub record Registry (R : Type 0) : Type 0 where
  pub register_instance : R → String → String → InstanceRecord → R × Option Error
  pub update_instance_state : R → String → String → State → R × Option Error

-- What the engine may expect of a registry whose calls succeed: it keeps the state it was last told.
pub record RegistryLaws {R : Type 0} (registry : Registry R) : Type 0 where
  pub stored : R → String → String → Option State
  pub stored-register :
      (r : R) (service id : String) (rec : InstanceRecord)
      → (registry.register_instance r service id rec).1 ≡ none
      → stored (registry.register_instance r service id rec).0 service id ≡ some rec.state
  pub stored-update :
      (r : R) (service id : String) (s : State) {old : State}
      → stored r service id ≡ some old
      → stored (registry.update_instance_state r service id s).0 service id ≡ some s

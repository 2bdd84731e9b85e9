-- ===== src/Warmkit/Types.antt =====
-- warmkit/types.go and the error values of warmkit/fsm.go and warmkit/registry.go: the values that
-- the engine, the registries, the proxy and the coordinator exchange.
use itmo_master_research.Base.{ℤ, String, Bool, true, false, ◌==◌}

-- `other` is any further string of the Go type `State`, such as one read from ZooKeeper.
pub data State : Type 0 where
  starting registered warming ready active failed : State
  other : String → State

-- The `==` of two states.
unfoldable pub state_eq : State → State → Bool
state_eq starting starting = true
state_eq registered registered = true
state_eq warming warming = true
state_eq ready ready = true
state_eq active active = true
state_eq failed failed = true
state_eq (other s) (other t) = s == t
state_eq _ _ = false

pub record WorkloadProfile : Type 0 where
  pub seed : ℤ
  pub samples : ℤ

pub record MetricsSnapshot : Type 0 where
  pub state : State
  pub shadow_count : ℤ
  pub shadow_latency_p95 : ℤ
  pub ready_after : ℤ

-- `F` is float64.
pub record MirrorConfig (F : Type 0) : Type 0 where
  pub enabled : Bool
  pub ratio : F
  pub target_instance_id : String
  pub active_instance_id : String
  pub session_id : String
  pub updated_at : ℤ

pub record InstanceRecord : Type 0 where
  pub addr : String
  pub state : State
  pub role : String
  pub started_at : ℤ

pub data Error : Type 0 where
  invalid_transition : State → State → Error
  instance_not_found : Error
  -- an error of a library or of the network
  external : String → Error

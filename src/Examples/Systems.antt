-- ===== src/Examples/Systems.antt =====
-- Runs of the processes together.
use itmo_master_research.Base.{
  ℕ, ◌≤ℤ◌, ◌≡◌, ◌⊎◌, refl, ◌==◌, ◌||◌, pos, true, false, String, List, [], ◌∷◌, Option, none, some,
  if◌then◌else◌, arith, All,
}
use itmo_master_research.Base.Dict.{lookup}
use itmo_master_research.Base.Result.{Result, ok, err}
use itmo_master_research.Warmkit.Types.{
  MirrorConfig, InstanceRecord, ready, active, registered, state_eq,
}
use itmo_master_research.Warmkit.Engine.{shadow_middleware, Engine, Request}
use itmo_master_research.Warmkit.ZkRegistry.{
  zk_registry, update_instance_state, read_mirror_config, write_mirror_config, put_mirror,
}
use itmo_master_research.Warmkit.Metrics.{new_shadow_metrics}
use itmo_master_research.Coordinator.{set_mirror_config, write, instance_ready}
use itmo_master_research.Coordinator.Main.{CoordinatorRequest}
use itmo_master_research.Proxy.{
  relayed, forward, mirror_target, known_addr, refresh_instances, read_record,
}
use itmo_master_research.Zk.{ZkError}
use itmo_master_research.Zk.Tree.{
  Node, instance_of, mirror, blank, tree_zk, mirror_codec, instance_codec, tree_laws, instance_laws,
  tree_frames, tree_IsUp,
}
use itmo_master_research.System.{
  System, World, Event, boots, joins_active, asks_coordinator, watches_mirror, watches_instances,
  run_system,
}
use itmo_master_research.System.Sound.{IsLawful}
use itmo_master_research.System.Events.{IsQuiet}
use itmo_master_research.System.Readiness.{run_system-instance_ready}
use itmo_master_research.System.Warming.{gets}
use itmo_master_research.Examples.{whole, blank_config, mirror_on_config}
use itmo_master_research.Examples.Engines.{warmup_config}
use itmo_master_research.Examples.Sessions.{Store, coordinator}

abbrev pub two_instances : Store → String → Result ZkError (List String)
two_instances s service = ok ("a" ∷ "b" ∷ [])

abbrev pub home : String → Option String
home addr = if addr == ":8080" then some "b" else none

-- The active instance listens at "a:8080", the one that is warmed up at ":8080".
abbrev pub world : World Store (Node (MirrorConfig ℕ) InstanceRecord) ℕ
world = record {
  zk = tree_zk;
  float = whole;
  configs = mirror_codec;
  records = instance_codec;
  children = two_instances;
  parses = λ s. true;
  reprint = some;
  accepts = λ s. true;
  blank = blank_config;
  left = λ b. blank_config;
  home = home;
}

pub lawful : IsLawful world
lawful = record { laws = tree_laws; codec = instance_laws; frames = tree_frames; up = tree_IsUp }

abbrev pub empty : System Store ℕ
empty = record {
  conn = [];
  engines = [];
  coordinator = coordinator;
  ramps = [];
  router = record { service = "svc"; cfg = blank_config; inst = [] };
  copies = [];
}

abbrev pub get_request : Request
get_request = record { method = "GET"; shadow_header = "" }

abbrev pub mirror_request : CoordinatorRequest ℕ ℕ
mirror_request = record {
  method = "PUT";
  path = "v1" ∷ "mirror" ∷ "config" ∷ [];
  create = err 0;
  config = ok mirror_on_config;
  stamp = "";
  now = pos 5;
}

-- Both instances start, the mirror is switched on, and the proxy reads it.
abbrev pub setting_up : List (Event ℕ ℕ)
setting_up =
    joins_active "svc" "a" "a:8080" (pos 1)
    ∷ boots warmup_config (pos 2)
    ∷ asks_coordinator mirror_request
    ∷ watches_mirror
    ∷ watches_instances
    ∷ []

-- The engine of the instance that is warmed up, as it starts.
abbrev pub b_engine : Engine Store
b_engine = record {
  cfg = warmup_config;
  reg =
      (
        "/services/svc/instances/b",
        instance_of
            (record { addr = ":8080"; state = registered; role = "warmup"; started_at = pos 2 }),
      )
      ∷ (
        "/services/svc/instances/a",
        instance_of
            (record { addr = "a:8080"; state = active; role = "active"; started_at = pos 1 }),
      )
      ∷ ("/services/svc/instances", blank)
      ∷ ("/services/svc", blank)
      ∷ ("/services", blank)
      ∷ [];
  fsm = record { state = registered };
  shadow = new_shadow_metrics (pos 4);
  watching = true;
}

pub b_runs : lookup "b" (run_system world empty setting_up).engines ≡ some b_engine
unfolding run_system lookup zk_registry tree_zk instance_codec update_instance_state
b_runs = refl

pub quiet : All (IsQuiet {E = ℕ} {F = ℕ} "svc") setting_up
quiet = (refl, ((refl, refl), (tt, (tt, (tt, tt)))))

-- After two mirrored requests of a client.
abbrev pub warmed : List (Event ℕ ℕ)
warmed =
    joins_active "svc" "a" "a:8080" (pos 1)
    ∷ boots warmup_config (pos 2)
    ∷ asks_coordinator mirror_request
    ∷ watches_mirror
    ∷ watches_instances
    ∷ gets get_request "/work" 0 relayed (pos 30 ∷ pos 20 ∷ [])

abbrev pub warm_engine : Engine Store
warm_engine = record b_engine {
  reg =
      (
        "/services/svc/instances/b",
        instance_of (record { addr = ":8080"; state = ready; role = "warmup"; started_at = pos 2 }),
      )
      ∷ ("/config/svc/mirror", mirror (record mirror_on_config { updated_at = pos 5 }))
      ∷ ("/config/svc", blank)
      ∷ ("/config", blank)
      ∷ (
        "/services/svc/instances/a",
        instance_of
            (record { addr = "a:8080"; state = active; role = "active"; started_at = pos 1 }),
      )
      ∷ ("/services/svc/instances", blank)
      ∷ ("/services/svc", blank)
      ∷ ("/services", blank)
      ∷ [];
  fsm = record { state = ready };
  shadow = record { count = pos 2; latencies = pos 30 ∷ pos 20 ∷ []; max_keep = pos 4 };
}

pub warm_runs : lookup "b" (run_system world empty warmed).engines ≡ some warm_engine
unfolding run_system lookup zk_registry tree_zk instance_codec update_instance_state known_addr
    refresh_instances read_record set_mirror_config write write_mirror_config put_mirror
    mirror_codec read_mirror_config forward mirror_target shadow_middleware
warm_runs = refl

pub warmed-quiet : All (IsQuiet {E = ℕ} {F = ℕ} "svc") warmed
warmed-quiet = (refl, ((refl, refl), (tt, (tt, (tt, (tt, (tt, (tt, (tt, tt)))))))))

run_system-instance_ready_example :
    let z = run_system world empty warmed in
    let sees =
      instance_ready tree_zk whole mirror_codec instance_codec
        (record z.coordinator { conn = z.conn })
        "b" in
    (sees ≡ (state_eq ready ready || state_eq ready active)) × ((sees ≡ false) ⊎ (pos 2 ≤ℤ pos 2))
run_system-instance_ready_example =
    run_system-instance_ready lawful "svc" empty warmed "b" warm_engine refl refl (omega arith)
      warmed-quiet warm_runs

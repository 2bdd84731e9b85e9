-- ===== src/Examples/Watches.antt =====
-- Runs of the watchers of the mirror configuration and of the coordinator's routes.
use itmo_master_research.Base.{true, ◌⊎◌, ℕ, ◌≡◌, refl, ◌==◌, pos, String, List, [], ◌∷◌, take}
use itmo_master_research.Base.Result.{Result, ok, err}
use itmo_master_research.Warmkit.Types.{MirrorConfig}
use itmo_master_research.Warmkit.Registry.Memory.{watch_cap}
use itmo_master_research.Warmkit.Registry.Watch.{
  new_memory_registry, memory_watch_mirror, set_all, newest_config, set_all-memory_watch_mirror,
}
use itmo_master_research.Zk.{ZkError}
use itmo_master_research.Zk.Tree.{mirror, tree_zk, mirror_codec, instance_codec}
use itmo_master_research.Proxy.{Router}
use itmo_master_research.Proxy.Watch.{
  WatchRound, mirror_round, instances_round, watch_rounds, last_config, last_instances,
  watch_rounds-last,
}
use itmo_master_research.Coordinator.Main.{CoordinatorRequest, serve_coordinator}
use itmo_master_research.Coordinator.Methods.{serve_coordinator-reads}
use itmo_master_research.Examples.{whole, blank_config, mirror_on_config}
use itmo_master_research.Examples.Sessions.{Store, coordinator}

abbrev settings_made : List (MirrorConfig ℕ)
settings_made = mirror_on_config ∷ blank_config ∷ []

set_all-memory_watch_mirror_example :
    (memory_watch_mirror (set_all (new_memory_registry blank_config) settings_made) watch_cap).1
    ≡ newest_config blank_config settings_made ∷ take watch_cap settings_made
set_all-memory_watch_mirror_example = set_all-memory_watch_mirror blank_config settings_made

abbrev router : Router ℕ
router = record { service = "svc"; cfg = blank_config; inst = [] }

abbrev one_child : Store → String → Result ZkError (List String)
one_child s service = ok ("b" ∷ [])

abbrev watched : List (WatchRound Store)
watched =
    mirror_round (("/config/svc/mirror", mirror mirror_on_config) ∷ [])
    ∷ instances_round []
    ∷ mirror_round []
    ∷ []

watch_rounds-last_example :
    let left =
      watch_rounds tree_zk mirror_codec instance_codec one_child blank_config router watched in
    (left.cfg
      ≡ last_config tree_zk mirror_codec instance_codec one_child blank_config "svc" blank_config
          watched)
    × (left.inst
        ≡ last_instances tree_zk mirror_codec instance_codec one_child blank_config "svc" []
            watched)
    × (left.service ≡ "svc")
watch_rounds-last_example =
    watch_rounds-last tree_zk mirror_codec instance_codec one_child blank_config watched router

abbrev lookup_request : CoordinatorRequest ℕ ℕ
lookup_request = record {
  method = "GET";
  path = "v1" ∷ "warmup" ∷ "sessions" ∷ "sess-1" ∷ [];
  create = err 0;
  config = err 0;
  stamp = "20260101000000.000";
  now = pos 5;
}

serve_coordinator-reads_example :
    let (c', answer) =
      serve_coordinator tree_zk whole mirror_codec instance_codec coordinator lookup_request in
    (c'.conn ≡ coordinator.conn) × ((("DELETE" == "GET") ≡ true) ⊎ (c' ≡ coordinator))
serve_coordinator-reads_example =
    serve_coordinator-reads tree_zk whole mirror_codec instance_codec coordinator lookup_request
      refl refl

-- ===== src/Examples/Routes.antt =====
-- Runs of the proxy's routing.
use itmo_master_research.Base.{
  ℕ, ◌≡◌, ◌≢◌, refl, String, pos, Bool, true, false, [], ◌∷◌, none, some, if◌then◌else◌,
}
use itmo_master_research.Base.Dict.{lookup}
use itmo_master_research.Warmkit.Types.{MirrorConfig, InstanceRecord, ready}
use itmo_master_research.Zk.Tree.{Tree, tree_zk, mirror_codec, instance_codec, instance_of}
use itmo_master_research.Proxy.{
  Router, relayed, broken_off, proxied, serve_http, refresh_instances, read_record, forward,
  mirror_target, known_addr,
}
use itmo_master_research.Proxy.Routing.{
  serve_http-mirrored, serve_http-answer, refresh_instances-lookup, addr_of, contains,
}
use itmo_master_research.Examples.{whole, mirror_on_config}

abbrev router : Router ℕ
router = record {
  service = "svc";
  cfg = mirror_on_config;
  inst = ("a", "a:8080") ∷ ("b", "b:8080") ∷ [];
}

abbrev parses : String → Bool
parses s = true

copied : (serve_http whole parses router "GET" 0 relayed).mirrored ≡ some "b:8080"
unfolding serve_http forward mirror_target known_addr lookup
copied = refl

serve_http-mirrored_example :
    (◌≡◌ {A = String} "GET" "GET")
    × (router.cfg.enabled ≡ true)
    × (whole.lt (whole.of_int (pos 0)) router.cfg.ratio ≡ true)
    × (whole.lt 0 router.cfg.ratio ≡ true)
    × (lookup router.cfg.target_instance_id router.inst ≡ some "b:8080")
    × (relayed ≢ broken_off)
    × ((a : String) × ((serve_http whole parses router "GET" 0 relayed).answer ≡ proxied a relayed)
        × (lookup router.cfg.active_instance_id router.inst ≡ some a))
serve_http-mirrored_example =
    serve_http-mirrored whole parses router "GET" 0 relayed "b:8080" copied

-- The same instances with the mirror off.
abbrev quiet : Router ℕ
quiet = record router { cfg = record mirror_on_config { enabled = false } }

serve_http-answer_example :
    (serve_http whole parses quiet "GET" 1 relayed).answer
    ≡ (serve_http whole parses router "GET" 0 relayed).answer
serve_http-answer_example = serve_http-answer whole parses router quiet "GET" 0 1 relayed refl refl

abbrev tree : Tree (MirrorConfig ℕ) InstanceRecord
tree =
    (
      "/services/svc/b",
      instance_of (record { addr = "b:8080"; state = ready; role = "warmup"; started_at = pos 1 }),
    )
    ∷ []

refresh_instances-lookup_example :
    lookup "b" (refresh_instances tree_zk mirror_codec instance_codec tree ("b" ∷ []) router).inst
    ≡ (if contains {F = ℕ} tree_zk mirror_codec instance_codec "b" ("b" ∷ [])
        then addr_of {F = ℕ} tree_zk mirror_codec instance_codec
            (read_record {F = ℕ} tree_zk mirror_codec instance_codec tree "svc" "b")
        else none)
refresh_instances-lookup_example =
    refresh_instances-lookup tree_zk mirror_codec instance_codec tree ("b" ∷ []) router "b"

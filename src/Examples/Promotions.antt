-- ===== src/Examples/Promotions.antt =====
-- Runs of the processes together, up to the end of a session.
use itmo_master_research.Base.{ℕ, ◌≡◌, refl, pos, true, [], ◌∷◌, none, some, arith, ap, ◌∙◌}
use itmo_master_research.Base.Dict.{lookup}
use itmo_master_research.Warmkit.Types.{InstanceRecord, ready, active}
use itmo_master_research.Warmkit.Engine.{shadow_middleware, Engine}
use itmo_master_research.Warmkit.ZkRegistry.{
  zk_registry, update_instance_state, read_mirror_config, write_mirror_config, put_mirror,
  ensure_path, mirror_path,
}
use itmo_master_research.Coordinator.{
  set_mirror_config, write, instance_ready, session_reply, complete_session,
}
use itmo_master_research.Coordinator.Main.{serve_coordinator, replied}
use itmo_master_research.Coordinator.Sessions.{promoted}
use itmo_master_research.Proxy.{
  Router, forward, mirror_target, known_addr, relayed, bad_gateway, proxied, serve_http,
  watch_mirror, refresh_instances, read_record,
}
use itmo_master_research.Zk.Tree.{
  instance_of, tree_zk, mirror_codec, instance_codec, tree_laws, mirror_laws,
}
use itmo_master_research.System.{reads_config, asks_coordinator, watches_mirror, run_system}
use itmo_master_research.System.Steps.{IsSound}
use itmo_master_research.System.Events.{run-IsSound}
use itmo_master_research.System.Readiness.{no_engines-IsSound}
use itmo_master_research.System.Requests.{complete_request}
use itmo_master_research.System.Completing.{complete-promotes}
use itmo_master_research.System.Promotion.{complete-serve_http}
use itmo_master_research.Examples.{whole, blank_config, mirror_on_config}
use itmo_master_research.Examples.Sessions.{Store, coordinator, session, found, unfinished}
use itmo_master_research.Examples.Systems.{
  world, lawful, empty, warmed, warm_engine, warm_runs, warmed-quiet,
}

abbrev set_up_router : Router ℕ
set_up_router = record {
  service = "svc";
  cfg = record mirror_on_config { updated_at = pos 5 };
  inst = ("b", ":8080") ∷ ("a", "a:8080") ∷ [];
}

completed_ok :
    (complete_session tree_zk whole mirror_codec instance_codec coordinator "sess-1" (pos 9)).1
    ≡ session_reply 200 (promoted tree_zk whole mirror_codec instance_codec session)
unfolding complete_session write write_mirror_config put_mirror ensure_path tree_zk mirror_codec
    mirror_path
completed_ok = refl

abbrev b_record : InstanceRecord
b_record = record { addr = "b:8080"; state = ready; role = "warmup"; started_at = pos 1 }

abbrev listed : Store
listed = ("/services/svc/instances/b", instance_of b_record) ∷ []

b_read : read_record {F = ℕ} tree_zk mirror_codec instance_codec listed "svc" "b" ≡ some b_record
unfolding read_record tree_zk instance_codec
b_read = refl

complete-serve_http_example :
    let c' =
      (complete_session tree_zk whole mirror_codec instance_codec coordinator "sess-1" (pos 9)).0 in
    serve_http whole
      (λ s. true)
      (refresh_instances tree_zk mirror_codec instance_codec listed
        ("b" ∷ [])
        (watch_mirror tree_zk mirror_codec instance_codec blank_config c'.conn set_up_router))
      "GET"
      0
      bad_gateway
    ≡ record { answer = proxied "b:8080" bad_gateway; mirrored = none }
complete-serve_http_example =
    complete-serve_http whole instance_codec tree_laws mirror_laws blank_config coordinator "sess-1"
      (pos 9) session found unfinished completed_ok set_up_router listed ("b" ∷ []) b_record refl
      refl b_read refl (λ s. true) refl "GET" 0 bad_gateway

warm_system-IsSound : IsSound lawful "svc" 9 (run_system world empty warmed)
warm_system-IsSound =
    run-IsSound lawful "svc" 0 empty warmed (omega arith) warmed-quiet
      (no_engines-IsSound lawful "svc" empty refl refl)

b_known : lookup "b" set_up_router.inst ≡ some ":8080"
unfolding lookup
b_known = refl

-- What the run leaves of the coordinator and the proxy, and how a completion is answered.
warm_state :
    ((run_system world empty warmed).coordinator.sessions ≡ coordinator.sessions)
    × ((run_system world empty warmed).router ≡ set_up_router)
    × ((serve_coordinator tree_zk whole mirror_codec instance_codec
          (record (run_system world empty warmed).coordinator {
            conn = (run_system world empty warmed).conn;
          })
          (complete_request {E = ℕ} 0 "sess-1" (pos 9))).1
        ≡ replied (session_reply 200 (promoted tree_zk whole mirror_codec instance_codec session)))
unfolding run_system known_addr lookup refresh_instances read_record tree_zk set_mirror_config write
    write_mirror_config zk_registry instance_codec update_instance_state put_mirror mirror_codec
    read_mirror_config forward mirror_target complete_session shadow_middleware
warm_state = (refl, refl, refl)

complete-promotes_example :
    let z = run_system world {E = ℕ} (run_system world empty warmed) (
      asks_coordinator (complete_request 0 "sess-1" (pos 9))
      ∷ watches_mirror
      ∷ reads_config "b"
      ∷ []) in
    ((e' : Engine Store) × (lookup "b" z.engines ≡ some e') × (e'.fsm.state ≡ active))
    × (instance_ready tree_zk whole mirror_codec instance_codec
          (record z.coordinator { conn = z.conn })
          "b"
        ≡ true)
    × (serve_http whole (λ s. true) z.router "GET" 0 relayed
        ≡ record { answer = proxied ":8080" relayed; mirrored = none })
complete-promotes_example =
    complete-promotes lawful mirror_laws "svc" ℕ 0 9 (run_system world empty warmed) "sess-1"
      (pos 9) session warm_engine ":8080" (omega arith) warm_system-IsSound refl
      (ap (lookup "sess-1") warm_state.0 ∙ found) unfinished warm_state.2 warm_runs refl refl
      (ap (λ (r : Router ℕ). r.service) warm_state.1)
      (ap (λ (r : Router ℕ). lookup "b" r.inst) warm_state.1 ∙ b_known) refl refl "GET" 0 relayed

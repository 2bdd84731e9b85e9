-- ===== src/System/Requests.antt =====
-- The request that completes a session, and the round in which an engine reads what it wrote.
use itmo_master_research.Base.{
  ℤ, String, true, Bool, if◌then◌else◌, refl, ◌∙◌, ap, ◌≡◌, false, [], ◌∷◌, some, arith,
}
use itmo_master_research.Base.Dict.{lookup}
use itmo_master_research.Base.Mux.{handled, find_route, match_path, takes_method}
use itmo_master_research.Base.Result.{err}
use itmo_master_research.Base.Text.{is_empty}
use itmo_master_research.Warmkit.Types.{MirrorConfig}
use itmo_master_research.Warmkit.Engine.{Engine}
use itmo_master_research.Coordinator.{Coordinator, complete_session}
use itmo_master_research.Coordinator.Main.{
  CoordinatorRequest, complete_route, coordinator_routes, handle_route, dispatch_route,
  serve_coordinator, replied,
}
use itmo_master_research.Warmkit.Engine.Calls.{configures}
use itmo_master_research.Warmkit.ZkRegistry.Connecting.{zk_watch_round}
use itmo_master_research.System.{
  System, World, reads_config, engine_calls, on_engine, read_config, system_step,
}

abbrev pub complete_request : {E F : Type 0} → E → String → ℤ → CoordinatorRequest E F
complete_request e id now = record {
  method = "POST";
  path = "v1" ∷ "warmup" ∷ "sessions" ∷ id ∷ "complete" ∷ [];
  create = err e;
  config = err e;
  stamp = "";
  now = now;
}

complete_route-found :
    (id : String)
    → is_empty id ≡ false
    → find_route coordinator_routes "POST" ("v1" ∷ "warmup" ∷ "sessions" ∷ id ∷ "complete" ∷ [])
      ≡ handled complete_route (id ∷ [])
unfolding coordinator_routes find_route match_path takes_method
complete_route-found id h = ground (arith, h)

module _ (E : Type 0) {S B F : Type 0} (world : World S B F) where
  pub served_complete :
      (c : Coordinator S F) (x : E) (id : String) (now : ℤ)
      → is_empty id ≡ false
      → let done = complete_session world.zk world.float world.configs world.records c id now in
        serve_coordinator world.zk world.float world.configs world.records c
          (complete_request x id now)
        ≡ (done.0, replied done.1)
  unfolding serve_coordinator dispatch_route handle_route
  served_complete c x id now named =
      ap
        (dispatch_route world.zk world.float world.configs world.records c
          (complete_request x id now))
        (complete_route-found id named)

  -- The engine of an instance takes the configuration that its watch reads.
  pub reads_config-calls :
      (y : System S F) (id : String) (e : Engine S) (cfg : MirrorConfig F)
      → lookup id y.engines ≡ some e
      → e.watching ≡ true
      → zk_watch_round world.zk world.configs world.blank world.left y.conn e.cfg.service_name
        ≡ some cfg
      → system_step world {E = E} y (reads_config id) ≡ engine_calls world y id (configures cfg) e
  unfolding system_step read_config on_engine
  reads_config-calls y id e cfg found on sent =
      let watches : system_step world {E = E} y (reads_config id)
          ≡ (if e.watching then read_config world y id e else y) =
        rw (found, system_step) refl in
      watches
      ∙ ap (λ (b : Bool). if b then read_config world y id e else y) on
      ∙ rw (sent, read_config) (rw (found, on_engine) refl)

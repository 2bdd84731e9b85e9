-- ===== src/System/Completing.antt =====
-- The end of a session: what the coordinator's completion makes of the instance, of its engine and
-- of the proxy.
use Prim.Native.String.{◌++◌ as concat}
use itmo_master_research.Base.{
  ℕ, ◌+◌, ◌<◌, ℤ, two63, String, ◌≡◌, ◌≢◌, refl, sym, ap, ◌∙◌, true, false, ◌||◌, [], ◌∷◌, none,
  some, arith,
}
use itmo_master_research.Base.Dict.{lookup}
use itmo_master_research.Base.Result.{ok}
use itmo_master_research.Base.Text.{is_empty}
use itmo_master_research.Warmkit.Types.{MirrorConfig, ready, active, state_eq}
use itmo_master_research.Warmkit.Engine.{Engine}
use itmo_master_research.Coordinator.{
  Coordinator, Session, completed, session_reply, completed_config, instance_ready, Reply,
}
use itmo_master_research.Coordinator.Main.{serve_coordinator, replied, Answered}
use itmo_master_research.Coordinator.Sessions.{promoted}
use itmo_master_research.Warmkit.Engine.Calls.{configures, call}
use itmo_master_research.Warmkit.Engine.Promotes.{handle-promotes}
use itmo_master_research.Warmkit.ZkRegistry.{read_mirror_config}
use itmo_master_research.Warmkit.ZkRegistry.Connecting.{zk_watch_round-read}
use itmo_master_research.Proxy.{Relay, proxied, serve_http}
use itmo_master_research.Zk.{CodecLaws}
use itmo_master_research.System.{
  System, World, asks_coordinator, watches_mirror, reads_config, registry, positive,
  ask_coordinator, system_step, run_system,
}
use itmo_master_research.System.Requests.{complete_request, served_complete, reads_config-calls}
use itmo_master_research.System.Sound.{IsLawful, IsLive-shown}
use itmo_master_research.System.Steps.{IsSound, engine_calls-found}
use itmo_master_research.System.Events.{run-IsSound}
use itmo_master_research.System.Readiness.{stored-instance_ready}
use itmo_master_research.System.Promotion.{serve_http-quiet, complete-read, watch_mirror-read}

replied-inj : {F : Type 0} (a b : Reply F) → replied a ≡ replied b → a ≡ b
replied-inj a b h = cc h

active_shown : (state_eq active ready || state_eq active active) ≡ true
unfolding state_eq
active_shown = refl

module _ {S B F : Type 0} {world : World S B F} (lawful : IsLawful world)
    (codec : CodecLaws world.zk world.configs) (service : String) where
  -- The configuration of a completed session.
  abbrev done_config : Session → String → ℤ → MirrorConfig F
  done_config s id now =
      record (completed_config world.zk world.float world.configs world.records s id) {
        updated_at = now;
      }

  -- What can be read in ZooKeeper once the request to complete a session is answered with 200.
  served-written :
      (E : Type 0) (x : E) (c : Coordinator S F) (id : String) (now : ℤ) (s : Session)
      → c.service ≡ service
      → is_empty id ≡ false
      → lookup id c.sessions ≡ some s
      → s.status ≢ completed
      → let served =
          serve_coordinator world.zk world.float world.configs world.records c
            (complete_request x id now) in
        served.1
          ≡ replied
              (session_reply 200 (promoted world.zk world.float world.configs world.records s))
        → read_mirror_config world.zk world.configs world.blank served.0.conn service
          ≡ ok (done_config s id now)
  served-written E x c id now s of named found unfinished answered =
      let served = served_complete E world c x id now named in
      let conn =
        (serve_coordinator world.zk world.float world.configs world.records c
          (complete_request x id now)).0.conn in
      ap (read_mirror_config world.zk world.configs world.blank conn) (sym of)
      ∙ ap
          (λ (p : Coordinator S F × Answered F).
            read_mirror_config world.zk world.configs world.blank p.0.conn c.service)
          served
      ∙ complete-read world.float world.records lawful.laws codec world.blank c id now s found
          unfinished
          (replied-inj _ _ (ap (λ (p : Coordinator S F × Answered F). p.1) (sym served) ∙ answered))

  -- Over a ZooKeeper that obeys `IsLawful`, in a sound state of the system: where the target of a
  -- session that is not completed has an engine in state `Ready` that still watches, and the coordinator answers the
  -- request to complete the session with 200, the next rounds of the proxy's and of that engine's
  -- watch make the engine `Active`, the coordinator still finds the instance ready, and the proxy,
  -- which knows an address of the instance that makes a URL, sends it every request and mirrors none.
  pub complete-promotes :
      (E : Type 0) (x : E) (n : ℕ) (y : System S F) (id : String) (now : ℤ) (s : Session)
      (e : Engine S) (addr : String)
      → n + 3 < two63
      → IsSound lawful service n y
      → is_empty id ≡ false
      → lookup id y.coordinator.sessions ≡ some s
      → s.status ≢ completed
      → (serve_coordinator world.zk world.float world.configs world.records
          (record y.coordinator { conn = y.conn })
          (complete_request x id now)).1
        ≡ replied (session_reply 200 (promoted world.zk world.float world.configs world.records s))
      → lookup s.target_instance_id y.engines ≡ some e
      → e.fsm.state ≡ ready
      → e.watching ≡ true
      → y.router.service ≡ service
      → lookup s.target_instance_id y.router.inst ≡ some addr
      → is_empty addr ≡ false
      → world.parses (concat "http://" addr) ≡ true
      → (method : String) (draw : F) (relay : Relay)
      → let z = run_system world {E = E} y (
          asks_coordinator (complete_request x id now)
          ∷ watches_mirror
          ∷ reads_config s.target_instance_id
          ∷ []) in
        ((e' : Engine S) × (lookup s.target_instance_id z.engines ≡ some e')
          × (e'.fsm.state ≡ active))
        × (instance_ready world.zk world.float world.configs world.records
              (record z.coordinator { conn = z.conn })
              s.target_instance_id
            ≡ true)
        × (serve_http world.float world.parses z.router method draw relay
            ≡ record { answer = proxied addr relay; mirrored = none })
  unfolding run_system system_step ask_coordinator completed_config call
  complete-promotes E x n y id now s e addr h sound named found unfinished answered runs at on of
        known full url method draw relay =
      let events =
        asks_coordinator (complete_request x id now)
        ∷ watches_mirror
        ∷ reads_config s.target_instance_id
        ∷ [] in
      let z = run_system world {E = E} y events in
      let c = record y.coordinator { conn = y.conn } in
      let r = complete_request {F = F} x id now in
      let c1 = (serve_coordinator world.zk world.float world.configs world.records c r).0 in
      let reads = read_mirror_config world.zk world.configs world.blank c1.conn in
      let cfg = done_config s id now in
      let written =
        served-written E x c id now s sound.of_service named found unfinished answered in
      let y1 = system_step world {E = E} y (asks_coordinator r) in
      let y2 = system_step world {E = E} y1 watches_mirror in
      let routes =
        watch_mirror-read world.float world.records lawful.laws codec world.blank cfg c1.conn
          y.router (ap reads of ∙ written) in
      let l = sound.live s.target_instance_id e runs in
      let last = reads_config-calls E world y2 s.target_instance_id e cfg runs on (
        zk_watch_round-read world.zk world.configs world.blank world.left c1.conn e.cfg.service_name
          cfg (ap reads l.of_service ∙ written)) in
      let before = record e { reg = y2.conn } in
      let e' = call (registry world) (positive world) before (configures cfg) in
      let there : lookup s.target_instance_id z.engines ≡ some e' =
        ap (λ (w : System S F). lookup s.target_instance_id w.engines) last
        ∙ engine_calls-found world y2 s.target_instance_id (configures cfg) e in
      let moved : e'.fsm.state ≡ active =
        handle-promotes (registry world) (positive world) before cfg at refl (sym l.of_id) in
      let end =
        run-IsSound lawful service {E = E} n y events (omega (arith, h)) (tt, (tt, (tt, tt)))
          sound in
      (
        (e', there, moved),
        stored-instance_ready lawful service (record z.coordinator { conn = z.conn })
              s.target_instance_id active end.of_service
              (IsLive-shown lawful service _ z.conn s.target_instance_id e'
                  (end.live s.target_instance_id e' there)
                ∙ ap some moved)
            ∙ active_shown,
        ap (λ router. serve_http world.float world.parses router method draw relay)
              (ap (λ (w : System S F). w.router) last ∙ routes)
            ∙ serve_http-quiet world.float world.parses (record y.router { cfg = cfg }) method draw
                relay addr refl known full url,
      )

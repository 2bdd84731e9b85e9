-- ===== src/Coordinator/Frames.antt =====
-- What the coordinator of cmd/warmup-coordinator/main.go and its ramps leave as it is: the nodes of
-- the instances.
use Prim.Native.String.{◌++◌ as concat}
use itmo_master_research.Base.{
  ℤ, String, ◌≡◌, refl, List, Option, none, some, Option-cases, inl, inr,
}
use itmo_master_research.Base.Dict.{lookup}
use itmo_master_research.Base.Float.{Float64}
use itmo_master_research.Base.Result.{Result, ok, err, Result-cases}
use itmo_master_research.Base.Mux.{RouteMatch, handled, method_not_allowed, not_found, find_route}
use itmo_master_research.Warmkit.Types.{MirrorConfig, InstanceRecord}
use itmo_master_research.Warmkit.ZkRegistry.Frames.{write_mirror_config-Kept}
use itmo_master_research.Coordinator.{
  Coordinator, Session, Status, completed, answer_completed, write, create_session, complete_found,
  complete_session, delete_session, set_mirror_config,
}
use itmo_master_research.Coordinator.Main.{
  CoordinatorRequest, CoordinatorRoute, create_route, complete_route, delete_route, config_route,
  coordinator_routes, handle_route, dispatch_route, serve_coordinator,
}
use itmo_master_research.Zk.{Zk, ZkError, Codec, ZkFrames}

module _ {S B F : Type 0} {zk : Zk S B} (float : Float64 F) (configs : Codec (MirrorConfig F) B)
    (records : Codec InstanceRecord B) (frames : ZkFrames zk) (z : String) where
  -- The coordinator after a step: its service, and the node at a path below `/services`.
  pub record IsBeside (c c' : Coordinator S F) : Type 0 where
    pub node : zk.get c'.conn (concat "/services/" z) ≡ zk.get c.conn (concat "/services/" z)
    pub name : c'.service ≡ c.service

  pub IsBeside-refl : (c : Coordinator S F) → IsBeside c c
  IsBeside-refl c = record { node = refl; name = refl }

  pub write-IsBeside :
      (c : Coordinator S F) (cfg : MirrorConfig F) (now : ℤ)
      → IsBeside c (write zk float configs records c cfg now).0
  unfolding write
  write-IsBeside c cfg now = record {
    node =
        write_mirror_config-Kept frames (concat "/services/" z) configs c.conn c.service cfg now z
          refl;
    name = refl;
  }

  answer-IsBeside :
      (c : Coordinator S F) (w : Coordinator S F × Option ZkError) (s : Session)
      → IsBeside c w.0
      → IsBeside c (answer_completed zk float configs records w s).0
  answer-IsBeside c (c', none) s b = b
  answer-IsBeside c (c', some e) s b = b

  -- Sessions are kept in memory.
  sessions-IsBeside :
      (c d : Coordinator S F) (sessions : List (String × Session))
      → IsBeside (record c { sessions = sessions }) d
      → IsBeside c d
  sessions-IsBeside c d sessions b = record { node = b.node; name = b.name }

  complete_found-IsBeside :
      (c : Coordinator S F) (id : String) (now : ℤ) (st : Status) (s : Session)
      → IsBeside c (complete_found zk float configs records c id now st s).0
  unfolding complete_found
  complete_found-IsBeside c id now completed s = IsBeside-refl c
  complete_found-IsBeside c id now _ s =
      answer-IsBeside c _ _ (sessions-IsBeside c _ _ (write-IsBeside _ _ now))

  complete-IsBeside :
      (c : Coordinator S F) (id : String) (now : ℤ)
      → IsBeside c (complete_session zk float configs records c id now).0
  unfolding complete_session
  complete-IsBeside c id now = elim (Option-cases (lookup id c.sessions)) [
    | inl missing ↦ rw (missing, complete_session) (IsBeside-refl c)
    | inr (s, found) ↦ rw (found, complete_session) (complete_found-IsBeside c id now s.status s)
  ]

  module _ {E : Type 0} where
    config-IsBeside :
        (c : Coordinator S F) (cfg : Result E (MirrorConfig F)) (now : ℤ)
        → IsBeside c (set_mirror_config zk float configs records c cfg now).0
    unfolding set_mirror_config
    config-IsBeside c (err e) now = IsBeside-refl c
    config-IsBeside c (ok cfg) now =
        let b = write-IsBeside c cfg now in
        elim (Option-cases (write zk float configs records c cfg now).1) [
          | inl written ↦ rw (written, set_mirror_config) b
          | inr (x, failed) ↦ rw (failed, set_mirror_config) b
        ]

    create-IsBeside :
        (c : Coordinator S F) (r : CoordinatorRequest E F)
        → IsBeside c (create_session zk float configs records c r.create r.stamp).0
    unfolding create_session
    create-IsBeside c r = elim (Result-cases r.create) [
      | inl (req, read) ↦ rw (read, create_session) (record { node = refl; name = refl })
      | inr (e, failed) ↦ rw (failed, create_session) (IsBeside-refl c)
    ]

    handle-IsBeside :
        (c : Coordinator S F) (r : CoordinatorRequest E F) (id : String) (route : CoordinatorRoute)
        → IsBeside c (handle_route zk float configs records c r id route).0
    unfolding handle_route delete_session
    handle-IsBeside c r id create_route = create-IsBeside c r
    handle-IsBeside c r id complete_route = complete-IsBeside c id r.now
    handle-IsBeside c r id config_route = config-IsBeside c r.config r.now
    handle-IsBeside c r id delete_route = record { node = refl; name = refl }
    handle-IsBeside c r id _ = IsBeside-refl c

    dispatch-IsBeside :
        (c : Coordinator S F) (r : CoordinatorRequest E F) (found : RouteMatch CoordinatorRoute)
        → IsBeside c (dispatch_route zk float configs records c r found).0
    unfolding dispatch_route
    dispatch-IsBeside c r (handled route values) = handle-IsBeside c r _ route
    dispatch-IsBeside c r method_not_allowed = IsBeside-refl c
    dispatch-IsBeside c r not_found = IsBeside-refl c

    pub serve_coordinator-IsBeside :
        (c : Coordinator S F) (r : CoordinatorRequest E F)
        → IsBeside c (serve_coordinator zk float configs records c r).0
    unfolding serve_coordinator
    serve_coordinator-IsBeside c r =
        dispatch-IsBeside c r (find_route coordinator_routes r.method r.path)

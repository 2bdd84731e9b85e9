-- ===== src/System/Readiness.antt =====
-- What the coordinator reads of an instance, in every order of the steps of the processes.
use Prim.Native.String.{◌++◌ as concat}
use itmo_master_research.Base.{
  ◌<◌, ◌≤ℤ◌, two63, String, ◌≡◌, sym, ap, ◌∙◌, inl, inr, true, false, ◌||◌, Bool-cases, List, [],
  some, arith, length, All, ◌⊎◌,
}
use itmo_master_research.Base.Dict.{lookup}
use itmo_master_research.Base.Result.{Result-cases}
use itmo_master_research.Warmkit.Types.{State, ready, active, state_eq}
use itmo_master_research.Warmkit.Engine.{Engine}
use itmo_master_research.Warmkit.Engine.Rules.{state_eq-eq}
use itmo_master_research.Warmkit.ZkRegistry.{instance_path}
use itmo_master_research.Warmkit.ZkRegistry.Stored.{stored_state}
use itmo_master_research.Warmkit.ZkRegistry.Walks.{instance_path-flat}
use itmo_master_research.Coordinator.{Coordinator, instance_ready}
use itmo_master_research.System.{System, World, Event, run_system}
use itmo_master_research.System.Events.{IsQuiet, run-IsSound}
use itmo_master_research.System.Sound.{IsLawful, IsLive-shown}
use itmo_master_research.System.Steps.{IsSound}

module _ {S B F : Type 0} {world : World S B F} (lawful : IsLawful world) (service : String) where
  pub stored-instance_ready :
      (c : Coordinator S F) (id : String) (st : State)
      → c.service ≡ service
      → stored_state world.zk world.records c.conn service id ≡ some st
      → instance_ready world.zk world.float world.configs world.records c id
        ≡ (state_eq st ready || state_eq st active)
  unfolding instance_ready stored_state
  stored-instance_ready c id st of h =
      let named : world.zk.get c.conn
            (concat "/services/" (concat c.service (concat "/instances/" id)))
          ≡ world.zk.get c.conn (instance_path service id) =
        ap (λ x. world.zk.get c.conn (concat "/services/" (concat x (concat "/instances/" id)))) of
        ∙ ap (world.zk.get c.conn) (sym (instance_path-flat service id)) in
      elim (Result-cases (world.zk.get c.conn (instance_path service id))) [
        | inr (x, failed) ↦ absurd (ground (arith, failed, h))
        | inl ((b, n), got) ↦ elim (Result-cases (world.records.unmarshal b)) [
          | inr (x, failed) ↦ absurd (ground (arith, got, failed, h))
          | inl (rec, read) ↦ ground (arith, named, got, read, h)
        ]
      ]

  ready_or_active :
      (st : State) → (state_eq st ready || state_eq st active) ≡ true → (st ≡ ready) ⊎ (st ≡ active)
  ready_or_active st h = elim (Bool-cases (state_eq st ready)) [
    | inl hit ↦ inl (state_eq-eq st ready hit)
    | inr miss ↦ inr (state_eq-eq st active (ground (arith, h, miss)))
  ]

  pub no_engines-IsSound :
      (y : System S F)
      → y.engines ≡ []
      → y.coordinator.service ≡ service
      → IsSound lawful service 0 y
  unfolding lookup
  no_engines-IsSound y none_yet of = record {
    of_service = of;
    live = λ id e found. absurd (cc (ap (lookup id) (sym none_yet) ∙ found));
  }

  -- In every order of fewer than 2^63 steps of the engines, the coordinator, its ramps, the proxy and
  -- its clients, from a state in which no engine runs, over a ZooKeeper that obeys `IsLawful`, with
  -- instances of one service, of role warmup or active, and watches that do not fail: the coordinator
  -- of that service finds an instance whose engine runs ready exactly where the engine is in state
  -- `Ready` or `Active`, and only where that engine has counted `ReadyAfter` shadow requests.
  pub run_system-instance_ready :
      {E : Type 0} (y : System S F) (vs : List (Event E F)) (id : String) (e : Engine S)
      → y.engines ≡ []
      → y.coordinator.service ≡ service
      → length vs < two63
      → All (IsQuiet service) vs
      → lookup id (run_system world y vs).engines ≡ some e
      → let z = run_system world y vs in
        let sees =
          instance_ready world.zk world.float world.configs world.records
            (record z.coordinator { conn = z.conn })
            id in
        (sees ≡ (state_eq e.fsm.state ready || state_eq e.fsm.state active))
        × ((sees ≡ false) ⊎ (e.cfg.ready_after ≤ℤ e.shadow.count))
  run_system-instance_ready y vs id e none_yet of h q found =
      let z = run_system world y vs in
      let sound =
        run-IsSound lawful service 0 y vs (omega (arith, h)) q (no_engines-IsSound y none_yet of) in
      let l = sound.live id e found in
      let sees =
        stored-instance_ready (record z.coordinator { conn = z.conn }) id e.fsm.state
          sound.of_service (IsLive-shown lawful service _ z.conn id e l) in
      (
        sees,
        elim (Bool-cases (state_eq e.fsm.state ready || state_eq e.fsm.state active)) [
          | inl hit ↦ inr (l.earned.earned (ready_or_active e.fsm.state hit))
          | inr miss ↦ inl (sees ∙ miss)
        ],
      )

-- ===== src/System.antt =====
-- The processes together over one ZooKeeper: the engines of the instances (warmkit/engine.go over
-- warmkit/registry.go), the coordinator with the ramps that it has launched
-- (cmd/warmup-coordinator/main.go) and the proxy (cmd/mirror-proxy/main.go). One event is one atomic
-- step of one process.
pub mod Promotion
pub mod Sound
pub mod Steps
pub mod Events
pub mod Readiness
pub mod Warming
pub mod Requests
pub mod Completing
use itmo_master_research.Base.{
  ℕ, zero, suc, ℤ, pos, eqb, String, Bool, true, false, List, [], ◌∷◌, ◌++◌, Option, none, some,
  get_elem?, if◌then◌else◌,
}
use itmo_master_research.Base.Dict.{lookup, insert, delete}
use itmo_master_research.Base.Float.{Float64}
use itmo_master_research.Base.Result.{Result}
use itmo_master_research.Warmkit.Types.{MirrorConfig, InstanceRecord, active}
use itmo_master_research.Warmkit.Engine.{Engine, Config, Request, new_engine, start}
use itmo_master_research.Warmkit.Engine.Calls.{Call, Run, configures, serves, call}
use itmo_master_research.Warmkit.Registry.{Registry}
use itmo_master_research.Warmkit.ZkRegistry.{zk_registry, register_instance}
use itmo_master_research.Warmkit.ZkRegistry.Connecting.{zk_watch_round}
use itmo_master_research.Coordinator.{Coordinator, Session, session_reply}
use itmo_master_research.Coordinator.Main.{
  CoordinatorRequest, Answered, replied, plain_text, serve_coordinator,
}
use itmo_master_research.Coordinator.Ramp.{Ramp, launch, ramp_step}
use itmo_master_research.Proxy.{
  Router, Relay, Answer, proxied, Routed, serve_http, watch_mirror, mirror_request,
}
use itmo_master_research.Proxy.Watch.{watch_instances}
use itmo_master_research.Zk.{Zk, ZkError, Codec}

-- The components' own connections are stale between their steps: `conn` is the state of ZooKeeper.
-- `copies` holds the addresses of the mirrored requests that have not arrived.
pub record System (S F : Type 0) : Type 0 where
  pub conn : S
  pub engines : List (String × Engine S)
  pub coordinator : Coordinator S F
  pub ramps : List (Ramp F)
  pub router : Router F
  pub copies : List String

pub data Event (E F : Type 0) : Type 0 where
  -- the process of an instance starts, or starts again, with a new engine
  boots : Config → ℤ → Event E F
  -- an instance of role active registers, by its service, its id, its address and the time; its
  -- process has no engine
  joins_active : String → String → String → ℤ → Event E F
  -- a call of the engine of an instance
  acts : String → Call F → Event E F
  -- a round of its watch of the mirror configuration, if its goroutine runs
  reads_config : String → Event E F
  asks_coordinator : CoordinatorRequest E F → Event E F
  -- a step of a ramp, at a time
  ramps_on : ℕ → ℤ → Event E F
  -- rounds of the proxy's watch loops
  watches_mirror : Event E F
  watches_instances : Event E F
  -- a client's request to the proxy with its URI, the random draw, what the reverse proxy makes of
  -- it, and the run of its handler if it reaches the active instance
  client_asks : Request → String → F → Relay → Option Run → Event E F
  -- a copy arrives, with the run of its handler, or does not reach its instance
  copy_arrives : ℕ → Run → Event E F
  copy_fails : ℕ → Event E F

abbrev pub replace_at : {A : Type 0} → List A → ℕ → A → List A
replace_at [] n new = []
replace_at (x ∷ xs) zero new = new ∷ xs
replace_at (x ∷ xs) (suc n) new = x ∷ replace_at xs n new

abbrev pub remove_at : {A : Type 0} → List A → ℕ → List A
remove_at [] n = []
remove_at (x ∷ xs) zero = xs
remove_at (x ∷ xs) (suc n) = x ∷ remove_at xs n

-- What stands outside the repository: ZooKeeper, its encodings, float64, what `ChildrenW` lists,
-- `url.Parse` (`reprint` is the `String` of its URL), `http.NewRequest`, the values of a failed
-- `json.Unmarshal`, and the instance at an address.
pub record World (S B F : Type 0) : Type 0 where
  pub zk : Zk S B
  pub float : Float64 F
  pub configs : Codec (MirrorConfig F) B
  pub records : Codec InstanceRecord B
  pub children : S → String → Result ZkError (List String)
  pub parses : String → Bool
  pub reprint : String → Option String
  pub accepts : String → Bool
  pub blank : MirrorConfig F
  pub left : B → MirrorConfig F
  pub home : String → Option String

module _ {S B F : Type 0} (world : World S B F) where
  abbrev pub registry : Registry S
  registry = zk_registry world.zk world.records

  -- `cfg.Ratio > 0`
  abbrev pub positive : F → Bool
  positive ratio = world.float.lt (world.float.of_int (pos 0)) ratio

  abbrev pub engine_calls : System S F → String → Call F → Engine S → System S F
  engine_calls y id c e =
      let e' = call registry positive (record e { reg = y.conn }) c in
      record y { conn = e'.reg; engines = insert id e' y.engines }

  unfoldable pub on_engine : System S F → String → Call F → System S F
  unfolding call
  on_engine y id c = elim (lookup id y.engines) [ none ↦ y | some e ↦ engine_calls y id c e ]

  -- `main` of the service ends where `Start` returns an error.
  unfoldable pub boot_engine : System S F → Config → ℤ → System S F
  unfolding start new_engine
  boot_engine y cfg now =
      let (e, err) = start registry (new_engine registry cfg y.conn) now in
      elim err [
        | none ↦ record y { conn = e.reg; engines = insert cfg.instance_id e y.engines }
        | some x ↦ record y { conn = e.reg; engines = delete cfg.instance_id y.engines }
      ]

  unfoldable pub join_active : System S F → String → String → String → ℤ → System S F
  unfolding register_instance
  join_active y service id addr now =
      let rec : InstanceRecord = record {
        addr = addr;
        state = active;
        role = "active";
        started_at = now;
      } in
      record y {
        conn = (register_instance world.zk world.records y.conn service id rec).0;
        engines = delete id y.engines;
      }

  unfoldable pub read_config : System S F → String → Engine S → System S F
  unfolding on_engine zk_watch_round
  read_config y id e =
      elim (zk_watch_round world.zk world.configs world.blank world.left y.conn
        e.cfg.service_name) [ none ↦ y | some cfg ↦ on_engine y id (configures cfg) ]

  -- The ramp of a session that `createSession` answers with.
  launched : Answered F → List (Ramp F)
  unfolding launch
  launched (replied (session_reply status s)) =
      if eqb status 201
      then launch world.zk world.float world.configs world.records s.id s.target_instance_id
          s.active_instance_id
        ∷ []
      else []
  launched _ = []

  unfoldable pub ask_coordinator : {E : Type 0} → System S F → CoordinatorRequest E F → System S F
  unfolding serve_coordinator launched
  ask_coordinator y r =
      let (c, answer) =
        serve_coordinator world.zk world.float world.configs world.records
          (record y.coordinator { conn = y.conn }) r in
      record y { conn = c.conn; coordinator = c; ramps = y.ramps ++ launched answer }

  unfoldable pub advance_ramp : System S F → ℕ → ℤ → Ramp F → System S F
  unfolding ramp_step
  advance_ramp y n now r =
      let (c, r') =
        ramp_step world.zk world.float world.configs world.records
          (record y.coordinator { conn = y.conn }) r now in
      record y { conn = c.conn; coordinator = c; ramps = replace_at y.ramps n r' }

  unfoldable pub serve_at : System S F → String → Request → Run → System S F
  unfolding on_engine
  serve_at y addr r run = elim (world.home addr) [
    | none ↦ y
    | some id ↦ on_engine y id (serves r run)
  ]

  -- The active instance serves a request that the proxy sends on and that reaches it.
  serve_active : System S F → Answer → Request → Option Run → System S F
  unfolding serve_at
  serve_active y (proxied addr relay) r (some run) = serve_at y addr r run
  serve_active y _ r _ = y

  -- The copy that `ServeHTTP` launches, if its request can be made.
  sent_copy : String → Option String → List String
  unfolding mirror_request
  sent_copy uri none = []
  sent_copy uri (some addr) = elim (mirror_request world.reprint world.accepts uri addr) [
    | none ↦ []
    | some copy ↦ addr ∷ []
  ]

  unfoldable pub ask_proxy : System S F → Request → String → F → Relay → Option Run → System S F
  unfolding serve_http serve_active sent_copy
  ask_proxy y r uri draw relay reached =
      let routed = serve_http world.float world.parses y.router r.method draw relay in
      serve_active (record y { copies = y.copies ++ sent_copy uri routed.mirrored }) routed.answer r
        reached

  abbrev pub copy_request : Request
  copy_request = record { method = "GET"; shadow_header = "1" }

  -- What an event does, with the engine, the ramp or the copy that it is about.
  unfoldable pub system_step : {E : Type 0} → System S F → Event E F → System S F
  unfolding boot_engine join_active on_engine read_config ask_coordinator advance_ramp watch_mirror
      watch_instances ask_proxy serve_at
  system_step y (boots cfg now) = boot_engine y cfg now
  system_step y (joins_active service id addr now) = join_active y service id addr now
  system_step y (acts id c) = on_engine y id c
  system_step y (reads_config id) = elim (lookup id y.engines) [
    | none ↦ y
    | some e ↦ if e.watching then read_config y id e else y
  ]
  system_step y (asks_coordinator r) = ask_coordinator y r
  system_step y (ramps_on n now) = elim (get_elem? y.ramps n) [
    | none ↦ y
    | some r ↦ advance_ramp y n now r
  ]
  system_step y watches_mirror = record y {
    router = watch_mirror world.zk world.configs world.records world.blank y.conn y.router;
  }
  system_step y watches_instances = record y {
    router =
        watch_instances world.zk world.configs world.records world.children world.blank y.conn
          y.router;
  }
  system_step y (client_asks r uri draw relay reached) = ask_proxy y r uri draw relay reached
  system_step y (copy_arrives n run) = elim (get_elem? y.copies n) [
    | none ↦ y
    | some addr ↦ serve_at (record y { copies = remove_at y.copies n }) addr copy_request run
  ]
  system_step y (copy_fails n) = record y { copies = remove_at y.copies n }

  unfoldable pub run_system : {E : Type 0} → System S F → List (Event E F) → System S F
  unfolding system_step
  run_system y [] = y
  run_system y (v ∷ vs) = run_system (system_step y v) vs

-- ===== src/Coordinator/Main.antt =====
-- `main` of cmd/warmup-coordinator/main.go: the settings, what they make of the coordinator, and the
-- routes to its handlers.
use itmo_master_research.Base.{ℕ, ℤ, pos, String, List, [], ◌∷◌, mul64}
use itmo_master_research.Base.Result.{Result, ok, or_exit, ◌>>=◌}
use itmo_master_research.Base.Mux.{
  Segment, fixed, wildcard, Pattern, RouteMatch, handled, method_not_allowed, not_found, find_route,
}
use itmo_master_research.Base.Float.{Float64}
use itmo_master_research.Envcfg.{EnvError, Env, required, required_csv, required_int, optional_int}
use itmo_master_research.Warmkit.Types.{MirrorConfig, InstanceRecord}
use itmo_master_research.Warmkit.ZkRegistry.Connecting.{Dialer, connected}
use itmo_master_research.Coordinator.{
  Coordinator, CreateRequest, Reply, parse_steps, create_session, get_session, complete_session,
  delete_session, set_mirror_config,
}
use itmo_master_research.Zk.{Zk, ZkError, Codec}

pub record CoordinatorSettings : Type 0 where
  pub addr : String
  pub endpoints : List String
  pub service : String
  pub interval_sec : ℤ
  pub steps_raw : String
  pub shutdown_sec : ℤ
  pub hold_max_sec : ℤ

unfoldable pub load_coordinator : Env → Result EnvError CoordinatorSettings
load_coordinator env = do
  addr ← required env "DWSS_COORD_HTTP_ADDR"
  endpoints ← required_csv env "DWSS_COORD_ZK_ENDPOINTS"
  service ← required env "DWSS_COORD_SERVICE_NAME"
  interval_sec ← required_int env "DWSS_COORD_RAMP_INTERVAL_SEC"
  steps_raw ← required env "DWSS_COORD_RAMP_STEPS"
  shutdown_sec ← required_int env "DWSS_COORD_SHUTDOWN_SEC"
  hold_max_sec ← optional_int env "DWSS_COORD_HOLD_MAX_SEC" (pos 120)
  ok (record {
    addr = addr;
    endpoints = endpoints;
    service = service;
    interval_sec = interval_sec;
    steps_raw = steps_raw;
    shutdown_sec = shutdown_sec;
    hold_max_sec = hold_max_sec;
  })

-- Where `main` calls `os.Exit(1)`; `E` is the error of strconv.ParseFloat.
pub data CoordinatorExit (E : Type 0) : Type 0 where
  settings_exit : EnvError → CoordinatorExit E
  steps_exit : E → CoordinatorExit E
  zk_exit : ZkError → CoordinatorExit E

-- `time.Duration(sec) * time.Second`
abbrev pub seconds : ℤ → ℤ
seconds sec = mul64 sec (pos 1000000000)

unfoldable pub boot_coordinator :
    {S F E : Type 0}
    → Dialer S
    → (String → Result E F)
    → Env
    → S
    → Result (CoordinatorExit E) (CoordinatorSettings × Coordinator S F)
unfolding load_coordinator
boot_coordinator dialer parse env s = do
  settings ← or_exit settings_exit (load_coordinator env)
  steps ← or_exit steps_exit (parse_steps parse settings.steps_raw)
  conn ←
      or_exit zk_exit
        (connected (dialer.connect s settings.endpoints (seconds settings.shutdown_sec)))
  ok (
    settings,
    record {
      conn = conn;
      service = settings.service;
      interval = seconds settings.interval_sec;
      steps = steps;
      hold_max = seconds settings.hold_max_sec;
      sessions = [];
    },
  )

pub data CoordinatorRoute : Type 0 where
  healthz_route create_route get_route complete_route delete_route config_route : CoordinatorRoute

abbrev sessions_path : List Segment → List Segment
sessions_path rest = fixed "v1" ∷ fixed "warmup" ∷ fixed "sessions" ∷ rest

abbrev pattern_of : String → List Segment → CoordinatorRoute → Pattern CoordinatorRoute
pattern_of method segments route = record { method = method; segments = segments; handler = route }

unfoldable pub coordinator_routes : List (Pattern CoordinatorRoute)
coordinator_routes =
    pattern_of "GET" (fixed "healthz" ∷ []) healthz_route
    ∷ pattern_of "POST" (sessions_path []) create_route
    ∷ pattern_of "GET" (sessions_path (wildcard ∷ [])) get_route
    ∷ pattern_of "POST" (sessions_path (wildcard ∷ fixed "complete" ∷ [])) complete_route
    ∷ pattern_of "DELETE" (sessions_path (wildcard ∷ [])) delete_route
    ∷ pattern_of "PUT" (fixed "v1" ∷ fixed "mirror" ∷ fixed "config" ∷ []) config_route
    ∷ []

-- A request: its body decoded as the route wants it, and the time as the handlers use it.
pub record CoordinatorRequest (E F : Type 0) : Type 0 where
  pub method : String
  pub path : List String
  pub create : Result E CreateRequest
  pub config : Result E (MirrorConfig F)
  pub stamp : String
  pub now : ℤ

-- A handler's reply, the text of `/healthz`, or an answer of the mux itself.
pub data Answered (F : Type 0) : Type 0 where
  replied : Reply F → Answered F
  plain_text : ℕ → String → Answered F

-- `r.PathValue("id")`
abbrev path_value : List String → String
path_value [] = ""
path_value (value ∷ values) = value

module _ {S B F : Type 0} (zk : Zk S B) (float : Float64 F) (configs : Codec (MirrorConfig F) B)
    (records : Codec InstanceRecord B) where
  abbrev as_answer : Coordinator S F × Reply F → Coordinator S F × Answered F
  as_answer (c, reply) = (c, replied reply)

  unfoldable pub handle_route :
      {E : Type 0}
      → Coordinator S F
      → CoordinatorRequest E F
      → String
      → CoordinatorRoute
      → Coordinator S F × Answered F
  handle_route c r id healthz_route = (c, plain_text 200 "ok")
  handle_route c r id create_route =
      as_answer (create_session zk float configs records c r.create r.stamp)
  handle_route c r id get_route = (c, replied (get_session zk float configs records c id))
  handle_route c r id complete_route =
      as_answer (complete_session zk float configs records c id r.now)
  handle_route c r id delete_route = as_answer (delete_session zk float configs records c id)
  handle_route c r id config_route =
      as_answer (set_mirror_config zk float configs records c r.config r.now)

  unfoldable pub dispatch_route :
      {E : Type 0}
      → Coordinator S F
      → CoordinatorRequest E F
      → RouteMatch CoordinatorRoute
      → Coordinator S F × Answered F
  unfolding handle_route
  dispatch_route c r (handled route values) = handle_route c r (path_value values) route
  dispatch_route c r method_not_allowed = (c, plain_text 405 "Method Not Allowed\n")
  dispatch_route c r not_found = (c, plain_text 404 "404 page not found\n")

  unfoldable pub serve_coordinator :
      {E : Type 0} → Coordinator S F → CoordinatorRequest E F → Coordinator S F × Answered F
  unfolding dispatch_route find_route coordinator_routes
  serve_coordinator c r = dispatch_route c r (find_route coordinator_routes r.method r.path)

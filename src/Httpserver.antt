-- ===== src/Httpserver.antt =====
-- LoadedService/internal/httpserver/server.go: the routes of the loaded service, its handlers over
-- the workload and the warmkit engine, and the middleware around them. A handler that panics answers
-- none; net/http then drops the connection and the server goes on.
pub mod Middleware
pub mod Kept
pub mod Requests
pub mod Shadow
pub mod Dropped
pub mod Reset
pub mod Warming
use itmo_master_research.Base.{
  ℕ, ℤ, String, ◌==◌, Bool, true, false, ◌&&◌, ◌||◌, List, [], ◌∷◌, Option, none, some,
  if◌then◌else◌,
}
use itmo_master_research.Base.Result.{Result, ok, err, ◌>>=◌}
use itmo_master_research.Base.Text.{is_empty}
use itmo_master_research.Base.Mux.{
  Segment, fixed, Pattern, RouteMatch, handled, method_not_allowed, not_found, find_route,
}
use itmo_master_research.Warmkit.Types.{WorkloadProfile, MetricsSnapshot, Error}
use itmo_master_research.Warmkit.Registry.{Registry}
use itmo_master_research.Warmkit.Engine.{
  Engine, Request, Response, readiness, snapshot, reset_benchmark, shadow_middleware,
}
use itmo_master_research.Workload.{
  Workload, WorkloadState, run_profile, warm_profile, reset_cold, snapshot_state,
}

-- A request: `head` is what the middleware reads, `path` the segments of the path, `seed` and
-- `samples` the query values of these names, `body` the bytes or the error of reading them.
pub record HttpRequest : Type 0 where
  pub head : Request
  pub path : List String
  pub seed : String
  pub samples : String
  pub body : Result String String

-- The values that the handlers encode as bodies.
pub data Json : Type 0 where
  duration_ns : ℤ → Json
  status_text : String → Json
  error_text : String → Json
  state_of : WorkloadState → Option MetricsSnapshot → Json

-- What the handlers use of the library: `fmt.Sscan` of an integer of 64 bits, `json.Unmarshal` of a
-- profile, the JSON encoder, and the text of an error of the engine.
pub record Wire : Type 0 where
  pub sscan : String → Result String ℤ
  pub unmarshal : String → Result String WorkloadProfile
  pub encode : Json → String
  pub message : Error → String

-- The methods of the interface `warmkit.Engine` that the handlers call.
pub record Kit (K : Type 0) : Type 0 where
  pub on_reset : K → K × Option Error
  pub on_snapshot : K → Option MetricsSnapshot
  pub on_readyz : K → Response

pub data Route : Type 0 where
  healthz_route readyz_route work_route warmup_route reset_route state_route : Route

abbrev pub get_pattern : String → Route → Pattern Route
get_pattern name route = record { method = "GET"; segments = fixed name ∷ []; handler = route }

abbrev pub post_pattern : String → Route → Pattern Route
post_pattern name route = record { method = "POST"; segments = fixed name ∷ []; handler = route }

-- The registrations of `New`; the flag says that there is an engine.
unfoldable pub routes : String → Bool → List (Pattern Route)
routes role with_engine =
    let rest =
      get_pattern "work" work_route
      ∷ post_pattern "warmup" warmup_route
      ∷ post_pattern "reset" reset_route
      ∷ get_pattern "state" state_route
      ∷ [] in
    get_pattern "healthz" healthz_route
    ∷ (if (role == "warmup") && with_engine then get_pattern "readyz" readyz_route ∷ rest else rest)

abbrev pub engine_kit : {R : Type 0} → (ℕ → ℤ) → Registry R → Kit (Engine R)
engine_kit scale registry = record {
  on_reset = reset_benchmark registry;
  on_snapshot = snapshot registry scale;
  on_readyz = readiness registry;
}

module _ (wire : Wire) where
  abbrev pub respond_json : ℕ → Json → Response
  respond_json code v = record { status = code; body = wire.encode v }

  abbrev pub respond_error : ℕ → String → Response
  respond_error code e = respond_json code (error_text e)

  unfoldable pub parse_profile : String → String → Result String WorkloadProfile
  parse_profile seed samples =
      if is_empty seed || is_empty samples
      then err "seed and samples query params required"
      else elim (wire.sscan seed) [
        | err e ↦ err e
        | ok n ↦ elim (wire.sscan samples) [
          | err e ↦ err e
          | ok k ↦ ok (record { seed = n; samples = k })
        ]
      ]

  -- The body of `POST /warmup`: reading and decoding have the same answer to an error.
  unfoldable pub read_profile : HttpRequest → Result String WorkloadProfile
  read_profile r = r.body >>= wire.unmarshal

  -- What `handleReset` answers behind `ResetBenchmark`.
  abbrev pub reset_answer : Option Error → Response
  reset_answer none = respond_json 200 (status_text "reset")
  reset_answer (some e) = respond_error 500 (wire.message e)

  module _ {K : Type 0} where
    unfoldable pub handle_reset : Option (Kit K) → K → Workload → K × Workload × Option Response
    unfolding reset_cold
    handle_reset none k w = (k, reset_cold w, some (reset_answer none))
    handle_reset (some kit) k w =
        let (k', e) = kit.on_reset k in (k', reset_cold w, some (reset_answer e))

    unfoldable pub handle_state : Option (Kit K) → K → Workload → Option Response
    unfolding snapshot_state
    handle_state none k w = some (respond_json 200 (state_of (snapshot_state w) none))
    handle_state (some kit) k w = elim (kit.on_snapshot k) [
      | none ↦ none
      | some snapshot ↦ some (respond_json 200 (state_of (snapshot_state w) (some snapshot)))
    ]

    -- `/readyz` is registered where there is an engine only.
    handle_ready : Option (Kit K) → K → Response
    handle_ready none k = record { status = 404; body = "404 page not found\n" }
    handle_ready (some kit) k = kit.on_readyz k

  module _ (draw : ℤ → ℕ → ℕ → ℕ) where
    unfoldable pub handle_work : Workload → HttpRequest → ℤ → Workload × Option Response
    unfolding parse_profile
    handle_work w r elapsed = elim (parse_profile r.seed r.samples) [
      | err e ↦ (w, some (respond_error 400 e))
      | ok p ↦
          (let (w', ns) = run_profile draw w p elapsed in
            (w', elim ns [ none ↦ none | some d ↦ some (respond_json 200 (duration_ns d)) ]))
    ]

    unfoldable pub handle_warmup : Workload → HttpRequest → Workload × Option Response
    unfolding read_profile
    handle_warmup w r = elim (read_profile r) [
      | err e ↦ (w, some (respond_error 400 e))
      | ok p ↦
          (let (w', returns) = warm_profile draw w p in
            (w', if returns then some (respond_json 200 (status_text "warmed")) else none))
    ]

    module _ {K : Type 0} where
      unfoldable pub handle :
          Option (Kit K) → K → Workload → HttpRequest → ℤ → Route → K × Workload × Option Response
      unfolding handle_work handle_warmup handle_reset handle_state handle_ready
      handle kit k w r elapsed healthz_route = (k, w, some (record { status = 200; body = "ok" }))
      handle kit k w r elapsed readyz_route = (k, w, some (handle_ready kit k))
      handle kit k w r elapsed work_route =
          let (w', answer) = handle_work w r elapsed in (k, w', answer)
      handle kit k w r elapsed warmup_route =
          let (w', answer) = handle_warmup w r in (k, w', answer)
      handle kit k w r elapsed reset_route = handle_reset kit k w
      handle kit k w r elapsed state_route = (k, w, handle_state kit k w)

      unfoldable pub dispatch :
          Option (Kit K)
          → K
          → Workload
          → HttpRequest
          → ℤ
          → RouteMatch Route
          → K × Workload × Option Response
      unfolding handle
      dispatch kit k w r elapsed (handled route values) = handle kit k w r elapsed route
      dispatch kit k w r elapsed method_not_allowed =
          (k, w, some (record { status = 405; body = "Method Not Allowed\n" }))
      dispatch kit k w r elapsed not_found =
          (k, w, some (record { status = 404; body = "404 page not found\n" }))

      has_engine : Option (Kit K) → Bool
      has_engine none = false
      has_engine (some kit) = true

      -- The mux of a server of this role.
      unfoldable pub serve_mux :
          String → Option (Kit K) → HttpRequest → ℤ → K → Workload → K × Workload × Option Response
      unfolding dispatch find_route routes has_engine
      serve_mux role kit r elapsed k w =
          dispatch kit k w r elapsed
            (find_route (routes role (has_engine kit)) r.head.method r.path)

    -- The handler of a server without an engine is the mux itself.
    unfoldable pub serve_plain : String → HttpRequest → ℤ → Workload → Workload × Option Response
    unfolding serve_mux
    serve_plain role r elapsed w =
        let (_, w', answer) = serve_mux {K = Unit {0}} role none r elapsed tt w in (w', answer)

    module _ (scale : ℕ → ℤ) {R : Type 0} (registry : Registry R) where
      -- The handler of a server with an engine: `elapsed` is the time of the workload's run, `d` that
      -- of the whole mux.
      unfoldable pub serve_request :
          String → HttpRequest → ℤ → ℤ → Engine R → Workload → Engine R × Workload × Option Response
      unfolding serve_mux shadow_middleware
      serve_request role r elapsed d e w =
          shadow_middleware registry (serve_mux role (some (engine_kit scale registry)) r elapsed) e
            w r.head d

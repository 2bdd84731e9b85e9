-- ===== src/Examples/Services.antt =====
-- Runs of the loaded service: its workload, its HTTP server and its start.
use itmo_master_research.Base.{
  ℕ, ◌-◌, ℤ, pos, negsuc, ◌≤ℤ◌, ◌<ℤ◌, ◌==◌, ◌≡◌, ◌↔◌, ◌⊎◌, refl, true, false, List, [], ◌∷◌, none,
  some, add64, arith, if◌then◌else◌,
}
use itmo_master_research.Base.Result.{ok, err}
use itmo_master_research.Envcfg.{Env}
use itmo_master_research.Warmkit.Types.{
  WorkloadProfile, registered, ready, InstanceRecord, MirrorConfig, Error,
}
use itmo_master_research.Warmkit.Registry.Memory.{
  MemoryRegistry, memory_registry, register_instance,
}
use itmo_master_research.Warmkit.Metrics.{new_shadow_metrics}
use itmo_master_research.Warmkit.Engine.{Engine, start, new_engine, readiness, is_shadow_request}
use itmo_master_research.Workload.{new_workload, run_profile}
use itmo_master_research.Workload.Cold.{IsBelow, new_workload-IsIndexed}
use itmo_master_research.Workload.Uses.{run_profile-panics}
use itmo_master_research.Httpserver.{
  HttpRequest, Wire, duration_ns, respond_json, status_text, error_text, parse_profile,
  serve_request,
}
use itmo_master_research.Httpserver.Requests.{get_from, requests, serve_request-work}
use itmo_master_research.Httpserver.Dropped.{requests-dropped}
use itmo_master_research.Httpserver.Shadow.{serve_request-shadow}
use itmo_master_research.Httpserver.Reset.{reset_from, serve_request-reset}
use itmo_master_research.Httpserver.Warming.{shadow_traffic, shadow_traffic-ready}
use itmo_master_research.Warmkit.ZkRegistry.{register_instance as register_record}
use itmo_master_research.Warmkit.ZkRegistry.Connecting.{Dialer, register_active}
use itmo_master_research.Zk.Tree.{Tree, tree_zk, instance_codec}
use itmo_master_research.LoadedService.{Running, as_active}
use itmo_master_research.Examples.Engines.{
  empty_registry, warmup_config, waiting, waiting-IsWaiting,
}

-- A generator that always gives the last number below its bound.
abbrev pub last_draw : ℤ → ℕ → ℕ → ℕ
last_draw seed n i = n - 1

pub last_draw-IsBelow : IsBelow last_draw
last_draw-IsBelow seed n i = omega arith

abbrev pub profile : WorkloadProfile
profile = record { seed = pos 3; samples = pos 3 }

run_profile-panics_example :
    ((run_profile last_draw (new_workload (pos 0)) profile (pos 9)).1 ≡ none)
    ↔ (((new_workload (pos 0)).index_keys ≤ℤ pos 0) × (pos 0 <ℤ pos 3))
run_profile-panics_example = run_profile-panics last_draw (new_workload (pos 0)) profile (pos 9)

-- A wire that reads every number as 3.
abbrev pub wire : Wire
wire = record {
  sscan = λ s. ok (pos 3);
  unmarshal = λ s. err "no JSON";
  encode = λ v. "{}";
  message = λ e. "error";
}

abbrev pub request : HttpRequest
request = record {
  head = record { method = "POST"; shadow_header = "1" };
  path = "reset" ∷ [];
  seed = "3";
  samples = "3";
  body = ok "";
}

pub parsed : parse_profile wire "3" "3" ≡ ok profile
unfolding parse_profile
parsed = refl

-- A run, a reset and a refused shadow request come before.
abbrev history : List (HttpRequest × ℤ × ℤ)
history =
    (get_from request "work" "1", pos 5, pos 6)
    ∷ (reset_from request "", pos 5, pos 6)
    ∷ (request, pos 5, pos 6)
    ∷ []

serve_request-work_example :
    let (e', w) =
      requests wire last_draw pos memory_registry "warmup" waiting (new_workload (pos 4)) history in
    let (_, w', answer) =
      serve_request wire last_draw pos memory_registry "warmup"
        (get_from request "work" "")
        (pos 5)
        (pos 6)
        e'
        w in
    (w'.index_cold ≡ false) × (answer ≡ some (respond_json wire 200 (duration_ns (pos 5))))
unfolding start new_engine register_instance
serve_request-work_example =
    serve_request-work wire last_draw pos memory_registry "warmup" last_draw-IsBelow history waiting
      4 3 request "" profile (pos 5) (pos 6) refl refl parsed

shadow : is_shadow_request request.head ≡ true
unfolding is_shadow_request
shadow = refl

serve_request-shadow_example :
    let w = new_workload (pos 4) in
    let (e', w', answer) =
      serve_request wire last_draw pos memory_registry "warmup" request (pos 5) (pos 6) waiting w in
    ((w'.index_built ≡ true) ⊎ (w'.index_built ≡ w.index_built))
    × ((e'.shadow.count ≡ waiting.shadow.count)
        ⊎ (e'.shadow.count ≡ add64 waiting.shadow.count (pos 1)))
    × (((request.head.method == "GET") ≡ true)
        ⊎ ((e' ≡ waiting)
            × (w' ≡ w)
            × (answer ≡ some (record { status = 403; body = "shadow mutations forbidden\n" }))))
serve_request-shadow_example =
    serve_request-shadow wire last_draw pos memory_registry "warmup" request (pos 5) (pos 6) waiting
      (new_workload (pos 4)) shadow

-- An engine whose window has the size -1.
abbrev windowless : Engine (MemoryRegistry ℕ)
windowless =
    new_engine memory_registry (record warmup_config { shadow_metrics_keep = negsuc 0 })
      empty_registry

requests-dropped_example :
    let (e', w') =
      requests wire last_draw pos memory_registry "warmup" windowless
        (new_workload (pos 4))
        history in
    (serve_request wire last_draw pos memory_registry "warmup"
      (get_from request "work" "1")
      (pos 5)
      (pos 6)
      e'
      w').2
    ≡ none
unfolding new_engine new_shadow_metrics is_shadow_request
requests-dropped_example =
    requests-dropped wire last_draw pos memory_registry "warmup" history windowless
      (new_workload (pos 4)) 0 (get_from request "work" "1") (pos 5) (pos 6) refl refl refl refl

serve_request-reset_example :
    let e = waiting in
    let w = new_workload (pos 4) in
    let (e', w', answer) =
      serve_request wire last_draw pos memory_registry "warmup"
        (reset_from request "")
        (pos 5)
        (pos 6)
        e
        w in
    let told =
      (memory_registry.update_instance_state e.reg e.cfg.service_name e.cfg.instance_id
        registered).1 in
    (w'.index ≡ [])
    × (w'.index_built ≡ false)
    × (w'.index_cold ≡ true)
    × (w'.index_keys ≡ w.index_keys)
    × (e'.fsm.state ≡ registered)
    × (e'.shadow.count ≡ pos 0)
    × (((told ≡ none)
          × (answer ≡ some (record { status = 200; body = wire.encode (status_text "reset") })))
        ⊎ ((x : Error) × (told ≡ some x)
            × (answer
                ≡ some
                    (record { status = 500; body = wire.encode (error_text (wire.message x)) }))))
    × ((serve_request wire last_draw pos memory_registry "warmup"
          (get_from request "readyz" "")
          (pos 1)
          (pos 2)
          e'
          w').2
        ≡ some (record { status = 503; body = "Registered" }))
unfolding start new_engine register_instance
serve_request-reset_example =
    serve_request-reset wire last_draw pos memory_registry request request "" "" (pos 5) (pos 6)
      (pos 1) (pos 2) waiting (new_workload (pos 4)) refl refl refl

shadow_traffic-ready_example :
    let (e', w') =
      requests wire last_draw pos
        (memory_registry {F = ℕ})
        "warmup"
        waiting
        (new_workload (pos 4))
        (shadow_traffic wire last_draw pos
          (memory_registry {F = ℕ})
          "warmup"
          request
          ((pos 5, pos 7) ∷ (pos 5, pos 8) ∷ [])) in
    (e'.fsm.state ≡ ready)
    × ((serve_request wire last_draw pos
          (memory_registry {F = ℕ})
          "warmup"
          (get_from request "readyz" "")
          (pos 1)
          (pos 2)
          e'
          w').2
        ≡ some (readiness (memory_registry {F = ℕ}) e'))
    × ((readiness (memory_registry {F = ℕ}) e').status ≡ 200)
unfolding start new_engine register_instance new_workload
shadow_traffic-ready_example =
    shadow_traffic-ready wire last_draw pos (memory_registry {F = ℕ}) "warmup" last_draw-IsBelow
      request request "" profile (pos 5) (pos 7) ((pos 5, pos 8) ∷ []) waiting
      (new_workload (pos 4)) 3 4 0 (pos 1) (pos 2) refl refl parsed
      (new_workload-IsIndexed (pos 4), refl) (omega arith) waiting-IsWaiting

-- Every variable is "x", but for the role; the profiler is off.
abbrev active_env : Env
active_env = record {
  lookup_env = λ key. if key == "DWSS_ROLE" then some "active" else some "x";
  atoi = λ s. some (pos 7);
  parse_int = λ s. some (pos 7);
  parse_bool = λ s. some false;
}

abbrev ServiceTree : Type 0
ServiceTree = Tree (MirrorConfig ℕ) InstanceRecord

abbrev direct : Dialer ServiceTree
direct = record { connect = λ s endpoints timeout. (s, none); close = λ s. s }

abbrev came_up : Running ServiceTree
came_up = record {
  settings = record {
    http_addr = "x";
    role = "active";
    instance_id = "x";
    mmap_file = "x";
    mmap_size_mb = pos 7;
    index_keys = pos 7;
    service_name = "x";
    zk_endpoints = "x" ∷ [];
    ready_after = pos 7;
    warmup_timeout = pos 7000000000;
    shadow_keep = pos 7;
  };
  work = new_workload (pos 7);
  pprof = none;
  attached =
      as_active
        (register_active tree_zk instance_codec direct [] ("x" ∷ []) (pos 7000000000) "x" "x" "x"
          (pos 1)).0;
}

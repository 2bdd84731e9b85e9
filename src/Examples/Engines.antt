-- ===== src/Examples/Engines.antt =====
-- Runs of the engine, its life cycle, its latency window and its registries.
use mathlib.Core.List.{Sublist}
use itmo_master_research.Base.{
  ◌/◌, ◌*◌, ℕ, ◌≡◌, refl, ◌⊎◌, inl, ◌==◌, ℤ, pos, ◌≤ℤ◌, Bool, true, ltb, List, [], ◌∷◌, none, some,
  arith,
}
use itmo_master_research.Base.Result.{ok}
use itmo_master_research.Warmkit.Types.{
  State, starting, registered, warming, ready, active, invalid_transition,
}
use itmo_master_research.Warmkit.Fsm.{new_fsm, transition, transitions}
use itmo_master_research.Warmkit.Fsm.Order.{Edge, transition_lem, transitions-active}
use itmo_master_research.Warmkit.Metrics.{new_shadow_metrics, p95_ns}
use itmo_master_research.Base.Rank.{IsRanked}
use itmo_master_research.Warmkit.Metrics.Window.{
  p95_ns_lem, p95_index, record_all, windowed, record_all_lem,
}
use itmo_master_research.Warmkit.Registry.Memory.{
  MemoryRegistry, memory_registry, memory_laws, stored, register_instance, update_instance_state,
}
use itmo_master_research.Warmkit.Engine.{Config, Engine, new_engine, start, shadow_middleware}
use itmo_master_research.Warmkit.Engine.Calls.{
  Call, starts, configures, times_out, serves, returns, panics, resets, call, calls, calls-earned,
}
use itmo_master_research.Warmkit.Engine.Agreement.{Agrees, calls-shown}
use itmo_master_research.Warmkit.Engine.Warmup.{shadow_get, IsWaiting}
use itmo_master_research.Warmkit.Engine.Race.{
  is_due, check_reset_advance, check_reset_advance-shows_ready,
}
use itmo_master_research.Warmkit.ZkRegistry.{
  write_mirror_config, read_mirror_config, put_mirror, ensure_path, mirror_path,
}
use itmo_master_research.Warmkit.ZkRegistry.RoundTrip.{read-write}
use itmo_master_research.Zk.Tree.{tree_zk, mirror_codec, tree_laws, mirror_laws}
use itmo_master_research.Examples.{blank_config, mirror_on_config}

abbrev pub empty_registry : MemoryRegistry ℕ
empty_registry = record { instances = []; mirror = blank_config; watch_ch = [] }

abbrev positive : ℕ → Bool
positive r = ltb 0 r

abbrev pub warmup_config : Config
warmup_config = record {
  service_name = "svc";
  instance_id = "b";
  listen_addr = ":8080";
  role = "warmup";
  ready_after = pos 2;
  warmup_timeout = pos 60;
  shadow_metrics_keep = pos 4;
}

-- The instance registers, and is warmed by two copies of requests.
abbrev warmed : List (Call ℕ)
warmed =
    starts (pos 1)
    ∷ serves shadow_get (returns (pos 30))
    ∷ serves shadow_get (returns (pos 20))
    ∷ []

abbrev after : Config → List (Call ℕ) → Engine (MemoryRegistry ℕ)
after cfg cs = calls memory_registry positive (new_engine memory_registry cfg empty_registry) cs

warmed-ready : (after warmup_config warmed).fsm.state ≡ ready
unfolding calls call start shadow_middleware new_engine register_instance
warmed-ready = refl

calls-earned_example :
    (after warmup_config warmed).cfg.ready_after ≤ℤ (after warmup_config warmed).shadow.count
calls-earned_example =
    calls-earned memory_registry positive warmup_config empty_registry warmed (omega arith)
      (inl warmed-ready)

started-ok :
    (start memory_registry (new_engine memory_registry warmup_config empty_registry) (pos 1)).1
    ≡ none
unfolding start new_engine register_instance update_instance_state
started-ok = refl

-- What follows the registration.
abbrev routine : List (Call ℕ)
routine =
    serves shadow_get (returns (pos 30))
    ∷ serves shadow_get panics
    ∷ resets
    ∷ configures mirror_on_config
    ∷ times_out
    ∷ []

calls-shown_example :
    let e =
      calls memory_registry positive
        (start memory_registry (new_engine memory_registry warmup_config empty_registry) (pos 1)).0
        routine in
    stored e.reg e.cfg.service_name e.cfg.instance_id ≡ some e.fsm.state
calls-shown_example =
    calls-shown memory_laws positive warmup_config empty_registry (pos 1) routine refl started-ok
      (tt, (tt, (tt, (tt, (tt, tt)))))

-- An engine that has registered and counted nothing.
abbrev pub waiting : Engine (MemoryRegistry ℕ)
waiting =
    (start memory_registry (new_engine memory_registry warmup_config empty_registry) (pos 1)).0

pub waiting-IsWaiting : IsWaiting memory_registry 4 0 2 waiting
unfolding start new_engine register_instance update_instance_state
waiting-IsWaiting = record { counted = refl; kept = refl; target = refl; open_state = inl refl }

-- An engine that is warming, with a record of that, and has counted what it waits for.
abbrev due_engine : Engine (MemoryRegistry ℕ)
due_engine = record waiting {
  fsm = record { state = warming };
  shadow = record { count = pos 2; latencies = []; max_keep = pos 4 };
  reg = (update_instance_state waiting.reg "svc" "b" warming).0;
}

due-Agrees : Agrees memory_laws due_engine
unfolding start new_engine register_instance update_instance_state stored
due-Agrees = record { shown = refl; lived = refl }

due-due : is_due memory_registry due_engine ≡ true
unfolding start new_engine register_instance
due-due = refl

due-role : (due_engine.cfg.role == "warmup") ≡ true
unfolding start new_engine register_instance
due-role = refl

check_reset_advance-shows_ready_example :
    let raced = check_reset_advance memory_registry due_engine in
    (raced.fsm.state ≡ registered)
    × (raced.shadow.count ≡ pos 0)
    × (stored raced.reg raced.cfg.service_name raced.cfg.instance_id ≡ some ready)
check_reset_advance-shows_ready_example =
    check_reset_advance-shows_ready memory_laws due_engine due-Agrees due-role due-due

transition_lem_example :
    (Edge starting warming × (transition new_fsm warming ≡ (record { state = warming }, none)))
    ⊎ ((¬ Edge starting warming)
        × (transition new_fsm warming ≡ (new_fsm, some (invalid_transition starting warming))))
unfolding new_fsm
transition_lem_example = transition_lem new_fsm warming

abbrev path : List State
path = registered ∷ active ∷ warming ∷ ready ∷ active ∷ []

path-active : (transitions new_fsm path).state ≡ active
unfolding transitions transition new_fsm
path-active = refl

transitions-active_example : Sublist (registered ∷ warming ∷ ready ∷ active ∷ []) path
transitions-active_example = transitions-active path path-active

abbrev samples : List ℤ
samples = pos 3 ∷ pos 9 ∷ pos 5 ∷ []

record_all_lem_example : record_all (new_shadow_metrics (pos 2)) samples ≡ windowed 2 samples
record_all_lem_example = record_all_lem 2 samples (omega arith)

-- 95 of 100 parts of an index.
abbrev scale : ℕ → ℤ
scale k = pos (k * 95 / 100)

p95_ns_lem_example :
    (((windowed 4 samples).latencies ≡ []) × (p95_ns scale (windowed 4 samples) ≡ some (pos 0)))
    ⊎ ((v : ℤ) × (p95_ns scale (windowed 4 samples) ≡ some v)
        × IsRanked v
            (p95_index scale (windowed 4 samples).latencies)
            (windowed 4 samples).latencies)
p95_ns_lem_example = p95_ns_lem scale (windowed 4 samples) (λ k. omega arith)

written : write_mirror_config (tree_zk {I = ℕ}) mirror_codec [] "svc" mirror_on_config (pos 5) ≡ (
  (write_mirror_config (tree_zk {I = ℕ}) mirror_codec [] "svc" mirror_on_config (pos 5)).0,
  none,
)
unfolding write_mirror_config put_mirror ensure_path mirror_path tree_zk mirror_codec
written = refl

read-write_example :
    read_mirror_config
      (tree_zk {I = ℕ})
      mirror_codec
      blank_config
      (write_mirror_config (tree_zk {I = ℕ}) mirror_codec [] "svc" mirror_on_config (pos 5)).0
      "svc"
    ≡ ok (record mirror_on_config { updated_at = pos 5 })
read-write_example =
    read-write tree_laws mirror_laws blank_config mirror_on_config []
      (write_mirror_config (tree_zk {I = ℕ}) mirror_codec [] "svc" mirror_on_config (pos 5)).0 "svc"
      (pos 5) written

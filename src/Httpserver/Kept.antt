-- ===== src/Httpserver/Kept.antt =====
-- The window of latencies of the engine of a server (httpserver/server.go over warmkit/engine.go):
-- no request changes its size.
use itmo_master_research.Base.{ℕ, ℤ, String, ◌==◌, ◌≡◌, ◌∙◌, inl, inr, not, Bool-cases, some}
use itmo_master_research.Base.Mux.{RouteMatch, handled, method_not_allowed, not_found}
use itmo_master_research.Warmkit.Types.{State, warming, ready}
use itmo_master_research.Warmkit.Metrics.{new_shadow_metrics, record_latency}
use itmo_master_research.Warmkit.Metrics.Window.{record_latency-count}
use itmo_master_research.Warmkit.Registry.{Registry}
use itmo_master_research.Warmkit.Engine.{
  Engine, advance, begin_warming, after_next, reset_benchmark,
}
use itmo_master_research.Warmkit.Engine.Rules.{
  begin_warming_rule, after_next_rule, shadow_middleware_rule,
}
use itmo_master_research.Workload.{Workload}
use itmo_master_research.Httpserver.{
  HttpRequest, Wire, Route, healthz_route, readyz_route, work_route, warmup_route, reset_route,
  state_route, handle_reset, handle, dispatch, serve_mux, serve_request, engine_kit,
}

-- A window of latencies of the size `k`, of the engine and of the next reset.
abbrev pub IsKept : {R : Type 0} → ℤ → Engine R → Type 0
IsKept k e = (e.cfg.shadow_metrics_keep ≡ k) × (e.shadow.max_keep ≡ k)

module _ {R : Type 0} (registry : Registry R) where
  advance-IsKept : (k : ℤ) (e : Engine R) (s : State) → IsKept k e → IsKept k (advance registry e s)
  unfolding advance
  advance-IsKept k e s i = i

  pub begin_warming-IsKept :
      (k : ℤ) (e : Engine R) → IsKept k e → IsKept k (begin_warming registry e)
  begin_warming-IsKept k e i =
      begin_warming_rule registry (IsKept k) e i (λ _. advance-IsKept k e warming i)

  after_next-IsKept :
      (k : ℤ) (e : Engine R) (d : ℤ) → IsKept k e → IsKept k (after_next registry e d)
  after_next-IsKept k e d i =
      let recorded = record e { shadow = (record_latency e.shadow d).0 } in
      let (counted, bound) = record_latency-count e.shadow d in
      let j : IsKept k recorded = (i.0, bound ∙ i.1) in
      after_next_rule registry (IsKept k) e d (j, λ _ _. advance-IsKept k recorded ready j)

  reset_benchmark-IsKept :
      (k : ℤ) (e : Engine R) → IsKept k e → IsKept k (reset_benchmark registry e).0
  unfolding reset_benchmark new_shadow_metrics
  reset_benchmark-IsKept k e i = elim (Bool-cases (not (e.cfg.role == "warmup"))) [
    | inl other_role ↦ rw other_role i
    | inr warmup ↦ rw warmup (i.0, i.0)
  ]

module _ (wire : Wire) (draw : ℤ → ℕ → ℕ → ℕ) (scale : ℕ → ℤ) {R : Type 0} (registry : Registry R)
    (role : String) where
  dispatch-IsKept :
      (k : ℤ) (e : Engine R) (w : Workload) (r : HttpRequest) (elapsed : ℤ)
      (found : RouteMatch Route)
      → IsKept k e
      → IsKept k (dispatch wire draw (some (engine_kit scale registry)) e w r elapsed found).0
  unfolding dispatch handle handle_reset
  dispatch-IsKept k e w r elapsed (handled healthz_route values) i = i
  dispatch-IsKept k e w r elapsed (handled readyz_route values) i = i
  dispatch-IsKept k e w r elapsed (handled work_route values) i = i
  dispatch-IsKept k e w r elapsed (handled warmup_route values) i = i
  dispatch-IsKept k e w r elapsed (handled reset_route values) i =
      reset_benchmark-IsKept registry k e i
  dispatch-IsKept k e w r elapsed (handled state_route values) i = i
  dispatch-IsKept k e w r elapsed method_not_allowed i = i
  dispatch-IsKept k e w r elapsed not_found i = i

  pub serve_request-IsKept :
      (k : ℤ) (r : HttpRequest) (elapsed d : ℤ) (e : Engine R) (w : Workload)
      → IsKept k e
      → IsKept k (serve_request wire draw scale registry role r elapsed d e w).0
  unfolding serve_request serve_mux
  serve_request-IsKept k r elapsed d e w i =
      shadow_middleware_rule registry (IsKept k) (IsKept k)
        (serve_mux wire draw role (some (engine_kit scale registry)) r elapsed) e w r.head d i
        (begin_warming-IsKept registry k e i) (λ x j. dispatch-IsKept k x w r elapsed _ j)
        (λ _ j. j) (λ x j. after_next-IsKept registry k x d j)

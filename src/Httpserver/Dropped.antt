-- ===== src/Httpserver/Dropped.antt =====
-- The shadow requests of a server whose window of latencies has a negative size (httpserver/server.go
-- inside the middleware of warmkit/engine.go, over warmkit/fsm.go).
use itmo_master_research.Base.{
  ℕ, ℤ, negsuc, String, eq_iff, ◌≡◌, refl, ap, ◌∙◌, inl, inr, true, List, Option-cases, none, some,
  arith,
}
use itmo_master_research.Warmkit.Metrics.{ShadowMetrics, record_latency}
use itmo_master_research.Warmkit.Registry.{Registry}
use itmo_master_research.Warmkit.Engine.{
  Engine, is_shadow_request, begin_warming, shadow_middleware,
}
use itmo_master_research.Workload.{Workload}
use itmo_master_research.Httpserver.{HttpRequest, Wire, serve_mux, serve_request, engine_kit}
use itmo_master_research.Httpserver.Kept.{begin_warming-IsKept}
use itmo_master_research.Httpserver.Requests.{requests, requests-IsKept}
use itmo_master_research.Httpserver.Shadow.{serve_mux-Left}

record_latency-panics :
    (m : ShadowMetrics) (d : ℤ) (k : ℕ) → m.max_keep ≡ negsuc k → (record_latency m d).1 ≡ true
unfolding record_latency
record_latency-panics m d k h = ground (arith, h)

module _ (wire : Wire) (draw : ℤ → ℕ → ℕ → ℕ) (scale : ℕ → ℤ) {R : Type 0} (registry : Registry R)
    (role : String) where
  serve_request-none :
      (r : HttpRequest) (elapsed d : ℤ) (e : Engine R) (w : Workload) (k : ℕ)
      → is_shadow_request r.head ≡ true
      → r.head.method ≡ "GET"
      → (begin_warming registry e).shadow.max_keep ≡ negsuc k
      → (serve_request wire draw scale registry role r elapsed d e w).2 ≡ none
  unfolding serve_request shadow_middleware
  serve_request-none r elapsed d e w k shadow get window =
      let begun = begin_warming registry e in
      let mux = serve_mux wire draw role (some (engine_kit scale registry)) r elapsed begun w in
      let (same, _) = serve_mux-Left wire draw scale registry role r elapsed begun w get in
      let panics =
        record_latency-panics mux.0.shadow d k
          (ap (λ (x : Engine R). x.shadow.max_keep) same ∙ window) in
      rw (shadow, (eq_iff r.head.method "GET").1 get)
        (elim (Option-cases mux.2) [
          | inl panicked ↦ rw panicked refl
          | inr (a, fine) ↦ rw fine (rw panics refl)
        ])

  -- Where the window of latencies has a negative size, after any history of requests a shadow GET
  -- to any path is not answered at all: the connection is dropped.
  pub requests-dropped :
      (rs : List (HttpRequest × ℤ × ℤ)) (e : Engine R) (w : Workload) (k : ℕ) (r : HttpRequest)
      (elapsed d : ℤ)
      → e.cfg.shadow_metrics_keep ≡ negsuc k
      → e.shadow.max_keep ≡ negsuc k
      → is_shadow_request r.head ≡ true
      → r.head.method ≡ "GET"
      → let (e', w') = requests wire draw scale registry role e w rs in
        (serve_request wire draw scale registry role r elapsed d e' w').2 ≡ none
  requests-dropped rs e w k r elapsed d next_window window shadow get =
      let (e', w') = requests wire draw scale registry role e w rs in
      let kept =
        requests-IsKept wire draw scale registry role (negsuc k) rs e w (next_window, window) in
      serve_request-none r elapsed d e' w' k shadow get
        (begin_warming-IsKept registry (negsuc k) e' kept).1

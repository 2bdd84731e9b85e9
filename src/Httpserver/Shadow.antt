-- ===== src/Httpserver/Shadow.antt =====
-- What a shadow request can do to a loaded service (httpserver/server.go over the middleware of
-- warmkit/engine.go): which routes it reaches, and what it leaves.
use itmo_master_research.Base.{
  ℕ, ℤ, pos, add64, String, ◌==◌, eq_iff, ◌≡◌, refl, sym, subst, ap, ◌∙◌, ◌⊎◌, inl, inr, Bool, true,
  ◌&&◌, Bool-cases, Option-cases, List, Option, some, arith,
}
use itmo_master_research.Base.Mux.{
  OfRoute, find_route-takes, RouteMatch, handled, method_not_allowed, not_found, takes_method,
  find_route,
}
use itmo_master_research.Warmkit.Metrics.{ShadowMetrics}
use itmo_master_research.Warmkit.Metrics.Window.{record_latency-count}
use itmo_master_research.Warmkit.Registry.{Registry}
use itmo_master_research.Warmkit.Engine.{
  Engine, Response, is_shadow_request, begin_warming, after_next, check_ready, shadow_middleware,
}
use itmo_master_research.Workload.{Workload, build_index}
use itmo_master_research.Httpserver.{
  HttpRequest, Wire, Kit, Route, healthz_route, readyz_route, work_route, warmup_route, reset_route,
  state_route, routes, handle, dispatch, serve_mux, serve_request, engine_kit,
}
use itmo_master_research.Httpserver.Requests.{handle_work-keeps}

-- The routes of the handlers that only read, and of the one that runs the workload.
abbrev IsSafe : Route → Type 0
IsSafe warmup_route = ⊥
IsSafe reset_route = ⊥
IsSafe _ = Unit

find_route-IsSafe :
    (role : String) (with_engine : Bool) (path : List String)
    → OfRoute IsSafe (find_route (routes role with_engine) "GET" path)
unfolding routes takes_method
find_route-IsSafe role with_engine path =
    let posted : takes_method "POST" "GET" ≡ true → ⊥ = λ e. ground (arith, e) in
    let free : true ≡ true → Unit {0} = λ _. tt in
    find_route-takes IsSafe (routes role with_engine) "GET" path (
      free,
      elim (Bool-cases ((role == "warmup") && with_engine)) [
        | inl with_ready ↦ rw with_ready (free, (free, (posted, (posted, (free, tt)))))
        | inr without ↦ rw without (free, (posted, (posted, (free, tt))))
      ],
    )

module _ (wire : Wire) (draw : ℤ → ℕ → ℕ → ℕ) {K : Type 0} (kit : Option (Kit K)) (k : K)
    (w : Workload) (r : HttpRequest) (elapsed : ℤ) where
  -- What a handler of a safe route may leave: the engine as it is, and an index that was there.
  abbrev pub Left : K × Workload × Option Response → Type 0
  Left (k', w', answer) = (k' ≡ k) × ((w'.index_built ≡ true) ⊎ (w'.index_built ≡ w.index_built))

  build_index-built : (x : Workload) → (build_index x).index_built ≡ true
  unfolding build_index
  build_index-built x = ground arith

  dispatch-Left :
      (found : RouteMatch Route)
      → OfRoute IsSafe found
      → Left (dispatch wire draw kit k w r elapsed found)
  unfolding dispatch handle
  dispatch-Left (handled healthz_route values) safe = (refl, inr refl)
  dispatch-Left (handled readyz_route values) safe = (refl, inr refl)
  dispatch-Left (handled work_route values) safe = (
    refl,
    handle_work-keeps wire draw
        (λ (x : Workload). (x.index_built ≡ true) ⊎ (x.index_built ≡ w.index_built))
        (λ x _. inl (build_index-built x)) w r elapsed (inr refl),
  )
  dispatch-Left (handled warmup_route values) safe = absurd safe
  dispatch-Left (handled reset_route values) safe = absurd safe
  dispatch-Left (handled state_route values) safe = (refl, inr refl)
  dispatch-Left method_not_allowed safe = (refl, inr refl)
  dispatch-Left not_found safe = (refl, inr refl)

module _ (wire : Wire) (draw : ℤ → ℕ → ℕ → ℕ) (scale : ℕ → ℤ) {R : Type 0} (registry : Registry R)
    (role : String) where
  pub serve_mux-Left :
      (r : HttpRequest) (elapsed : ℤ) (e : Engine R) (w : Workload)
      → r.head.method ≡ "GET"
      → let kit = some (engine_kit scale registry) in
        Left wire draw kit e w r elapsed (serve_mux wire draw role kit r elapsed e w)
  unfolding serve_mux
  serve_mux-Left r elapsed e w get =
      let kit = some (engine_kit scale registry) in
      dispatch-Left wire draw kit e w r elapsed (find_route (routes role true) r.head.method r.path)
        (subst (λ (m : String). OfRoute IsSafe (find_route (routes role true) m r.path)) (sym get)
          (find_route-IsSafe role true r.path))

  pub after_next-count :
      (e : Engine R) (d : ℤ) → (after_next registry e d).shadow.count ≡ add64 e.shadow.count (pos 1)
  unfolding after_next check_ready
  after_next-count e d =
      let (counted, _) = record_latency-count e.shadow d in ground (arith, counted)

  pub begin_warming-shadow : (e : Engine R) → (begin_warming registry e).shadow ≡ e.shadow
  unfolding begin_warming
  begin_warming-shadow e = ground arith

  -- A shadow request of any method to any path never resets: an index that is built stays, and the
  -- counter of shadow requests stays or grows by one. If its method is not GET it changes nothing at
  -- all and is answered 403.
  pub serve_request-shadow :
      (r : HttpRequest) (elapsed d : ℤ) (e : Engine R) (w : Workload)
      → is_shadow_request r.head ≡ true
      → let (e', w', answer) = serve_request wire draw scale registry role r elapsed d e w in
        ((w'.index_built ≡ true) ⊎ (w'.index_built ≡ w.index_built))
        × ((e'.shadow.count ≡ e.shadow.count) ⊎ (e'.shadow.count ≡ add64 e.shadow.count (pos 1)))
        × (((r.head.method == "GET") ≡ true)
            ⊎ ((e' ≡ e)
                × (w' ≡ w)
                × (answer ≡ some (record { status = 403; body = "shadow mutations forbidden\n" }))))
  unfolding serve_request shadow_middleware
  serve_request-shadow r elapsed d e w shadow = elim (Bool-cases (r.head.method == "GET")) [
    | inl get ↦
        let kit = some (engine_kit scale registry) in
        let begun = begin_warming registry e in
        let (same, kept) = serve_mux-Left r elapsed begun w ((eq_iff r.head.method "GET").0 get) in
        let counted =
          ap (λ (x : Engine R). x.shadow.count) same
          ∙ ap (λ (m : ShadowMetrics). m.count) (begin_warming-shadow e) in
        let next = (serve_mux wire draw role kit r elapsed begun w).0 in
        rw (shadow, get)
          (elim (Option-cases (serve_mux wire draw role kit r elapsed begun w).2) [
            | inl panicked ↦ rw panicked (kept, inl counted, inl refl)
            | inr (a, fine) ↦
                rw fine (
                  kept,
                  inr (after_next-count next d ∙ ap (λ z. add64 z (pos 1)) counted),
                  inl refl,
                )
          ])
    | inr other_method ↦ rw (shadow, other_method) (inr refl, inl refl, inr (refl, refl, refl))
  ]

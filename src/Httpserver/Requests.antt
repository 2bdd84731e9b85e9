-- ===== src/Httpserver/Requests.antt =====
-- Every history of requests to the loaded service (httpserver/server.go): what they do to the
-- workload, and what the next run of it answers.
use itmo_master_research.Base.{
  ℕ, suc, ℤ, pos, String, ◌==◌, ◌≡◌, refl, sym, ap, ◌∙◌, inl, inr, Bool, true, false, ◌&&◌,
  Bool-cases, Option-cases, List, [], ◌∷◌, Option, some,
}
use itmo_master_research.Base.Result.{ok, Result-cases}
use itmo_master_research.Base.Mux.{RouteMatch, handled, method_not_allowed, not_found, find_route}
use itmo_master_research.Warmkit.Types.{WorkloadProfile}
use itmo_master_research.Warmkit.Registry.{Registry}
use itmo_master_research.Warmkit.Engine.{Engine, Response, begin_warming}
use itmo_master_research.Warmkit.Metrics.Window.{record_latency_ok}
use itmo_master_research.Workload.{
  Workload, new_workload, build_index, run_profile, warm_profile, reset_cold,
}
use itmo_master_research.Workload.Cold.{
  IsIndexed, IsBelow, build_index-IsIndexed, reset_cold-IsIndexed, new_workload-IsIndexed,
}
use itmo_master_research.Workload.Uses.{run_profile-warm}
use itmo_master_research.Httpserver.Kept.{IsKept, begin_warming-IsKept, serve_request-IsKept}
use itmo_master_research.Httpserver.Middleware.{middleware_rest, middleware_get}
use itmo_master_research.Httpserver.{
  HttpRequest, Wire, Kit, Route, healthz_route, readyz_route, work_route, warmup_route, reset_route,
  state_route, routes, duration_ns, respond_json, parse_profile, read_profile, handle_work,
  handle_warmup, handle_reset, handle, dispatch, serve_mux, serve_request, engine_kit,
}

-- A GET request to a path of one segment; the rest is that of the request `r`.
abbrev pub get_from : HttpRequest → String → String → HttpRequest
get_from r name header = record r {
  head = record { method = "GET"; shadow_header = header };
  path = name ∷ [];
}

pub find_route-work :
    (role : String) (with_engine : Bool)
    → find_route (routes role with_engine) "GET" ("work" ∷ []) ≡ RouteMatch.handled work_route []
unfolding find_route routes
find_route-work role with_engine = elim (Bool-cases ((role == "warmup") && with_engine)) [
  | inl warmup_role ↦ rw warmup_role refl
  | inr other_role ↦ rw other_role refl
]

module _ (wire : Wire) (draw : ℤ → ℕ → ℕ → ℕ) (P : Workload → Type 0)
    (builds : (w : Workload) → P w → P (build_index w)) where
  pub handle_work-keeps :
      (w : Workload) (r : HttpRequest) (elapsed : ℤ) → P w → P (handle_work wire draw w r elapsed).0
  unfolding handle_work run_profile
  handle_work-keeps w r elapsed p = elim (Result-cases (parse_profile wire r.seed r.samples)) [
    | inl (x, fine) ↦ rw (fine, handle_work) (builds w p)
    | inr (e, bad) ↦ rw (bad, handle_work) p
  ]

  handle_warmup-keeps : (w : Workload) (r : HttpRequest) → P w → P (handle_warmup wire draw w r).0
  unfolding handle_warmup warm_profile run_profile
  handle_warmup-keeps w r p = elim (Result-cases (read_profile wire r)) [
    | inl (x, fine) ↦ rw (fine, handle_warmup) (builds w p)
    | inr (e, bad) ↦ rw (bad, handle_warmup) p
  ]

  module _ (colds : (w : Workload) → P w → P (reset_cold w)) where
    module _ {K : Type 0} (kit : Option (Kit K)) (k : K) (w : Workload) (r : HttpRequest)
        (elapsed : ℤ) where
      handle_reset-keeps : P w → P (handle_reset wire kit k w).1
      unfolding handle_reset
      handle_reset-keeps p = elim (Option-cases kit) [
        | inl bare ↦ rw bare (colds w p)
        | inr (x, with_kit) ↦ rw with_kit (colds w p)
      ]

      handle-keeps : (route : Route) → P w → P (handle wire draw kit k w r elapsed route).1
      unfolding handle
      handle-keeps healthz_route p = p
      handle-keeps readyz_route p = p
      handle-keeps work_route p = handle_work-keeps w r elapsed p
      handle-keeps warmup_route p = handle_warmup-keeps w r p
      handle-keeps reset_route p = handle_reset-keeps p
      handle-keeps state_route p = p

      dispatch-keeps :
          (found : RouteMatch Route) → P w → P (dispatch wire draw kit k w r elapsed found).1
      unfolding dispatch
      dispatch-keeps (handled route values) p = handle-keeps route p
      dispatch-keeps method_not_allowed p = p
      dispatch-keeps not_found p = p

    pub serve_request-keeps :
        {R : Type 0} (scale : ℕ → ℤ) (registry : Registry R) (role : String) (r : HttpRequest)
        (elapsed d : ℤ) (e : Engine R) (w : Workload)
        → P w
        → P (serve_request wire draw scale registry role r elapsed d e w).1
    unfolding serve_request serve_mux
    serve_request-keeps scale registry role r elapsed d e w p =
        middleware_rest registry P
          (serve_mux wire draw role (some (engine_kit scale registry)) r elapsed) e w r.head d p
          (λ x. dispatch-keeps (some (engine_kit scale registry)) x w r elapsed _ p)

module _ (wire : Wire) (draw : ℤ → ℕ → ℕ → ℕ) (scale : ℕ → ℤ) {R : Type 0} (registry : Registry R)
    (role : String) where
  -- A history of requests, each with the time of its run and that of its handler.
  unfoldable pub requests : Engine R → Workload → List (HttpRequest × ℤ × ℤ) → Engine R × Workload
  requests e w [] = (e, w)
  requests e w ((r, elapsed, d) ∷ rs) =
      let (e', w', answer) = serve_request wire draw scale registry role r elapsed d e w in
      requests e' w' rs

  -- A workload of `n` keys, sound.
  abbrev pub IsOf : ℤ → Workload → Type 0
  IsOf n w = IsIndexed w × (w.index_keys ≡ n)

  pub serve_request-IsOf :
      (n : ℤ) (r : HttpRequest) (elapsed d : ℤ) (e : Engine R) (w : Workload)
      → IsOf n w
      → IsOf n (serve_request wire draw scale registry role r elapsed d e w).1
  unfolding reset_cold
  serve_request-IsOf n r elapsed d e w i =
      serve_request-keeps wire draw (IsOf n)
        (λ x (j, m). let (k, _, kept) = build_index-IsIndexed x j in (k, kept ∙ m))
        (λ x (j, m). (reset_cold-IsIndexed x, m)) scale registry role r elapsed d e w i

  requests-IsOf :
      (n : ℤ) (rs : List (HttpRequest × ℤ × ℤ)) (e : Engine R) (w : Workload)
      → IsOf n w
      → IsOf n (requests e w rs).1
  unfolding requests
  requests-IsOf n [] e w i = i
  requests-IsOf n ((r, elapsed, d) ∷ rs) e w i =
      let (e', w', answer) = serve_request wire draw scale registry role r elapsed d e w in
      requests-IsOf n rs e' w' (serve_request-IsOf n r elapsed d e w i)

  pub handle_work-warm :
      IsBelow draw
      → (w : Workload) (keys : ℕ) (r : HttpRequest) (p : WorkloadProfile) (elapsed : ℤ)
      → IsOf (pos (suc keys)) w
      → parse_profile wire r.seed r.samples ≡ ok p
      → (handle_work wire draw w r elapsed
          ≡ (build_index w, some (respond_json wire 200 (duration_ns elapsed))))
        × ((build_index w).index_cold ≡ false)
  unfolding handle_work
  handle_work-warm below w keys r p elapsed (i, n) parsed =
      let (returns, warm, _) = run_profile-warm draw below w p elapsed keys i n in
      (
        rw (parsed, handle_work, returns) refl,
        sym (ap (λ (x : Workload × Option ℤ). x.0.index_cold) returns) ∙ warm,
      )

  pub serve_mux-work :
      (r : HttpRequest) (header : String) (elapsed : ℤ) (e : Engine R) (w : Workload)
      → serve_mux wire draw role
          (some (engine_kit scale registry))
          (get_from r "work" header)
          elapsed
          e
          w
        ≡ (let (w', answer) = handle_work wire draw w r elapsed in (e, w', answer))
  unfolding serve_mux dispatch handle handle_work
  serve_mux-work r header elapsed e w = rw (find_route-work role true) refl

  pub requests-IsKept :
      (k : ℤ) (rs : List (HttpRequest × ℤ × ℤ)) (e : Engine R) (w : Workload)
      → IsKept k e
      → IsKept k (requests e w rs).0
  unfolding requests
  requests-IsKept k [] e w i = i
  requests-IsKept k ((r, elapsed, d) ∷ rs) e w i =
      let (e', w', answer) = serve_request wire draw scale registry role r elapsed d e w in
      requests-IsKept k rs e' w'
        (serve_request-IsKept wire draw scale registry role k r elapsed d e w i)

  -- A GET /work on a sound workload.
  pub serve_request-run :
      IsBelow draw
      → (e : Engine R) (w : Workload) (keys : ℕ) (r : HttpRequest) (header : String)
        (p : WorkloadProfile) (elapsed d : ℤ)
      → IsOf (pos (suc keys)) w
      → parse_profile wire r.seed r.samples ≡ ok p
      → let (_, w', answer) =
          serve_request wire draw scale registry role (get_from r "work" header) elapsed d e w in
        (w'.index_cold ≡ false)
        × ((k : ℕ) → IsKept (pos k) e → answer ≡ some (respond_json wire 200 (duration_ns elapsed)))
  unfolding serve_request
  serve_request-run below e w keys r header p elapsed d i parsed =
      let (runs, warm) = handle_work-warm below w keys r p elapsed i parsed in
      let mux =
        serve_mux wire draw role (some (engine_kit scale registry)) (get_from r "work" header)
          elapsed in
      let (kept, answered) =
        middleware_get registry mux e w (build_index w) header d
          (some (respond_json wire 200 (duration_ns elapsed)))
          (λ x.
            let muxed = serve_mux-work r header elapsed x w in
            (
              ap (λ (t : Engine R × Workload × Option Response). t.1) muxed
                  ∙ ap (λ (t : Workload × Option Response). t.0) runs,
              ap (λ (t : Engine R × Workload × Option Response). t.2) muxed
                  ∙ ap (λ (t : Workload × Option Response). t.1) runs,
            )) in
      let begun = begin_warming registry e in
      let same =
        ap (λ (t : Engine R × Workload × Option Response). t.0.shadow.max_keep)
          (serve_mux-work r header elapsed begun w) in
      (
        ap (λ (x : Workload). x.index_cold) kept ∙ warm,
        λ k j. answered (
            record_latency_ok (mux begun w).0.shadow d k
              (same ∙ (begin_warming-IsKept registry (pos k) e j).1)),
      )

  -- After any history of requests, shadow requests, resets and panics among them, a server whose
  -- engine keeps a window of latencies of a size that is not negative, whose workload has at least
  -- one key, and whose generator stays below its bound, answers a GET /work whose query can be
  -- parsed with 200 and the time of the run, shadow request or not, and its workload is warm then.
  pub serve_request-work :
      IsBelow draw
      → (rs : List (HttpRequest × ℤ × ℤ)) (e : Engine R) (k keys : ℕ) (r : HttpRequest)
        (header : String) (p : WorkloadProfile) (elapsed d : ℤ)
      → e.cfg.shadow_metrics_keep ≡ pos k
      → e.shadow.max_keep ≡ pos k
      → parse_profile wire r.seed r.samples ≡ ok p
      → let (e', w) = requests e (new_workload (pos (suc keys))) rs in
        let (_, w', answer) =
          serve_request wire draw scale registry role (get_from r "work" header) elapsed d e' w in
        (w'.index_cold ≡ false) × (answer ≡ some (respond_json wire 200 (duration_ns elapsed)))
  unfolding new_workload
  serve_request-work below rs e k keys r header p elapsed d next_window window parsed =
      let n = pos (suc keys) in
      let (e', w) = requests e (new_workload n) rs in
      let i = requests-IsOf n rs e (new_workload n) (new_workload-IsIndexed n, refl) in
      let (warm, answered) = serve_request-run below e' w keys r header p elapsed d i parsed in
      (warm, answered k (requests-IsKept (pos k) rs e (new_workload n) (next_window, window)))

-- ===== src/Httpserver/Warming.antt =====
-- Shadow traffic on the workload warms a loaded service up: httpserver/server.go,
-- workload/engine.go and warmkit/engine.go together.
use itmo_master_research.Base.{
  ℕ, suc, ◌+◌, ◌<◌, ℤ, pos, two63, String, ◌==◌, ◌≡◌, refl, ap, ◌∙◌, true, false, List, [], ◌∷◌,
  length, Option, some,
}
use itmo_master_research.Base.Result.{ok}
use itmo_master_research.Warmkit.Types.{WorkloadProfile, ready}
use itmo_master_research.Warmkit.Registry.{Registry}
use itmo_master_research.Warmkit.Engine.{
  Engine, Response, readiness, is_shadow_request, begin_warming, after_next, shadow_middleware,
}
use itmo_master_research.Warmkit.Engine.Calls.{returns, serve}
use itmo_master_research.Warmkit.Engine.Warmup.{serve_all, serve_all-ready, shadow_get, IsWaiting}
use itmo_master_research.Workload.{Workload}
use itmo_master_research.Workload.Cold.{IsBelow}
use itmo_master_research.Httpserver.{HttpRequest, Wire, parse_profile, serve_request}
use itmo_master_research.Httpserver.Requests.{
  get_from, requests, IsOf, serve_request-IsOf, serve_mux-work, handle_work-warm,
}
use itmo_master_research.Httpserver.Reset.{serve_request-readyz}

module _ (wire : Wire) (draw : ℤ → ℕ → ℕ → ℕ) (scale : ℕ → ℤ) {R : Type 0} (registry : Registry R)
    (role : String) where
  -- The shadow_traffic request is a shadow GET /work; each comes with the times of its run and its handler.
  unfoldable pub shadow_traffic : HttpRequest → List (ℤ × ℤ) → List (HttpRequest × ℤ × ℤ)
  shadow_traffic r [] = []
  shadow_traffic r ((elapsed, d) ∷ ts) = (get_from r "work" "1", elapsed, d) ∷ shadow_traffic r ts

  -- The times of the handlers.
  abbrev pub handler_times : List (ℤ × ℤ) → List ℤ
  handler_times [] = []
  handler_times ((elapsed, d) ∷ ts) = d ∷ handler_times ts

  pub serve_request-serve :
      IsBelow draw
      → (r : HttpRequest) (p : WorkloadProfile) (elapsed d : ℤ) (e : Engine R) (w : Workload)
        (keys : ℕ)
      → parse_profile wire r.seed r.samples ≡ ok p
      → IsOf wire draw scale registry role (pos (suc keys)) w
      → (serve_request wire draw scale registry role (get_from r "work" "1") elapsed d e w).0
        ≡ serve registry {F = ℕ} (λ _. true) e shadow_get (returns d)
  unfolding serve_request shadow_middleware is_shadow_request
  serve_request-serve below r p elapsed d e w keys parsed i =
      let (runs, _) =
        handle_work-warm wire draw scale registry role below w keys r p elapsed i parsed in
      let begun = begin_warming registry e in
      let muxed = serve_mux-work wire draw scale registry role r "1" elapsed begun w in
      let answered =
        ap (λ (t : Engine R × Workload × Option Response). t.2) muxed
        ∙ ap (λ (t : Workload × Option Response). t.1) runs in
      rw answered
        (ap (λ (t : Engine R × Workload × Option Response). after_next registry t.0 d) muxed)

  shadow_traffic-serve_all :
      IsBelow draw
      → (r : HttpRequest) (p : WorkloadProfile) (ts : List (ℤ × ℤ)) (e : Engine R) (w : Workload)
        (keys : ℕ)
      → parse_profile wire r.seed r.samples ≡ ok p
      → IsOf wire draw scale registry role (pos (suc keys)) w
      → (requests wire draw scale registry role e w (shadow_traffic r ts)).0
        ≡ serve_all registry e (handler_times ts)
  unfolding requests shadow_traffic serve_all
  shadow_traffic-serve_all below r p [] e w keys parsed i = refl
  shadow_traffic-serve_all below r p ((elapsed, d) ∷ ts) e w keys parsed i =
      let q = get_from r "work" "1" in
      let (e', w', answer) = serve_request wire draw scale registry role q elapsed d e w in
      shadow_traffic-serve_all below r p ts e' w' keys parsed
        (serve_request-IsOf wire draw scale registry role (pos (suc keys)) q elapsed d e w i)
      ∙ ap (λ (x : Engine R). serve_all registry x (handler_times ts))
          (serve_request-serve below r p elapsed d e w keys parsed i)

  -- A server of role warmup with a generator that stays below its bound, a sound workload of at
  -- least one key, and an engine that is registered or warming and waits for as many requests as
  -- are sent: after these shadow GET /work, of a query that can be parsed and whatever times they
  -- take, the engine is ready, and a GET /readyz that is no shadow request is answered with its
  -- readiness, which is 200. The window of latencies has a size that is not negative, and the
  -- counter does not overflow.
  pub shadow_traffic-ready :
      IsBelow draw
      → (r r' : HttpRequest) (header : String) (p : WorkloadProfile) (elapsed' d' : ℤ)
        (ts : List (ℤ × ℤ)) (e : Engine R) (w : Workload) (keys k c : ℕ) (elapsed d : ℤ)
      → (role == "warmup") ≡ true
      → (header == "1") ≡ false
      → parse_profile wire r.seed r.samples ≡ ok p
      → IsOf wire draw scale registry role (pos (suc keys)) w
      → c + length (d' ∷ handler_times ts) < two63
      → IsWaiting registry k c (length (d' ∷ handler_times ts)) e
      → let (e', w') =
          requests wire draw scale registry role e w (shadow_traffic r ((elapsed', d') ∷ ts)) in
        (e'.fsm.state ≡ ready)
        × ((serve_request wire draw scale registry role
              (get_from r' "readyz" header)
              elapsed
              d
              e'
              w').2
            ≡ some (readiness registry e'))
        × ((readiness registry e').status ≡ 200)
  shadow_traffic-ready below r r' header p elapsed' d' ts e w keys k c elapsed d warmup plain parsed
        i h waits =
      let (e', w') =
        requests wire draw scale registry role e w (shadow_traffic r ((elapsed', d') ∷ ts)) in
      let same = shadow_traffic-serve_all below r p ((elapsed', d') ∷ ts) e w keys parsed i in
      let (at, open_probe) = serve_all-ready registry k c d' (handler_times ts) e h waits in
      (
        ap (λ (x : Engine R). x.fsm.state) same ∙ at,
        ap (λ (x : Engine R × Workload × Option Response). x.2)
            (serve_request-readyz wire draw scale registry role r' header elapsed d e' w' warmup
              plain),
        ap (λ (x : Engine R). (readiness registry x).status) same ∙ open_probe,
      )

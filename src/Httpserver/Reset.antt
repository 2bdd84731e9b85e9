-- ===== src/Httpserver/Reset.antt =====
-- `POST /reset` and what the next requests see of it (httpserver/server.go over warmkit/engine.go).
use itmo_master_research.Base.{
  ℕ, ℤ, pos, String, ◌==◌, ◌≡◌, refl, ap, ◌∙◌, inl, inr, Bool, true, false, ◌&&◌, Bool-cases, [],
  ◌∷◌, Option, none, some, ◌⊎◌,
}
use itmo_master_research.Base.Mux.{RouteMatch, find_route}
use itmo_master_research.Warmkit.Types.{registered, state_eq, Error}
use itmo_master_research.Warmkit.Fsm.{force}
use itmo_master_research.Warmkit.Metrics.{new_shadow_metrics}
use itmo_master_research.Warmkit.Registry.{Registry}
use itmo_master_research.Warmkit.Engine.{
  Engine, Response, readiness, reset_benchmark, is_shadow_request, shadow_middleware,
}
use itmo_master_research.Workload.{Workload, reset_cold}
use itmo_master_research.Httpserver.{
  HttpRequest, Wire, status_text, error_text, reset_route, readyz_route, routes, reset_answer,
  handle_reset, handle, dispatch, serve_mux, serve_request,
}
use itmo_master_research.Httpserver.Requests.{get_from}

-- A POST request to `/reset`; the rest is that of `r`.
abbrev pub reset_from : HttpRequest → String → HttpRequest
reset_from r header = record r {
  head = record { method = "POST"; shadow_header = header };
  path = "reset" ∷ [];
}

find_route-reset :
    (role : String) (with_engine : Bool)
    → find_route (routes role with_engine) "POST" ("reset" ∷ []) ≡ RouteMatch.handled reset_route []
unfolding find_route routes
find_route-reset role with_engine = elim (Bool-cases ((role == "warmup") && with_engine)) [
  | inl with_ready ↦ rw with_ready refl
  | inr without ↦ rw without refl
]

pub find_route-readyz :
    (role : String)
    → (role == "warmup") ≡ true
    → find_route (routes role true) "GET" ("readyz" ∷ []) ≡ RouteMatch.handled readyz_route []
unfolding find_route routes
find_route-readyz role h = rw h refl

module _ (wire : Wire) (draw : ℤ → ℕ → ℕ → ℕ) (scale : ℕ → ℤ) {R : Type 0}
    (registry : Registry R) where
  pub serve_request-readyz :
      (role : String) (r : HttpRequest) (header : String) (elapsed d : ℤ) (e : Engine R)
      (w : Workload)
      → (role == "warmup") ≡ true
      → (header == "1") ≡ false
      → serve_request wire draw scale registry role (get_from r "readyz" header) elapsed d e w
        ≡ (e, w, some (readiness registry e))
  unfolding serve_request serve_mux dispatch handle shadow_middleware is_shadow_request
  serve_request-readyz role r header elapsed d e w warmup plain =
      rw (plain, find_route-readyz role warmup) refl

  serve_request-reset_benchmark :
      (role : String) (r : HttpRequest) (header : String) (elapsed d : ℤ) (e : Engine R)
      (w : Workload)
      → (header == "1") ≡ false
      → serve_request wire draw scale registry role (reset_from r header) elapsed d e w ≡ (
          let (e', failed) = reset_benchmark registry e in
          (e', reset_cold w, some (reset_answer wire failed)))
  unfolding serve_request serve_mux dispatch handle handle_reset shadow_middleware is_shadow_request
  serve_request-reset_benchmark role r header elapsed d e w plain =
      rw (plain, find_route-reset role true) refl

  -- An engine of role warmup after its reset.
  reset_benchmark-cold :
      (e : Engine R)
      → (e.cfg.role == "warmup") ≡ true
      → let (e', failed) = reset_benchmark registry e in
        (e'.fsm.state ≡ registered)
        × (e'.shadow.count ≡ pos 0)
        × (failed
            ≡ (registry.update_instance_state e.reg e.cfg.service_name e.cfg.instance_id
                registered).1)
        × (readiness registry e' ≡ record { status = 503; body = "Registered" })
  unfolding reset_benchmark force new_shadow_metrics readiness state_eq
  reset_benchmark-cold e warmup = rw warmup (refl, refl, refl, refl)

  reset_cold-gone :
      (w : Workload)
      → ((reset_cold w).index ≡ [])
        × ((reset_cold w).index_built ≡ false)
        × ((reset_cold w).index_cold ≡ true)
        × ((reset_cold w).index_keys ≡ w.index_keys)
  unfolding reset_cold
  reset_cold-gone w = (refl, refl, refl, refl)

  reset_answer-cases :
      (told : Option Error)
      → ((told ≡ none)
          × (reset_answer wire told
              ≡ record { status = 200; body = wire.encode (status_text "reset") }))
        ⊎ ((x : Error) × (told ≡ some x)
            × (reset_answer wire told
                ≡ record { status = 500; body = wire.encode (error_text (wire.message x)) }))
  reset_answer-cases none = inl (refl, refl)
  reset_answer-cases (some x) = inr (x, refl, refl)

  -- On a server of role warmup, a reset by a request that is no shadow request leaves an empty,
  -- unbuilt and cold index for as many keys as before, sets the engine back to `Registered` with no
  -- request counted, and answers 200 with the status "reset" if the registry was told, or 500 with
  -- the message of its error if it could not be told; the next readiness probe that is no shadow
  -- request is answered 503 with `Registered`.
  pub serve_request-reset :
      (r r' : HttpRequest) (header header' : String) (elapsed d elapsed' d' : ℤ) (e : Engine R)
      (w : Workload)
      → (e.cfg.role == "warmup") ≡ true
      → (header == "1") ≡ false
      → (header' == "1") ≡ false
      → let role = e.cfg.role in
        let (e', w', answer) =
          serve_request wire draw scale registry role (reset_from r header) elapsed d e w in
        let told =
          (registry.update_instance_state e.reg e.cfg.service_name e.cfg.instance_id
            registered).1 in
        (w'.index ≡ [])
        × (w'.index_built ≡ false)
        × (w'.index_cold ≡ true)
        × (w'.index_keys ≡ w.index_keys)
        × (e'.fsm.state ≡ registered)
        × (e'.shadow.count ≡ pos 0)
        × (((told ≡ none)
              × (answer ≡ some (record { status = 200; body = wire.encode (status_text "reset") })))
            ⊎ ((x : Error) × (told ≡ some x)
                × (answer
                    ≡ some (record {
                      status = 500;
                      body = wire.encode (error_text (wire.message x));
                    }))))
        × ((serve_request wire draw scale registry role
              (get_from r' "readyz" header')
              elapsed'
              d'
              e'
              w').2
            ≡ some (record { status = 503; body = "Registered" }))
  serve_request-reset r r' header header' elapsed d elapsed' d' e w warmup plain plain' =
      let runs = serve_request-reset_benchmark e.cfg.role r header elapsed d e w plain in
      let (cold, zero_count, told, unready) = reset_benchmark-cold e warmup in
      let (e', w', answer) =
        serve_request wire draw scale registry e.cfg.role (reset_from r header) elapsed d e w in
      let probe = serve_request-readyz e.cfg.role r' header' elapsed' d' e' w' warmup plain' in
      let reached = ap (λ (t : Engine R × Workload × Option Response). t.0) runs in
      let left = ap (λ (t : Engine R × Workload × Option Response). t.1) runs in
      let gone = reset_cold-gone w in
      let answered =
        ap (λ (t : Engine R × Workload × Option Response). t.2) runs
        ∙ ap (λ failed. some (reset_answer wire failed)) told in
      (
        ap (λ (x : Workload). x.index) left ∙ gone.0,
        ap (λ (x : Workload). x.index_built) left ∙ gone.1,
        ap (λ (x : Workload). x.index_cold) left ∙ gone.2,
        ap (λ (x : Workload). x.index_keys) left ∙ gone.3,
        ap (λ (x : Engine R). x.fsm.state) reached ∙ cold,
        ap (λ (x : Engine R). x.shadow.count) reached ∙ zero_count,
        elim (reset_answer-cases
            (registry.update_instance_state e.reg e.cfg.service_name e.cfg.instance_id
              registered).1) [
                | inl (fine, said) ↦ inl (fine, answered ∙ ap some said)
                | inr (x, failed, said) ↦ inr (x, failed, answered ∙ ap some said)
              ],
        ap (λ (t : Engine R × Workload × Option Response). t.2) probe
            ∙ ap (λ x. some (readiness registry x)) reached
            ∙ ap some unready,
      )

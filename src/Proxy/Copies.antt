-- ===== src/Proxy/Copies.antt =====
-- The copies that the proxy sends (cmd/mirror-proxy/main.go), as the loaded service takes them
-- (LoadedService/internal/httpserver/server.go inside the middleware of warmkit/engine.go).
use itmo_master_research.Base.{
  ℕ, suc, ℤ, pos, add64, String, ◌≡◌, refl, ap, ◌∙◌, ◌⊎◌, inl, inr, Bool, false, [], ◌∷◌, Option,
  none, some, Option-cases, arith,
}
use Prim.Native.String.{◌++◌ as concat}
use itmo_master_research.Base.Float.{Float64}
use itmo_master_research.Base.Result.{ok}
use itmo_master_research.Warmkit.Types.{WorkloadProfile}
use itmo_master_research.Warmkit.Metrics.{ShadowMetrics}
use itmo_master_research.Warmkit.Registry.{Registry}
use itmo_master_research.Warmkit.Engine.{Engine, begin_warming}
use itmo_master_research.Warmkit.Engine.Warmup.{serve-shadow_get}
use itmo_master_research.Workload.{Workload}
use itmo_master_research.Workload.Cold.{IsBelow}
use itmo_master_research.Httpserver.{HttpRequest, Wire, parse_profile, serve_request}
use itmo_master_research.Httpserver.Requests.{get_from, IsOf, serve_request-run}
use itmo_master_research.Httpserver.Shadow.{after_next-count, begin_warming-shadow}
use itmo_master_research.Httpserver.Warming.{serve_request-serve}
use itmo_master_research.Proxy.{Router, Relay, Copy, serve_http, mirror_request}

-- What net/http carries of a copy of a GET /work with a query that can be parsed: its method, its
-- shadow header, its path and its query.
pub record IsCarried (wire : Wire) (profile : WorkloadProfile) (c : Copy) (q : HttpRequest)
    : Type 0 where
  pub method : q.head.method ≡ c.method
  pub shadow_header : q.head.shadow_header ≡ c.shadow_header
  pub path : q.path ≡ "work" ∷ []
  pub query : parse_profile wire q.seed q.samples ≡ ok profile

module _ {F : Type 0} (float : Float64 F) (parses : String → Bool)
    (reprint : String → Option String) (accepts : String → Bool)
    (arrive : Copy → Option HttpRequest) (wire : Wire) (draw : ℤ → ℕ → ℕ → ℕ) (scale : ℕ → ℤ)
    {R : Type 0} (registry : Registry R) (role : String) where
  -- `mirrorRequest`: what the service gets of the copy; none where the request is not made, or
  -- where `client.Do` fails before it reaches the service. `arrive` is net/http on both ends,
  -- which delivers a copy at most once.
  unfoldable pub sent_request : String → Option String → Option HttpRequest
  unfolding mirror_request
  sent_request uri none = none
  sent_request uri (some addr) = elim (mirror_request reprint accepts uri addr) [
    | none ↦ none
    | some c ↦ arrive c
  ]

  -- The service that the copy is for has this engine and this workload.
  unfoldable pub take_copy : Option HttpRequest → ℤ → ℤ → Engine R → Workload → Engine R × Workload
  unfolding serve_request
  take_copy none elapsed d e w = (e, w)
  take_copy (some q) elapsed d e w =
      let (e', w', answer) = serve_request wire draw scale registry role q elapsed d e w in (e', w')

  -- A client's request of a method to a URI goes through the proxy: what becomes of the service at
  -- the address that the proxy copies to.
  unfoldable pub pass_request :
      Router F → String → F → Relay → String → ℤ → ℤ → Engine R → Workload → Engine R × Workload
  unfolding serve_http sent_request take_copy
  pass_request p method random relay uri elapsed d e w =
      take_copy (sent_request uri (serve_http float parses p method random relay).mirrored) elapsed
        d e w

  mirror_request-shadow :
      (uri addr : String) (c : Copy)
      → mirror_request reprint accepts uri addr ≡ some c
      → (c.method ≡ "GET") × (c.shadow_header ≡ "1")
  unfolding mirror_request
  mirror_request-shadow uri addr c h =
      elim (Option-cases (reprint (concat "http://" (concat addr uri)))) [
        | inl no_url ↦ absurd (ground (arith, no_url, h))
        | inr (url, e) ↦ ground (arith, e, h)
      ]

  get_from-head :
      (q : HttpRequest) (header : String)
      → q.head.method ≡ "GET"
      → q.head.shadow_header ≡ header
      → q.path ≡ "work" ∷ []
      → q ≡ get_from q "work" header
  get_from-head q header get shadow at = ground (arith, get, shadow, at)

  sent_request-unmade :
      (uri addr : String)
      → mirror_request reprint accepts uri addr ≡ none
      → sent_request uri (some addr) ≡ none
  unfolding sent_request
  sent_request-unmade uri addr h = rw (h, sent_request) refl

  sent_request-made :
      (uri addr : String) (c : Copy)
      → mirror_request reprint accepts uri addr ≡ some c
      → sent_request uri (some addr) ≡ arrive c
  unfolding sent_request
  sent_request-made uri addr c h = rw (h, sent_request) refl

  sent_request-none : (uri : String) → sent_request uri none ≡ none
  unfolding sent_request
  sent_request-none uri = refl

  take_copy-counts :
      IsBelow draw
      → (q : HttpRequest) (profile : WorkloadProfile) (elapsed d : ℤ) (e : Engine R) (w : Workload)
        (keys : ℕ)
      → parse_profile wire q.seed q.samples ≡ ok profile
      → IsOf wire draw scale registry role (pos (suc keys)) w
      → let (e', w') = take_copy (some (get_from q "work" "1")) elapsed d e w in
        (e'.shadow.count ≡ add64 e.shadow.count (pos 1)) × (w'.index_cold ≡ false)
  unfolding take_copy
  take_copy-counts below q profile elapsed d e w keys parsed i =
      let served =
        serve_request-serve wire draw scale registry role below q profile elapsed d e w keys parsed
          i in
      let begun = begin_warming registry e in
      (
        ap (λ (x : Engine R). x.shadow.count) (served ∙ serve-shadow_get registry e d)
            ∙ after_next-count wire draw scale registry role begun d
            ∙ ap (λ (m : ShadowMetrics). add64 m.count (pos 1))
                (begin_warming-shadow wire draw scale registry role e),
        (serve_request-run wire draw scale registry role below e w keys q "1" profile elapsed d i
            parsed).0,
      )

  -- A client's request goes through the proxy to a URI whose copies net/http carries as those of a
  -- GET /work with a query that can be parsed; the service behind the copy has a sound workload of
  -- at least one key and a generator that stays below its bound. If no copy reaches the service,
  -- since the request is not mirrored or the copy cannot be made or sent, the service stays as it
  -- was; else it counts one shadow request more, and its index is warm.
  pub pass_request-counts :
      IsBelow draw
      → (p : Router F) (method : String) (random : F) (relay : Relay) (uri : String)
        (profile : WorkloadProfile) (elapsed d : ℤ) (e : Engine R) (w : Workload) (keys : ℕ)
      → ((addr : String) (c : Copy) (q : HttpRequest)
          → mirror_request reprint accepts uri addr ≡ some c
          → arrive c ≡ some q
          → IsCarried wire profile c q)
      → IsOf wire draw scale registry role (pos (suc keys)) w
      → let mirrored = (serve_http float parses p method random relay).mirrored in
        let (e', w') = pass_request p method random relay uri elapsed d e w in
        (((mirrored ≡ none)
            ⊎ ((addr : String) × (mirrored ≡ some addr)
                × ((mirror_request reprint accepts uri addr ≡ none)
                    ⊎ ((c : Copy) × (mirror_request reprint accepts uri addr ≡ some c)
                        × (arrive c ≡ none)))))
          × (e' ≡ e)
          × (w' ≡ w))
        ⊎ ((addr : String) × (c : Copy) × (q : HttpRequest) × (mirrored ≡ some addr)
            × (mirror_request reprint accepts uri addr ≡ some c)
            × (arrive c ≡ some q)
            × (e'.shadow.count ≡ add64 e.shadow.count (pos 1))
            × (w'.index_cold ≡ false))
  unfolding pass_request take_copy
  pass_request-counts below p method random relay uri profile elapsed d e w keys carries i =
      elim (Option-cases (serve_http float parses p method random relay).mirrored) [
        | inl kept ↦ rw (kept, pass_request, sent_request-none uri) (inl (inl refl, refl, refl))
        | inr (addr, sent) ↦ elim (Option-cases (mirror_request reprint accepts uri addr)) [
          | inl unmade ↦
              rw (sent, pass_request, sent_request-unmade uri addr unmade)
                (inl (inr (addr, refl, inl unmade), refl, refl))
          | inr (c, made) ↦ elim (Option-cases (arrive c)) [
            | inl lost ↦
                rw (sent, pass_request, sent_request-made uri addr c made ∙ lost)
                  (inl (inr (addr, refl, inr (c, made, lost)), refl, refl))
            | inr (q, arrived) ↦
                let j = carries addr c q made arrived in
                let (get, shadow) = mirror_request-shadow uri addr c made in
                let whole =
                  get_from-head q "1" (j.method ∙ get) (j.shadow_header ∙ shadow) j.path in
                let (counted, warm) =
                  take_copy-counts below q profile elapsed d e w keys j.query i in
                let same = ap (λ x. take_copy (some x) elapsed d e w) whole in
                rw (sent, pass_request, sent_request-made uri addr c made ∙ arrived)
                  (inr (
                    addr,
                    c,
                    q,
                    refl,
                    made,
                    arrived,
                    ap (λ (x : Engine R × Workload). x.0.shadow.count) same ∙ counted,
                    ap (λ (x : Engine R × Workload). x.1.index_cold) same ∙ warm,
                  ))
          ]
        ]
      ]

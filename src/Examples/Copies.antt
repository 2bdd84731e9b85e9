-- ===== src/Examples/Copies.antt =====
-- Runs of the copies that the proxy sends to the loaded service.
use itmo_master_research.Base.{
  ℕ, String, ◌==◌, pos, ◌≡◌, ◌⊎◌, refl, true, false, [], ◌∷◌, Option, none, some, add64, arith,
  if◌then◌else◌,
}
use itmo_master_research.Warmkit.Registry.Memory.{memory_registry}
use itmo_master_research.Workload.{new_workload}
use itmo_master_research.Workload.Cold.{new_workload-IsIndexed}
use itmo_master_research.Httpserver.{HttpRequest}
use itmo_master_research.Proxy.{Router, Copy, bad_gateway, serve_http, mirror_request}
use itmo_master_research.Proxy.Copies.{IsCarried, pass_request, pass_request-counts}
use itmo_master_research.Examples.{whole, mirror_on_config}
use itmo_master_research.Examples.Engines.{waiting}
use itmo_master_research.Examples.Services.{
  last_draw, last_draw-IsBelow, wire, request, profile, parsed,
}

-- A router that copies every GET request to the instance "b".
abbrev copying : Router ℕ
copying = record {
  service = "svc";
  cfg = record mirror_on_config { ratio = 9 };
  inst = ("a", "10.0.0.1:80") ∷ ("b", "10.0.0.2:80") ∷ [];
}

-- What arrives of a copy, but nothing at 10.0.0.9.
abbrev arriving : Copy → Option HttpRequest
arriving c =
    if c.url == "http://10.0.0.9:80/work?seed=3&samples=3"
    then none
    else some (record request {
      head = record { method = c.method; shadow_header = c.shadow_header };
      path = "work" ∷ [];
    })

arriving-IsCarried : (c : Copy) (q : HttpRequest) → arriving c ≡ some q → IsCarried wire profile c q
arriving-IsCarried c q h = ground (arith, parsed)

pass_request-counts_example :
    let w = new_workload (pos 4) in
    let uri : String = "/work?seed=3&samples=3" in
    let mirrored = (serve_http whole (λ url. true) copying "GET" 1 bad_gateway).mirrored in
    let (e', w') =
      pass_request whole
        (λ url. true)
        some
        (λ url. true)
        arriving
        wire
        last_draw
        pos
        memory_registry
        "warmup"
        copying
        "GET"
        1
        bad_gateway
        uri
        (pos 5)
        (pos 6)
        waiting
        w in
    (((mirrored ≡ none)
        ⊎ ((addr : String) × (mirrored ≡ some addr)
            × ((mirror_request some (λ url. true) uri addr ≡ none)
                ⊎ ((c : Copy) × (mirror_request some (λ url. true) uri addr ≡ some c)
                    × (arriving c ≡ none)))))
      × (e' ≡ waiting)
      × (w' ≡ w))
    ⊎ ((addr : String) × (c : Copy) × (q : HttpRequest) × (mirrored ≡ some addr)
        × (mirror_request some (λ url. true) uri addr ≡ some c)
        × (arriving c ≡ some q)
        × (e'.shadow.count ≡ add64 waiting.shadow.count (pos 1))
        × (w'.index_cold ≡ false))
unfolding new_workload
pass_request-counts_example =
    pass_request-counts whole (λ url. true) some (λ url. true) arriving wire last_draw pos
      memory_registry "warmup" last_draw-IsBelow copying "GET" 1 bad_gateway
      "/work?seed=3&samples=3" profile (pos 5) (pos 6) waiting (new_workload (pos 4)) 3
      (λ addr c q made arrived. arriving-IsCarried c q arrived)
      (new_workload-IsIndexed (pos 4), refl)

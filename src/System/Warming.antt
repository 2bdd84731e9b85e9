-- ===== src/System/Warming.antt =====
-- How the clients of the proxy warm an instance up until the coordinator finds it ready.
use itmo_master_research.Base.{
  ℕ, suc, ◌+◌, ◌<◌, ℤ, two63, String, ◌≡◌, refl, ap, ◌∙◌, List, [], ◌∷◌, none, some, arith, length,
}
use itmo_master_research.Base.Dict.{lookup}
use itmo_master_research.Warmkit.Types.{ready}
use itmo_master_research.Warmkit.Engine.{Engine, Request}
use itmo_master_research.Warmkit.Engine.Calls.{returns, serves, call}
use itmo_master_research.Warmkit.Engine.Warmup.{IsWaiting, shadow_get, serve-early, serve-last}
use itmo_master_research.Proxy.{Router, Relay, Copy, proxied, serve_http, mirror_request}
use itmo_master_research.System.{
  System, World, Event, client_asks, copy_arrives, registry, positive, engine_calls, on_engine,
  serve_at, serve_active, sent_copy, ask_proxy, system_step, run_system,
}
use itmo_master_research.System.Steps.{engine_calls-found}

-- A client's requests, each with its copy, which arrives and is served in so many nanoseconds.
abbrev pub gets : {E F : Type 0} → Request → String → F → Relay → List ℤ → List (Event E F)
gets r uri draw relay [] = []
gets r uri draw relay (d ∷ ds) =
    client_asks r uri draw relay (some (returns d))
    ∷ copy_arrives 0 (returns d)
    ∷ gets r uri draw relay ds

-- What the proxy makes of the request: it is handed on to the active instance, which has no
-- engine, and a copy can be made and goes to the instance `id`.
pub record IsMirrored {S B F : Type 0} (world : World S B F) (r : Request) (uri : String) (draw : F)
    (relay : Relay) (id : String) (router : Router F) : Type 0 where
  pub active_at : String
  pub target_at : String
  pub routed :
      serve_http world.float world.parses router r.method draw relay
      ≡ record { answer = proxied active_at relay; mirrored = some target_at }
  pub no_engine : world.home active_at ≡ none
  pub at_target : world.home target_at ≡ some id
  pub copied : Copy
  pub url : mirror_request world.reprint world.accepts uri target_at ≡ some copied

module _ (E : Type 0) {S B F : Type 0} (world : World S B F) (r : Request) (uri : String) (draw : F)
    (relay : Relay) (id : String) where
  -- A request and its copy are one shadow request for the instance.
  round-on_engine :
      (y : System S F) (d : ℤ)
      → IsMirrored world r uri draw relay id y.router
      → let z : System S F = record y { copies = [] } in
        system_step world {E = E}
          (system_step world {E = E} z (client_asks r uri draw relay (some (returns d))))
          (copy_arrives 0 (returns d))
        ≡ on_engine world z id (serves shadow_get (returns d))
  unfolding system_step ask_proxy serve_active serve_at sent_copy
  round-on_engine y d m = ground (arith, m.routed, m.no_engine, m.at_target, m.url)

  -- The instance after that request.
  abbrev after_copy : System S F → ℤ → Engine S → System S F
  after_copy y d e =
      engine_calls world (record y { copies = [] }) id (serves shadow_get (returns d)) e

  round-engine_calls :
      (y : System S F) (d : ℤ) (e : Engine S)
      → y.copies ≡ []
      → lookup id y.engines ≡ some e
      → IsMirrored world r uri draw relay id y.router
      → system_step world {E = E}
          (system_step world {E = E} y (client_asks r uri draw relay (some (returns d))))
          (copy_arrives 0 (returns d))
        ≡ after_copy y d e
  unfolding on_engine
  round-engine_calls y d e empty found m =
      ap
        (λ copies.
          system_step world {E = E}
            (system_step world {E = E} (record y { copies = copies })
              (client_asks r uri draw relay (some (returns d))))
            (copy_arrives 0 (returns d)))
        empty
      ∙ round-on_engine y d m
      ∙ rw (found, on_engine) refl

  IsWaiting-reg :
      (k c n : ℕ) (e : Engine S) (conn : S)
      → IsWaiting (registry world) k c n e
      → IsWaiting (registry world) k c n (record e { reg = conn })
  IsWaiting-reg k c n e conn w = record {
    counted = w.counted;
    kept = w.kept;
    target = w.target;
    open_state = w.open_state;
  }

  pub gets-ready :
      (k c : ℕ) (d : ℤ) (ds : List ℤ) (y : System S F) (e : Engine S)
      → c + length (d ∷ ds) < two63
      → IsWaiting (registry world) k c (length (d ∷ ds)) e
      → y.copies ≡ []
      → lookup id y.engines ≡ some e
      → IsMirrored world r uri draw relay id y.router
      → (e' : Engine S) × (lookup id
            (run_system world {E = E} y (gets r uri draw relay (d ∷ ds))).engines
          ≡ some e')
        × (e'.fsm.state ≡ ready)
  unfolding run_system call
  gets-ready k c d [] y e h w empty found m =
      let d' = record e { reg = y.conn } in
      (
        call (registry world) (positive world) d' (serves shadow_get (returns d)),
        ap (λ (z : System S F). lookup id z.engines) (round-engine_calls y d e empty found m)
            ∙ engine_calls-found world (record y { copies = [] }) id (serves shadow_get (returns d))
                e,
        serve-last (registry world) k c d' d (omega (arith, h)) (IsWaiting-reg k c 1 e y.conn w),
      )
  gets-ready k c d (d2 ∷ ds) y e h w empty found m =
      let before = record e { reg = y.conn } in
      let e' = call (registry world) (positive world) before (serves shadow_get (returns d)) in
      let (last, there, at) =
        gets-ready k (c + 1) d2 ds (after_copy y d e) e' (omega (arith, h))
          (serve-early (registry world) k c (length ds) before d (omega (arith, h))
            (IsWaiting-reg k c (suc (suc (length ds))) e y.conn w))
          refl
          (engine_calls-found world (record y { copies = [] }) id (serves shadow_get (returns d)) e)
          m in
      (
        last,
        ap
              (λ (z : System S F).
                lookup id (run_system world {E = E} z (gets r uri draw relay (d2 ∷ ds))).engines)
              (round-engine_calls y d e empty found m)
            ∙ there,
        at,
      )

-- ===== src/System/Events.antt =====
-- Every event of the system, and every run of events, keeps what ZooKeeper shows of the engines that
-- run.
use Prim.Native.String.{◌++◌ as concat, count}
use itmo_master_research.Base.{
  ℕ, suc, ◌+◌, ◌<◌, ℤ, two63, String, ◌==◌, Bool-cases, ◌≡◌, refl, sym, ap, subst, ◌∙◌, inl, inr,
  true, List, [], ◌∷◌, Option, some, Option-cases, arith, length, get_elem?, All,
}
use itmo_master_research.Base.Dict.{lookup}
use itmo_master_research.Warmkit.Engine.{Engine, Request}
use itmo_master_research.Warmkit.Engine.Calls.{Run, configures, serves}
use itmo_master_research.Warmkit.Engine.Agreement.{IsRoutine}
use itmo_master_research.Warmkit.ZkRegistry.{instance_path}
use itmo_master_research.Warmkit.ZkRegistry.Walks.{
  instance_path-inj, instance_path-longer, instance_path-flat, services_tail,
}
use itmo_master_research.Warmkit.ZkRegistry.Connecting.{zk_watch_round}
use itmo_master_research.Warmkit.ZkRegistry.Frames.{register-Kept}
use itmo_master_research.Coordinator.Main.{CoordinatorRequest}
use itmo_master_research.Coordinator.Frames.{serve_coordinator-IsBeside}
use itmo_master_research.Coordinator.Ramp.{Ramp}
use itmo_master_research.Coordinator.Ramp.Frames.{ramp_step-IsBeside}
use itmo_master_research.Proxy.{Answer, proxied, serve_http}
use itmo_master_research.System.{
  System, World, Event, boots, joins_active, acts, reads_config, asks_coordinator, ramps_on,
  watches_mirror, watches_instances, client_asks, copy_arrives, copy_fails, join_active,
  read_config, ask_coordinator, advance_ramp, serve_at, serve_active, ask_proxy, copy_request,
  remove_at, system_step, run_system,
}
use itmo_master_research.System.Sound.{IsLawful, Same}
use itmo_master_research.System.Steps.{
  IsSound, beside-IsSound, gone-IsSound, on_engine-IsSound, boot-IsSound,
}

-- What the theorems leave out: instances of other services and roles, the watch that fails, and a
-- second `Start` of one engine.
abbrev pub IsQuiet : {E F : Type 0} → String → Event E F → Type 0
IsQuiet service (boots cfg now) = ((cfg.role == "warmup") ≡ true) × (cfg.service_name ≡ service)
IsQuiet service (joins_active of id addr now) = of ≡ service
IsQuiet service (acts id c) = IsRoutine c
IsQuiet service _ = Unit {0}

module _ {S B F : Type 0} {world : World S B F} (lawful : IsLawful world) (service : String) where
  same-IsSound :
      (n : ℕ) (y : System S F) → IsSound lawful service n y → IsSound lawful service (n + 1) y
  same-IsSound n y i = beside-IsSound lawful service n y y refl refl (λ _. refl) i

  join-IsSound :
      (n : ℕ) (y : System S F) (of id addr : String) (now : ℤ)
      → of ≡ service
      → IsSound lawful service n y
      → IsSound lawful service (n + 1) (join_active world y of id addr now)
  unfolding join_active
  join-IsSound n y of id addr now at i =
      gone-IsSound lawful service n y id _
        (λ other ne.
          register-Kept lawful.frames (instance_path service other) world.records y.conn of id _
            (subst (λ x. suc (count (services_tail x)) < count (instance_path service other))
              (sym at) (instance_path-longer service other))
            (λ h.
              ne (instance_path-inj service id other (ap (λ x. instance_path x id) (sym at) ∙ h))))
        i

  -- A path below `/services`, as the frames of the coordinator have it.
  flat :
      (id : String) (s t : S)
      → (let z = concat service (concat "/instances/" id) in
          world.zk.get t (concat "/services/" z) ≡ world.zk.get s (concat "/services/" z))
      → Same lawful service id s t
  flat id s t h =
      subst (λ p. world.zk.get t p ≡ world.zk.get s p) (sym (instance_path-flat service id)) h

  ask-IsSound :
      {E : Type 0} (n : ℕ) (y : System S F) (r : CoordinatorRequest E F)
      → IsSound lawful service n y
      → IsSound lawful service (n + 1) (ask_coordinator world y r)
  unfolding ask_coordinator
  ask-IsSound n y r i =
      let beside = λ (id : String).
        serve_coordinator-IsBeside world.float world.configs world.records lawful.frames
          (concat service (concat "/instances/" id)) (record y.coordinator { conn = y.conn }) r in
      beside-IsSound lawful service n y _ (beside "").name refl
        (λ id. flat id y.conn _ (beside id).node) i

  ramp-IsSound :
      (n k : ℕ) (now : ℤ) (r : Ramp F) (y : System S F)
      → IsSound lawful service n y
      → IsSound lawful service (n + 1) (advance_ramp world y k now r)
  unfolding advance_ramp
  ramp-IsSound n k now r y i =
      let beside = λ (id : String).
        ramp_step-IsBeside world.float world.configs world.records lawful.frames
          (concat service (concat "/instances/" id)) (record y.coordinator { conn = y.conn }) r
          now in
      beside-IsSound lawful service n y _ (beside "").name refl
        (λ id. flat id y.conn _ (beside id).node) i

  read-IsSound :
      (n : ℕ) (y : System S F) (id : String) (e : Engine S)
      → n + 1 < two63
      → IsSound lawful service n y
      → IsSound lawful service (n + 1) (read_config world y id e)
  unfolding read_config
  read-IsSound n y id e h i =
      let round =
        zk_watch_round world.zk world.configs world.blank world.left y.conn e.cfg.service_name in
      elim (Option-cases round) [
        | inl nothing ↦ rw (nothing, read_config) (same-IsSound n y i)
        | inr (cfg, sent) ↦
            rw (sent, read_config) (on_engine-IsSound lawful service n y id (configures cfg) h tt i)
      ]

  serve_at-IsSound :
      (n : ℕ) (y : System S F) (addr : String) (r : Request) (run : Run)
      → n + 1 < two63
      → IsSound lawful service n y
      → IsSound lawful service (n + 1) (serve_at world y addr r run)
  unfolding serve_at
  serve_at-IsSound n y addr r run h i = elim (Option-cases (world.home addr)) [
    | inl nobody ↦ rw (nobody, serve_at) (same-IsSound n y i)
    | inr (id, there) ↦
        rw (there, serve_at) (on_engine-IsSound lawful service n y id (serves r run) h tt i)
  ]

  serve_active-IsSound :
      (n : ℕ) (y : System S F) (answer : Answer) (r : Request) (reached : Option Run)
      → n + 1 < two63
      → IsSound lawful service n y
      → IsSound lawful service (n + 1) (serve_active world y answer r reached)
  unfolding serve_active
  serve_active-IsSound n y (proxied addr relay) r (some run) h i =
      serve_at-IsSound n y addr r run h i
  serve_active-IsSound n y _ r _ h i = same-IsSound n y i

  -- The copies that are on their way matter to no engine.
  copies-IsSound :
      (n : ℕ) (y : System S F) (copies : List String)
      → IsSound lawful service n y
      → IsSound lawful service n (record y { copies = copies })
  copies-IsSound n y copies i = record { of_service = i.of_service; live = i.live }

  step-IsSound :
      {E : Type 0} (n : ℕ) (y : System S F) (v : Event E F)
      → n + 1 < two63
      → IsQuiet service v
      → IsSound lawful service n y
      → IsSound lawful service (n + 1) (system_step world y v)
  unfolding system_step ask_proxy
  step-IsSound n y (boots cfg now) h q i = boot-IsSound lawful service n y cfg now h q.0 q.1 i
  step-IsSound n y (joins_active of id addr now) h q i = join-IsSound n y of id addr now q i
  step-IsSound n y (acts id c) h q i = on_engine-IsSound lawful service n y id c h q i
  step-IsSound n y (reads_config id) h q i = elim (Option-cases (lookup id y.engines)) [
    | inl absent ↦ rw (absent, system_step) (same-IsSound n y i)
    | inr (e, found) ↦ elim (Bool-cases e.watching) [
      | inl on ↦ rw (found, system_step) (rw on (read-IsSound n y id e h i))
      | inr off ↦ rw (found, system_step) (rw off (same-IsSound n y i))
    ]
  ]
  step-IsSound n y (asks_coordinator r) h q i = ask-IsSound n y r i
  step-IsSound n y (ramps_on k now) h q i = elim (Option-cases (get_elem? y.ramps k)) [
    | inl none_there ↦ rw (none_there, system_step) (same-IsSound n y i)
    | inr (r, there) ↦ rw (there, system_step) (ramp-IsSound n k now r y i)
  ]
  step-IsSound n y watches_mirror h q i =
      beside-IsSound lawful service n y _ refl refl (λ _. refl) i
  step-IsSound n y watches_instances h q i =
      beside-IsSound lawful service n y _ refl refl (λ _. refl) i
  step-IsSound n y (client_asks r uri draw relay reached) h q i =
      serve_active-IsSound n _
        (serve_http world.float world.parses y.router r.method draw relay).answer r reached h
        (copies-IsSound n y _ i)
  step-IsSound n y (copy_arrives k run) h q i = elim (Option-cases (get_elem? y.copies k)) [
    | inl none_there ↦ rw (none_there, system_step) (same-IsSound n y i)
    | inr (addr, there) ↦
        rw (there, system_step)
          (serve_at-IsSound n (record y { copies = remove_at y.copies k }) addr (copy_request world)
            run h (copies-IsSound n y _ i))
  ]
  step-IsSound n y (copy_fails k) h q i =
      same-IsSound n (record y { copies = remove_at y.copies k }) (copies-IsSound n y _ i)

  pub run-IsSound :
      {E : Type 0} (n : ℕ) (y : System S F) (vs : List (Event E F))
      → n + length vs < two63
      → All (IsQuiet service) vs
      → IsSound lawful service n y
      → IsSound lawful service (n + length vs) (run_system world y vs)
  unfolding run_system
  run-IsSound n y [] h q i =
      let same : n ≡ n + 0 = omega arith in subst (λ k. IsSound lawful service k y) same i
  run-IsSound n y (v ∷ vs) h q i =
      let same : n + 1 + length vs ≡ n + length (v ∷ vs) = omega arith in
      subst (λ k. IsSound lawful service k (run_system world (system_step world y v) vs)) same
        (run-IsSound (n + 1) (system_step world y v) vs (omega arith) q.1
          (step-IsSound n y v (omega arith) q.0 i))

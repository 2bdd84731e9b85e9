-- ===== src/System/Steps.antt =====
-- Every step of a process keeps what ZooKeeper shows of the engines that run.
use itmo_master_research.Base.{
  ℕ, ◌+◌, ◌<◌, ℤ, two63, String, ◌==◌, eq_iff, eq_refl, ◌≡◌, ◌≢◌, refl, sym, ap, subst, ◌∙◌, inl,
  inr, true, Bool-cases, some, Option-cases, arith,
}
use itmo_master_research.Base.Dict.{lookup, insert, delete, lookup-insert, lookup-delete}
use itmo_master_research.Warmkit.Engine.{Engine, Config, new_engine, start}
use itmo_master_research.Warmkit.Engine.Calls.{
  Call, starts, call, call-IsEarned, new_engine-IsEarned,
}
use itmo_master_research.Warmkit.Engine.Agreement.{IsRoutine, call-Agrees, start-Agrees}
use itmo_master_research.Warmkit.Engine.Closed.{call-cfg, start-cfg}
use itmo_master_research.System.{
  System, World, registry, positive, engine_calls, on_engine, boot_engine,
}
use itmo_master_research.System.Sound.{
  IsLawful, shows, IsLive, Same, later-IsLive, IsAside, call-IsAside, start-IsAside,
}

module _ {S B F : Type 0} (world : World S B F) where
  pub engine_calls-found :
      (y : System S F) (id : String) (c : Call F) (e : Engine S)
      → lookup id (engine_calls world y id c e).engines
        ≡ some (call (registry world) (positive world) (record e { reg = y.conn }) c)
  engine_calls-found y id c e = ground (
    arith,
    lookup-insert id id (call (registry world) (positive world) (record e { reg = y.conn }) c)
        y.engines,
    eq_refl id,
  )

module _ {S B F : Type 0} {world : World S B F} (lawful : IsLawful world) (service : String) where
  -- Every engine that runs is shown, after at most `n` calls each.
  pub record IsSound (n : ℕ) (y : System S F) : Type 0 where
    pub of_service : y.coordinator.service ≡ service
    pub live :
        (id : String) (e : Engine S)
        → lookup id y.engines ≡ some e
        → IsLive lawful service n y.conn id e

  -- A step that changes the node of no instance.
  pub beside-IsSound :
      (n : ℕ) (y z : System S F)
      → z.coordinator.service ≡ y.coordinator.service
      → z.engines ≡ y.engines
      → ((id : String) → Same lawful service id y.conn z.conn)
      → IsSound n y
      → IsSound (n + 1) z
  beside-IsSound n y z c e same i = record {
    of_service = c ∙ i.of_service;
    live = λ id d found.
        later-IsLive lawful service n y.conn z.conn id d (same id)
          (i.live id d (ap (lookup id) (sym e) ∙ found));
  }

  -- The map of the engines after one of them has taken a step.
  stepped-IsSound :
      (n : ℕ) (y : System S F) (id : String) (conn : S) (e : Engine S)
      → IsLive lawful service (n + 1) conn id e
      → ((other : String) → id ≢ other → Same lawful service other y.conn conn)
      → IsSound n y
      → IsSound (n + 1) (record y { conn = conn; engines = insert id e y.engines })
  stepped-IsSound n y id conn e l same i = record {
    of_service = i.of_service;
    live = λ other d found. elim (Bool-cases (id == other)) [
      | inl hit ↦
          let at : id ≡ other = (eq_iff id other).0 hit in
          let it : e ≡ d = ground (arith, lookup-insert id other e y.engines, hit, found) in
          subst (λ (p : String × Engine S). IsLive lawful service (n + 1) conn p.0 p.1)
            (λ k. (at k, it k)) l
      | inr miss ↦
          let ne : id ≢ other = λ h. ground (arith, (eq_iff id other).1 h, miss) in
          later-IsLive lawful service n y.conn conn other d (same other ne)
            (i.live other d (ground (arith, lookup-insert id other e y.engines, miss, found)))
    ];
  }

  pub gone-IsSound :
      (n : ℕ) (y : System S F) (id : String) (conn : S)
      → ((other : String) → id ≢ other → Same lawful service other y.conn conn)
      → IsSound n y
      → IsSound (n + 1) (record y { conn = conn; engines = delete id y.engines })
  gone-IsSound n y id conn same i = record {
    of_service = i.of_service;
    live = λ other d found. elim (Bool-cases (id == other)) [
      | inl hit ↦ absurd (ground (arith, lookup-delete id other y.engines, hit, found))
      | inr miss ↦
          let ne : id ≢ other = λ h. ground (arith, (eq_iff id other).1 h, miss) in
          later-IsLive lawful service n y.conn conn other d (same other ne)
            (i.live other d (ground (arith, lookup-delete id other y.engines, miss, found)))
    ];
  }

  calls-IsSound :
      (n : ℕ) (y : System S F) (id : String) (c : Call F) (e : Engine S)
      → n + 1 < two63
      → IsRoutine c
      → lookup id y.engines ≡ some e
      → IsSound n y
      → IsSound (n + 1) (engine_calls world y id c e)
  calls-IsSound n y id c e h q found i =
      let l = i.live id e found in
      let d = record e { reg = y.conn } in
      let e' = call (registry world) (positive world) d c in
      let kept = call-cfg (registry world) (positive world) d c q in
      let aside : (other : String) → id ≢ other → IsAside lawful service e.cfg y.conn other e' =
        λ other ne.
          call-IsAside lawful service e.cfg y.conn other l.of_service
            (λ (same : e.cfg.instance_id ≡ other). ne (sym l.of_id ∙ same)) d c q
            (record { same_cfg = refl; same_node = refl }) in
      stepped-IsSound n y id e'.reg e'
        (record {
          of_service = ap (λ (x : Config). x.service_name) kept ∙ l.of_service;
          of_id = ap (λ (x : Config). x.instance_id) kept ∙ l.of_id;
          agrees = call-Agrees (shows lawful service) (positive world) d c q l.agrees;
          earned = call-IsEarned (registry world) (positive world) n d c h l.earned;
        })
        (λ other ne. (aside other ne).same_node) i

  pub on_engine-IsSound :
      (n : ℕ) (y : System S F) (id : String) (c : Call F)
      → n + 1 < two63
      → IsRoutine c
      → IsSound n y
      → IsSound (n + 1) (on_engine world y id c)
  unfolding on_engine
  on_engine-IsSound n y id c h q i = elim (Option-cases (lookup id y.engines)) [
    | inl absent ↦ rw (absent, on_engine) (beside-IsSound n y y refl refl (λ _. refl) i)
    | inr (e, found) ↦ rw (found, on_engine) (calls-IsSound n y id c e h q found i)
  ]

  pub boot-IsSound :
      (n : ℕ) (y : System S F) (cfg : Config) (now : ℤ)
      → n + 1 < two63
      → (cfg.role == "warmup") ≡ true
      → cfg.service_name ≡ service
      → IsSound n y
      → IsSound (n + 1) (boot_engine world y cfg now)
  unfolding boot_engine new_engine call
  boot-IsSound n y cfg now h warmup of i =
      let fresh = new_engine (registry world) cfg y.conn in
      let s = start (registry world) fresh now in
      let aside : (other : String)
          → cfg.instance_id ≢ other
          → IsAside lawful service cfg y.conn other s.0 =
        λ other ne.
          start-IsAside lawful service cfg y.conn other of ne fresh now
            (record { same_cfg = refl; same_node = refl }) in
      elim (Option-cases s.1) [
        | inr (x, failed) ↦
            rw (failed, boot_engine)
              (gone-IsSound n y cfg.instance_id s.0.reg (λ other ne. (aside other ne).same_node) i)
        | inl started ↦
            rw (started, boot_engine)
              (stepped-IsSound n y cfg.instance_id s.0.reg s.0
                (record {
                  of_service =
                      ap (λ (x : Config). x.service_name) (start-cfg (registry world) fresh now)
                      ∙ of;
                  of_id = ap (λ (x : Config). x.instance_id) (start-cfg (registry world) fresh now);
                  agrees = start-Agrees (shows lawful service) cfg y.conn now warmup started;
                  earned =
                      call-IsEarned (registry world) (positive world) n fresh (starts now) h
                        (new_engine-IsEarned (registry world) (positive world) n cfg y.conn);
                })
                (λ other ne. (aside other ne).same_node) i)
      ]

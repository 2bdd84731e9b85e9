-- ===== src/System/Sound.antt =====
-- What holds of the processes together in every order of their steps: ZooKeeper shows the state of
-- every engine that runs.
use Prim.Native.String.{count}
use itmo_master_research.Base.{
  ℕ, suc, ◌+◌, ◌<◌, ℤ, String, ◌≡◌, ◌≢◌, refl, sym, ap, subst, ◌∙◌, Bool, some, arith,
}
use itmo_master_research.Warmkit.Types.{State}
use itmo_master_research.Warmkit.Fsm.{Fsm}
use itmo_master_research.Warmkit.Metrics.{ShadowMetrics}
use itmo_master_research.Warmkit.Registry.{RegistryLaws}
use itmo_master_research.Warmkit.Engine.{Engine, Config, start, update_state}
use itmo_master_research.Warmkit.Engine.Calls.{Call, call, IsEarned}
use itmo_master_research.Warmkit.Engine.Agreement.{Agrees, IsRoutine}
use itmo_master_research.Warmkit.Engine.Closed.{call_closed, start_closed}
use itmo_master_research.Warmkit.ZkRegistry.{instance_path}
use itmo_master_research.Warmkit.ZkRegistry.Stored.{stored_state, zk_laws}
use itmo_master_research.Warmkit.ZkRegistry.Walks.{
  instance_path-inj, instance_path-longer, services_tail,
}
use itmo_master_research.Warmkit.ZkRegistry.Frames.{registry_update-Kept, registry_register-Kept}
use itmo_master_research.Zk.{ZkLaws, CodecLaws, ZkFrames, IsUp}
use itmo_master_research.System.{World, registry, positive}

-- What the theorems ask of ZooKeeper: documented behaviour, and a connection that is up.
pub record IsLawful {S B F : Type 0} (world : World S B F) : Type 0 where
  pub laws : ZkLaws world.zk
  pub codec : CodecLaws world.zk world.records
  pub frames : ZkFrames world.zk
  pub up : IsUp world.zk world.records

module _ {S B F : Type 0} {world : World S B F} (lawful : IsLawful world) (service : String) where
  abbrev pub shows : RegistryLaws (registry world)
  shows = zk_laws lawful.laws lawful.codec lawful.up

  -- An engine that runs as the instance `id`, after at most `n` calls, where ZooKeeper is in the
  -- state `conn`.
  pub record IsLive (n : ℕ) (conn : S) (id : String) (e : Engine S) : Type 0 where
    pub of_service : e.cfg.service_name ≡ service
    pub of_id : e.cfg.instance_id ≡ id
    pub agrees : Agrees shows (record e { reg = conn })
    pub earned : IsEarned n (record e { reg = conn })

  -- The node of an instance is as it was.
  abbrev pub Same : String → S → S → Type 0
  Same id s t =
      world.zk.get t (instance_path service id) ≡ world.zk.get s (instance_path service id)

  stored_state-Same :
      (id : String) (s t : S)
      → Same id s t
      → stored_state world.zk world.records t service id
        ≡ stored_state world.zk world.records s service id
  unfolding stored_state
  stored_state-Same id s t h = rw (h, stored_state) refl

  -- The names of an engine, put together.
  stored_as :
      (s : S) (id : String) (e : Engine S)
      → e.cfg.service_name ≡ service
      → e.cfg.instance_id ≡ id
      → stored_state world.zk world.records s e.cfg.service_name e.cfg.instance_id
        ≡ stored_state world.zk world.records s service id
  stored_as s id e p q = λ k. stored_state world.zk world.records s (p k) (q k)

  pub IsLive-shown :
      (n : ℕ) (s : S) (id : String) (e : Engine S)
      → IsLive n s id e
      → stored_state world.zk world.records s service id ≡ some e.fsm.state
  unfolding zk_laws
  IsLive-shown n s id e l = sym (stored_as s id e l.of_service l.of_id) ∙ l.agrees.shown

  pub later-IsLive :
      (n : ℕ) (s t : S) (id : String) (e : Engine S)
      → Same id s t
      → IsLive n s id e
      → IsLive (n + 1) t id e
  unfolding zk_laws
  later-IsLive n s t id e same l = record {
    of_service = l.of_service;
    of_id = l.of_id;
    agrees = record {
      shown =
          stored_as t id e l.of_service l.of_id
          ∙ stored_state-Same id s t same
          ∙ IsLive-shown n s id e l;
      lived = l.agrees.lived;
    };
    earned = record {
      bounded = omega (arith, l.earned.bounded);
      nonneg = l.earned.nonneg;
      earned = l.earned.earned;
    };
  }

  other_path :
      (d : Engine S) (id other : String)
      → d.cfg.service_name ≡ service
      → d.cfg.instance_id ≡ id
      → id ≢ other
      → instance_path d.cfg.service_name d.cfg.instance_id ≢ instance_path service other
  other_path d id other s i ne h = ne (
      instance_path-inj service id other
        (ap (λ (p : String × String). instance_path p.0 p.1) (λ k. (sym s k, sym i k)) ∙ h))

  -- What a call of an engine leaves as it is: its configuration, and the nodes of the others.
  pub record IsAside (cfg : Config) (conn : S) (other : String) (d : Engine S) : Type 0 where
    pub same_cfg : d.cfg ≡ cfg
    pub same_node : Same other conn d.reg

  module _ (cfg : Config) (conn : S) (other : String) (here : cfg.service_name ≡ service)
      (ne : cfg.instance_id ≢ other) where
    IsAside-free :
        (e : Engine S) (f : Fsm) (m : ShadowMetrics) (w : Bool)
        → IsAside cfg conn other e
        → IsAside cfg conn other (record e { fsm = f; shadow = m; watching = w })
    IsAside-free e f m w a = record { same_cfg = a.same_cfg; same_node = a.same_node }

    path_aside :
        (e : Engine S)
        → e.cfg ≡ cfg
        → instance_path e.cfg.service_name e.cfg.instance_id ≢ instance_path service other
    path_aside e c =
        other_path e cfg.instance_id other (ap (λ (x : Config). x.service_name) c ∙ here)
          (ap (λ (x : Config). x.instance_id) c) ne

    IsAside-updates :
        (e : Engine S) (s : State)
        → IsAside cfg conn other e
        → IsAside cfg conn other (update_state (registry world) e s)
    unfolding update_state
    IsAside-updates e s a = record {
      same_cfg = a.same_cfg;
      same_node =
          registry_update-Kept lawful.frames (instance_path service other) world.records e.reg
            e.cfg.service_name e.cfg.instance_id s (path_aside e a.same_cfg)
          ∙ a.same_node;
    }

    pub call-IsAside :
        (e : Engine S) (c : Call F)
        → IsRoutine c
        → IsAside cfg conn other e
        → IsAside cfg conn other (call (registry world) (positive world) e c)
    call-IsAside =
        call_closed (registry world) (IsAside cfg conn other) IsAside-free IsAside-updates
          (positive world)

    pub start-IsAside :
        (e : Engine S) (now : ℤ)
        → IsAside cfg conn other e
        → IsAside cfg conn other (start (registry world) e now).0
    start-IsAside e now a =
        start_closed (registry world) (IsAside cfg conn other) IsAside-free IsAside-updates e now a
          (record {
            same_cfg = a.same_cfg;
            same_node =
                registry_register-Kept lawful.frames (instance_path service other) world.records
                  e.reg e.cfg.service_name e.cfg.instance_id _
                  (subst (λ x. suc (count (services_tail x)) < count (instance_path service other))
                    (sym (ap (λ (x : Config). x.service_name) a.same_cfg ∙ here))
                    (instance_path-longer service other))
                  (path_aside e a.same_cfg)
                ∙ a.same_node;
          })

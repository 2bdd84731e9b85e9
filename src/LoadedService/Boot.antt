-- ===== src/LoadedService/Boot.antt =====
-- What holds of a loaded service that has come up (LoadedService/cmd/server/main.go).
use itmo_master_research.Base.{ℤ, pos, ◌==◌, ◌≡◌, true, false}
use itmo_master_research.Settings.{Settings, warmkit_config}
use itmo_master_research.Warmkit.Types.{InstanceRecord, registered}
use itmo_master_research.Warmkit.Registry.{Registry}
use itmo_master_research.Warmkit.ZkRegistry.{zk_registry}
use itmo_master_research.Warmkit.ZkRegistry.Connecting.{Dialer, active_record, Shows}
use itmo_master_research.Warmkit.Engine.{Config, Engine, readiness}
use itmo_master_research.Zk.{Zk, Codec, ZkLaws, CodecLaws}
use itmo_master_research.LoadedService.{Attached, with_engine, as_active, unattached}

-- An engine that has been started and has served nothing.
pub record IsFresh {S : Type 0} (registry : Registry S) (cfg : Config) (e : Engine S) : Type 0 where
  pub configured : e.cfg ≡ cfg
  pub at_registered : e.fsm.state ≡ registered
  pub uncounted : e.shadow.count ≡ pos 0
  pub watches : e.watching ≡ true
  pub unready : (readiness registry e).status ≡ 503

module _ {S B : Type 0} {zk : Zk S B} {records : Codec InstanceRecord B} (laws : ZkLaws zk)
    (codec : CodecLaws zk records) (dialer : Dialer S) where
  -- What a role comes to: `s` is the service before the start, `now` the time of it.
  abbrev pub IsAttached : Settings → S → ℤ → Attached S → Type 0
  IsAttached cfg s now (with_engine e) =
      ((cfg.role == "warmup") ≡ true) × IsFresh (zk_registry zk records) (warmkit_config cfg) e
  IsAttached cfg s now (as_active s') =
      ((cfg.role == "active") ≡ true)
      × Shows zk records s' cfg.service_name cfg.instance_id
          (active_record zk records dialer cfg.http_addr now)
  IsAttached cfg s now (unattached s') =
      ((cfg.role == "warmup") ≡ false) × ((cfg.role == "active") ≡ false) × (s' ≡ s)

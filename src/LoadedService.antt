-- ===== src/LoadedService.antt =====
-- LoadedService/cmd/server/main.go: what the process sets up before it serves, in the order of
-- `main`, each failure of which ends it, and what it closes at the end.
pub mod Boot
use itmo_master_research.Base.{
  ℤ, String, ◌==◌, Bool, true, false, Option, none, some, if◌then◌else◌,
}
use itmo_master_research.Base.Result.{Result, ok, err, or_exit, ◌>>=◌}
use itmo_master_research.Envcfg.{EnvError, Env}
use itmo_master_research.Settings.{Settings, load, warmkit_config}
use itmo_master_research.Pprofserver.{PprofServer, start_from_env, stop_pprof}
use itmo_master_research.Warmkit.Types.{InstanceRecord, Error}
use itmo_master_research.Warmkit.ZkRegistry.{zk_registry}
use itmo_master_research.Warmkit.ZkRegistry.Connecting.{Dialer, connect_zk, register_active}
use itmo_master_research.Warmkit.Engine.{Engine, new_engine, start}
use itmo_master_research.Warmkit.Engine.Stop.{stop_engine}
use itmo_master_research.Workload.{Workload, new_workload}
use itmo_master_research.Zk.{Zk, ZkError, Codec}

-- Where `main` calls `os.Exit(1)`.
pub data Exit : Type 0 where
  config_exit pprof_exit : EnvError → Exit
  zk_exit register_exit : ZkError → Exit
  start_exit : Error → Exit

-- What the process holds of ZooKeeper, whose state is `S`: an engine over a connection, a connection
-- that keeps the record of an active instance, or nothing.
pub data Attached (S : Type 0) : Type 0 where
  with_engine : Engine S → Attached S
  as_active : S → Attached S
  unattached : S → Attached S

pub record Running (S : Type 0) : Type 0 where
  pub settings : Settings
  pub work : Workload
  pub pprof : Option PprofServer
  pub attached : Attached S

module _ {S B : Type 0} (zk : Zk S B) (records : Codec InstanceRecord B) (dialer : Dialer S) where
  -- What `main` does with the outcome of the engine's `Start`.
  abbrev started : Engine S × Option Error → Result Exit (Attached S)
  started (e, none) = ok (with_engine e)
  started (e, some x) = err (start_exit x)

  -- The clock is read once, in `Start` or in `RegisterActive`: `now`.
  unfoldable pub attach_warmup : Settings → S → ℤ → Result Exit (Attached S)
  unfolding connect_zk
  attach_warmup cfg s now =
      let (s', e) = connect_zk zk records dialer s cfg.zk_endpoints cfg.warmup_timeout in
      elim e [
        | some x ↦ err (zk_exit x)
        | none ↦
            (let registry = zk_registry zk records in
              started (start registry (new_engine registry (warmkit_config cfg) s') now))
      ]

  unfoldable pub attach_active : Settings → S → ℤ → Result Exit (Attached S)
  unfolding register_active
  attach_active cfg s now =
      let (s', e) =
        register_active zk records dialer s cfg.zk_endpoints cfg.warmup_timeout cfg.service_name
          cfg.instance_id cfg.http_addr now in
      elim e [ some x ↦ err (register_exit x) | none ↦ ok (as_active s') ]

  unfoldable pub attach : Settings → S → ℤ → Result Exit (Attached S)
  unfolding attach_warmup attach_active
  attach cfg s now =
      if cfg.role == "warmup"
      then attach_warmup cfg s now
      else if cfg.role == "active"
      then attach_active cfg s now
      else ok (unattached s)

  unfoldable pub boot : Env → S → ℤ → Result Exit (Running S)
  unfolding attach
  boot env s now = do
    cfg ← or_exit config_exit (load env)
    pprof ← or_exit pprof_exit (start_from_env env)
    attached ← attach cfg s now
    ok (record {
      settings = cfg;
      work = new_workload cfg.index_keys;
      pprof = pprof;
      attached = attached;
    })

  -- The deferred calls, the last one first: `zkReg.Close` runs before the engine's `Stop`, which
  -- closes the registry once more if its goroutine ends in time.
  unfoldable pub shutdown : Attached S → Bool → S
  unfolding stop_engine
  shutdown (with_engine e) ends =
      (stop_engine (λ s. (dialer.close s, none)) (record e { reg = dialer.close e.reg }) ends).0.reg
  shutdown (as_active s) ends = dialer.close s
  shutdown (unattached s) ends = s

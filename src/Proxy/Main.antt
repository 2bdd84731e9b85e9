-- ===== src/Proxy/Main.antt =====
-- What `main` of cmd/mirror-proxy/main.go sets up.
use itmo_master_research.Base.{ℤ, pos, String, List, [], Option, mul64}
use itmo_master_research.Base.Result.{Result, ok, or_exit, ◌>>=◌}
use itmo_master_research.Envcfg.{EnvError, Env, required, required_csv, required_int}
use itmo_master_research.Pprofserver.{PprofServer, start_from_env}
use itmo_master_research.Warmkit.Types.{MirrorConfig}
use itmo_master_research.Warmkit.ZkRegistry.Connecting.{Dialer, connected}
use itmo_master_research.Proxy.{Router}
use itmo_master_research.Zk.{ZkError}

pub record ProxySettings : Type 0 where
  pub addr : String
  pub endpoints : List String
  pub service : String
  pub shutdown_sec : ℤ

unfoldable pub load_proxy : Env → Result EnvError ProxySettings
load_proxy env = do
  addr ← required env "DWSS_PROXY_HTTP_ADDR"
  endpoints ← required_csv env "DWSS_PROXY_ZK_ENDPOINTS"
  service ← required env "DWSS_PROXY_SERVICE_NAME"
  shutdown_sec ← required_int env "DWSS_PROXY_SHUTDOWN_SEC"
  ok (record { addr = addr; endpoints = endpoints; service = service; shutdown_sec = shutdown_sec })

-- Where `main` calls `os.Exit(1)`.
pub data ProxyExit : Type 0 where
  settings_exit pprof_exit : EnvError → ProxyExit
  zk_exit : ZkError → ProxyExit

pub record ProxyRunning (S F : Type 0) : Type 0 where
  pub settings : ProxySettings
  pub pprof : Option PprofServer
  pub conn : S
  pub router : Router F

-- What `main` sets up before it listens; `blank` is `MirrorConfig{}`.
unfoldable pub boot_proxy :
    {S F : Type 0} → Dialer S → MirrorConfig F → Env → S → Result ProxyExit (ProxyRunning S F)
unfolding load_proxy
boot_proxy dialer blank env s = do
  settings ← or_exit settings_exit (load_proxy env)
  pprof ← or_exit pprof_exit (start_from_env env)
  conn ← or_exit zk_exit (
      connected
        (dialer.connect s settings.endpoints (mul64 settings.shutdown_sec (pos 1000000000))))
  ok (record {
    settings = settings;
    pprof = pprof;
    conn = conn;
    router = record { service = settings.service; cfg = blank; inst = [] };
  })

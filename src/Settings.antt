-- ===== src/Settings.antt =====
-- LoadedService/internal/config/config.go: the settings of the loaded service, read from the
-- environment, and the configuration of its warmkit engine.
pub mod Endpoints
use itmo_master_research.Base.{ℤ, String, List}
use itmo_master_research.Base.Result.{Result, ok, err}
use itmo_master_research.Base.Chain.{◌>>=◌}
use itmo_master_research.Envcfg.{
  EnvError, Env, required, required_int, required_csv, required_duration_from_seconds,
}
use itmo_master_research.Warmkit.Engine.{Config}

pub record Settings : Type 0 where
  pub http_addr : String
  pub role : String
  pub instance_id : String
  pub mmap_file : String
  pub mmap_size_mb : ℤ
  pub index_keys : ℤ
  pub service_name : String
  pub zk_endpoints : List String
  pub ready_after : ℤ
  pub warmup_timeout : ℤ
  pub shadow_keep : ℤ

unfoldable pub load : Env → Result EnvError Settings
load env = do
  http_addr ← required env "DWSS_HTTP_ADDR"
  role ← required env "DWSS_ROLE"
  instance_id ← required env "DWSS_INSTANCE_ID"
  mmap_file ← required env "DWSS_MMAP_FILE"
  mmap_size_mb ← required_int env "DWSS_MMAP_SIZE_MB"
  index_keys ← required_int env "DWSS_INDEX_KEYS"
  service_name ← required env "DWSS_SERVICE_NAME"
  zk_endpoints ← required_csv env "DWSS_ZK_ENDPOINTS"
  ready_after ← required_int env "DWSS_WARMUP_READY_AFTER"
  warmup_timeout ← required_duration_from_seconds env "DWSS_WARMUP_TIMEOUT_SEC"
  shadow_keep ← required_int env "DWSS_SHADOW_METRICS_KEEP"
  ok (record {
    http_addr = http_addr;
    role = role;
    instance_id = instance_id;
    mmap_file = mmap_file;
    mmap_size_mb = mmap_size_mb;
    index_keys = index_keys;
    service_name = service_name;
    zk_endpoints = zk_endpoints;
    ready_after = ready_after;
    warmup_timeout = warmup_timeout;
    shadow_keep = shadow_keep;
  })

unfoldable pub warmkit_config : Settings → Config
warmkit_config s = record {
  service_name = s.service_name;
  instance_id = s.instance_id;
  listen_addr = s.http_addr;
  role = s.role;
  ready_after = s.ready_after;
  warmup_timeout = s.warmup_timeout;
  shadow_metrics_keep = s.shadow_keep;
}

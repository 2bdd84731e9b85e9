-- ===== src/Settings/Endpoints.antt =====
-- What the settings of LoadedService/internal/config/config.go are guaranteed.
use itmo_master_research.Base.{◌≤◌, ◌≡◌, length, All}
use itmo_master_research.Base.Result.{ok}
use itmo_master_research.Base.Chain.{Holds, >>=-Holds, Holds-ok}
use itmo_master_research.Envcfg.{Env}
use itmo_master_research.Envcfg.Parts.{IsPart, required_csv-IsPart}
use itmo_master_research.Settings.{Settings, load}

abbrev HasEndpoints : Settings → Type 0
HasEndpoints s = (1 ≤ length s.zk_endpoints) × All IsPart s.zk_endpoints

load-Holds : (env : Env) → Holds HasEndpoints (load env)
unfolding load
load-Holds env = >>=-Holds HasEndpoints _ _ (λ http_addr _. >>=-Holds HasEndpoints _ _ (λ role _.
    >>=-Holds HasEndpoints _ _ (λ instance_id _. >>=-Holds HasEndpoints _ _ (λ mmap_file _.
      >>=-Holds HasEndpoints _ _ (λ mmap_size_mb _. >>=-Holds HasEndpoints _ _ (λ index_keys _.
        >>=-Holds HasEndpoints _ _ (λ service_name _.
          >>=-Holds HasEndpoints _ _ (λ zk_endpoints called.
            >>=-Holds HasEndpoints _ _ (λ ready_after _.
              >>=-Holds HasEndpoints _ _ (λ warmup_timeout _.
                >>=-Holds HasEndpoints _ _ (λ shadow_keep _.
                  required_csv-IsPart env "DWSS_ZK_ENDPOINTS" zk_endpoints called)))))))))))

-- Settings that `Load` returns name at least one ZooKeeper endpoint, and each of them is trimmed and
-- not empty.
pub load-HasEndpoints : (env : Env) (s : Settings) → load env ≡ ok s → HasEndpoints s
load-HasEndpoints env s e = Holds-ok HasEndpoints (load env) s e (load-Holds env)

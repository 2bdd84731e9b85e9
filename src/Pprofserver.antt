-- ===== src/Pprofserver.antt =====
-- internal/pprofserver/pprofserver.go: the profiler's own HTTP server, which the environment turns on.
use Prim.Native.String.{◌++◌ as concat}
use itmo_master_research.Base.{ℤ, String, List, [], ◌∷◌, Option, none, some, if◌then◌else◌}
use itmo_master_research.Base.Result.{Result, ok, ◌>>=◌}
use itmo_master_research.Envcfg.{EnvError, Env, required, required_int, required_bool}

-- A server that listens: its address and the paths of its mux.
pub record PprofServer : Type 0 where
  pub addr : String
  pub paths : List String

abbrev pprof_paths : List String
pprof_paths =
    "/debug/pprof/" ∷ "/debug/pprof/cmdline" ∷ "/debug/pprof/profile" ∷ "/debug/pprof/symbol"
    ∷ "/debug/pprof/trace" ∷ []

listening : Env → Result EnvError (Option PprofServer)
listening env = do
  addr ← required env "DWSS_PPROF_HTTP_ADDR"
  ok (some (record { addr = addr; paths = pprof_paths }))

-- No server and no error where the profiler is turned off; the address is asked for only where it
-- is on.
unfoldable pub start_from_env : Env → Result EnvError (Option PprofServer)
unfolding listening
start_from_env env = do
  enabled ← required_bool env "DWSS_PPROF_ENABLED"
  if enabled then listening env else ok none

-- `decimal` is the format `%d`.
unfoldable pub profile_url : (ℤ → String) → Env → Result EnvError String
profile_url decimal env = do
  addr ← required env "DWSS_PPROF_HTTP_ADDR"
  sec ← required_int env "DWSS_PPROF_PROFILE_SECONDS"
  ok (concat "http://" (concat addr (concat "/debug/pprof/profile?seconds=" (decimal sec))))

-- `shutdown` is the error of `Shutdown` for a server, if it has one.
unfoldable pub stop_pprof : {E : Type 0} → (PprofServer → Option E) → Option PprofServer → Option E
stop_pprof shutdown none = none
stop_pprof shutdown (some s) = shutdown s

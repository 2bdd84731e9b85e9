-- ===== src/Warmkit/Engine/Stop.antt =====
-- `Stop` and `State` of warmkit/engine.go.
use itmo_master_research.Base.{Bool, false, Option, some, if◌then◌else◌}
use itmo_master_research.Warmkit.Types.{State, Error, external}
use itmo_master_research.Warmkit.Engine.{Engine}

unfoldable pub engine_state : {R : Type 0} → Engine R → State
engine_state e = e.fsm.state

-- `close` is the method of the registry; `ends` says that the watch goroutine, cancelled, ends
-- before the context does. Without it the registry stays open.
unfoldable pub stop_engine :
    {R : Type 0} → (R → R × Option Error) → Engine R → Bool → Engine R × Option Error
stop_engine close e ends =
    if ends
    then (let (reg, failed) = close e.reg in (record e { watching = false; reg = reg }, failed))
    else (e, some (external "context"))

-- ===== src/Experiment.antt =====
-- benchmark/internal/experiment/: how runs are collected. What a run measures comes from outside,
-- as the outcome of each attempt.
pub mod Overhead
pub mod Independent
use itmo_master_research.Base.{ℤ, String, ◌==◌, Bool, true, false, ◌&&◌, not, if◌then◌else◌}
use itmo_master_research.Warmkit.Types.{MetricsSnapshot, State}

-- `StateSnapshot`, from GET /state.
pub record StateSnapshot : Type 0 where
  pub index_cold : Bool
  pub warmkit : MetricsSnapshot

unfoldable pub valid_pre_probe : String → StateSnapshot → Bool → Bool
valid_pre_probe scenario snap ready_ok =
    if scenario == "s0-control"
    then snap.index_cold
    else if scenario == "s-ref"
    then not snap.index_cold
    else if scenario == "s-dw"
    then ready_ok && not snap.index_cold
    else true

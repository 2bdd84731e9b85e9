-- ===== src/Examples.antt =====
-- Concrete inputs on which the theorems of the other modules hold, and runs of the definitions.
mod Engines
mod Sessions
mod Routes
mod Settings
mod Runs
mod Services
mod Copies
mod Stores
mod Watches
mod Systems
mod Promotions
mod Samples
use itmo_master_research.Base.{ℕ, ℤ, pos, pos_part, Bool, true, false, ltb, leb, ◌+◌, ◌*◌, ◌-◌, ◌/◌}
use itmo_master_research.Base.Float.{Float64}
use itmo_master_research.Warmkit.Types.{MirrorConfig}

-- Whole numbers from 0 on in place of float64: enough to run the code on whole ratios and times.
abbrev pub whole : Float64 ℕ
whole = record {
  lit = λ n d. n / d;
  of_int = pos_part;
  add = λ a b. a + b;
  sub = λ a b. a - b;
  mul = λ a b. a * b;
  div = λ a b. a / b;
  sqrt = λ a. a;
  lt = ltb;
  le = leb;
  trunc = pos;
  floor = pos;
  ceil = pos;
  round = pos;
}

abbrev pub blank_config : MirrorConfig ℕ
blank_config = record {
  enabled = false;
  ratio = 0;
  target_instance_id = "";
  active_instance_id = "";
  session_id = "";
  updated_at = pos 0;
}

abbrev pub mirror_on_config : MirrorConfig ℕ
mirror_on_config = record {
  enabled = true;
  ratio = 1;
  target_instance_id = "b";
  active_instance_id = "a";
  session_id = "sess-1";
  updated_at = pos 0;
}

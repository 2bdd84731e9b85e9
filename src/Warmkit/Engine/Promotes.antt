-- ===== src/Warmkit/Engine/Promotes.antt =====
-- What a configuration without a mirror does to an engine (warmkit/engine.go).
use itmo_master_research.Base.{◌==◌, eq_refl, ◌≡◌, ap, Bool, false, arith}
use itmo_master_research.Warmkit.Types.{MirrorConfig, ready, active, state_eq}
use itmo_master_research.Warmkit.Fsm.{transition}
use itmo_master_research.Warmkit.Registry.{Registry}
use itmo_master_research.Warmkit.Engine.{
  Engine, advance, check_ready, warm_on_mirror, promote_on_mirror, handle_mirror_config,
}

module _ {R F : Type 0} (registry : Registry R) (positive : F → Bool) where
  -- A ready engine that is named active, with the mirror off.
  pub handle-promotes :
      (e : Engine R) (cfg : MirrorConfig F)
      → e.fsm.state ≡ ready
      → cfg.enabled ≡ false
      → cfg.active_instance_id ≡ e.cfg.instance_id
      → (handle_mirror_config registry positive e cfg).fsm.state ≡ active
  unfolding handle_mirror_config warm_on_mirror promote_on_mirror check_ready advance transition
      state_eq
  handle-promotes e cfg at off named =
      ground (arith, at, off, eq_refl e.cfg.instance_id, ap (λ x. x == e.cfg.instance_id) named)

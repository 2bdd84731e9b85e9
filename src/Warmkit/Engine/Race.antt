-- ===== src/Warmkit/Engine/Race.antt =====
-- What another goroutine can do between the check and the act of a method of warmkit/engine.go,
-- and a start in another role.
use itmo_master_research.Base.{
  pos, leb_ℤ, ◌≡◌, refl, ◌&&◌, ◌==◌, true, false, Bool, none, some, if◌then◌else◌, ℤ,
}
use itmo_master_research.Warmkit.Types.{registered, warming, ready, state_eq}
use itmo_master_research.Warmkit.Fsm.{transition}
use itmo_master_research.Warmkit.Registry.{Registry, RegistryLaws}
use itmo_master_research.Warmkit.Engine.{
  Engine, Config, new_engine, advance, reset_benchmark, start, readiness,
}
use itmo_master_research.Warmkit.Engine.Agreement.{Agrees}

module _ {R : Type 0} (registry : Registry R) where
  -- The test of `check_ready`.
  abbrev pub is_due : Engine R → Bool
  is_due e = leb_ℤ e.cfg.ready_after e.shadow.count && state_eq e.fsm.state warming

  -- A request has passed the test when `ResetBenchmark` runs; then the request goes on.
  unfoldable pub check_reset_advance : Engine R → Engine R
  unfolding reset_benchmark advance
  check_reset_advance e =
      let cold = (reset_benchmark registry e).0 in
      if is_due e then advance registry cold ready else cold

  -- A new engine of any other role than warmup starts without an error and stays as it was, in
  -- `Starting`, and its readiness probe answers 503.
  pub start-other_role :
      (cfg : Config) (reg : R) (now : ℤ)
      → (cfg.role == "warmup") ≡ false
      → let e = new_engine registry cfg reg in
        ((start registry e now).1 ≡ none)
        × ((start registry e now).0 ≡ e)
        × ((readiness registry (start registry e now).0).status ≡ 503)
  unfolding start new_engine transition readiness
  start-other_role cfg reg now h = rw h (refl, refl, refl)

module _ {R : Type 0} {registry : Registry R} (laws : RegistryLaws registry) where
  open laws use {stored, stored-update}

  -- On an engine of role warmup whose record agrees with it and that is due to be ready, a reset
  -- between the check of a request and its transition leaves the engine `Registered` with no
  -- request counted, while the registry shows it as `Ready`.
  pub check_reset_advance-shows_ready :
      (e : Engine R)
      → Agrees laws e
      → (e.cfg.role == "warmup") ≡ true
      → is_due registry e ≡ true
      → let raced = check_reset_advance registry e in
        (raced.fsm.state ≡ registered)
        × (raced.shadow.count ≡ pos 0)
        × (stored raced.reg raced.cfg.service_name raced.cfg.instance_id ≡ some ready)
  unfolding check_reset_advance
  check_reset_advance-shows_ready e a role due =
      rw (role, due)
        (
          refl,
          refl,
          stored-update _ e.cfg.service_name e.cfg.instance_id ready
              (stored-update e.reg e.cfg.service_name e.cfg.instance_id registered a.shown),
        )

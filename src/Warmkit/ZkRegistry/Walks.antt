-- ===== src/Warmkit/ZkRegistry/Walks.antt =====
-- What `ensurePath` of warmkit/registry.go makes on the way to a folder, and that the nodes of the
-- instances and of the mirror configuration lie beside it.
use Prim.Native.String.{◌++◌ as concat, count}
use text.Mathlib.TextLemmas.{append_assoc, length-append, length-nil, append_cancel_left}
use itmo_master_research.Base.{suc, ◌<◌, String, ◌≡◌, ◌≢◌, refl, sym, ap, ◌∙◌, arith}
use itmo_master_research.Base.Text.{split, trim_func}
use itmo_master_research.Warmkit.ZkRegistry.Paths.{
  slash, Visits, Visits-map, IsConfig, Visits-IsConfig, config≢services, split-config, IsWithin,
  Visits-IsWithin, total-path,
}
use itmo_master_research.Warmkit.ZkRegistry.{instances_path, instance_path, mirror_path}

-- The walk of `ensurePath` to the folder of the mirror configuration makes no node below
-- `/services`.
pub config_walk :
    (service z : String)
    → Visits
        (λ q. q ≢ concat "/services/" z)
        ""
        (split b'/' (trim_func slash (concat "/config/" service)))
config_walk service z =
    let (ps, e) = split-config service in
    let first : IsConfig (concat "" (concat "/" "config")) = ("", refl) in
    Visits-map {P = IsConfig} {Q = λ q. q ≢ concat "/services/" z}
      (λ q c h. config≢services c.0 z (sym c.1 ∙ h)) "" _
      (rw e (first, Visits-IsConfig "/config" ps first))

-- The walk to a folder makes no node with a longer path.
pub folder_walk :
    (x mine : String)
    → suc (count x) < count mine
    → Visits (λ q. q ≢ mine) "" (split b'/' (trim_func slash (concat "/" x)))
folder_walk x mine h =
    Visits-map {P = IsWithin (suc (count x))} {Q = λ q. q ≢ mine}
      (λ q within e. omega (arith, within, h, ap count e)) "" _
      (Visits-IsWithin (suc (count x)) "" _ (omega (arith, total-path x, length-nil)))

abbrev pub services_tail : String → String
services_tail service = concat "services/" (concat service "/instances")

pub instances_path-slash :
    (service : String) → instances_path service ≡ concat "/" (services_tail service)
unfolding instances_path
instances_path-slash service = (append_assoc "/" "services/" (concat service "/instances"))

-- The instance's path, as the proxy and the coordinator put it together.
pub instance_path-flat :
    (service id : String)
    → instance_path service id ≡ concat "/services/" (concat service (concat "/instances/" id))
unfolding instance_path instances_path
instance_path-flat service id =
    append_assoc "/services/" (concat service "/instances") (concat "/" id)
    ∙ ap (concat "/services/") (
        append_assoc service "/instances" (concat "/" id)
        ∙ ap (concat service) (sym (append_assoc "/instances" "/" id)))

pub instance_path-longer :
    (service id : String) → suc (count (services_tail service)) < count (instance_path service id)
unfolding instance_path
instance_path-longer service id = omega (
  arith,
  length-append (instances_path service) (concat "/" id),
  length-append "/" id,
  ap count (instances_path-slash service),
  length-append "/" (services_tail service),
)

pub instance_path-inj :
    (service id id2 : String) → instance_path service id ≡ instance_path service id2 → id ≡ id2
unfolding instance_path
instance_path-inj service id id2 h =
    append_cancel_left "/" id id2
      (append_cancel_left (instances_path service) (concat "/" id) (concat "/" id2) h)

pub mirror_path-config : (service z : String) → mirror_path service ≢ concat "/services/" z
unfolding mirror_path
mirror_path-config service z h =
    config≢services (concat "/" (concat service "/mirror")) z
      (sym (append_assoc "/config" "/" (concat service "/mirror")) ∙ h)

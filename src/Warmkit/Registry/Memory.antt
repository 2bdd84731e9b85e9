-- ===== src/Warmkit/Registry/Memory.antt =====
-- `MemoryRegistry` of warmkit/registry.go: a map from "service/id" to the instance records, the
-- mirror configuration, and the buffered channel of its changes.
use Prim.Native.String.{◌++◌ as concat}
use mathlib.Core.Option
use itmo_master_research.Base.{
  ℕ, ◌≡◌, String, List, [], ◌∷◌, ◌++◌, Option, none, some, if◌then◌else◌, ltb, length, arith,
  eq_refl, Option-cases, inl, inr,
}
use itmo_master_research.Base.Dict.{lookup, insert, lookup-insert}
use itmo_master_research.Warmkit.Types.{
  State, InstanceRecord, MirrorConfig, Error, instance_not_found,
}
use itmo_master_research.Warmkit.Registry.{Registry, RegistryLaws}

pub record MemoryRegistry (F : Type 0) : Type 0 where
  pub instances : List (String × InstanceRecord)
  pub mirror : MirrorConfig F
  pub watch_ch : List (MirrorConfig F)

-- The capacity of `watchCh`.
abbrev pub watch_cap : ℕ
watch_cap = 8

unfoldable pub key : String → String → String
key service id = concat service (concat "/" id)

module _ {F : Type 0} where
  unfoldable pub register_instance :
      MemoryRegistry F → String → String → InstanceRecord → MemoryRegistry F × Option Error
  unfolding key insert
  register_instance m service id rec =
      (record m { instances = insert (key service id) rec m.instances }, none)

  unfoldable pub update_instance_state :
      MemoryRegistry F → String → String → State → MemoryRegistry F × Option Error
  unfolding key insert lookup
  update_instance_state m service id s = elim (lookup (key service id) m.instances) [
    | none ↦ (m, some instance_not_found)
    | some rec ↦ (
      record m { instances = insert (key service id) (record rec { state = s }) m.instances },
      none,
    )
  ]

  -- A full channel drops the configuration: the send is the `default` case's.
  unfoldable pub set_mirror : MemoryRegistry F → MirrorConfig F → MemoryRegistry F
  set_mirror m cfg =
      let kept = record m { mirror = cfg } in
      if ltb (length m.watch_ch) watch_cap
      then record kept { watch_ch = m.watch_ch ++ cfg ∷ [] }
      else kept

  abbrev pub memory_registry : Registry (MemoryRegistry F)
  memory_registry = record {
    register_instance = register_instance;
    update_instance_state = update_instance_state;
  }

  unfoldable pub stored : MemoryRegistry F → String → String → Option State
  stored m service id = Option.map (λ rec. rec.state) (lookup (key service id) m.instances)

  pub stored-register :
      (m : MemoryRegistry F) (service id : String) (rec : InstanceRecord)
      → (register_instance m service id rec).1 ≡ none
      → stored (register_instance m service id rec).0 service id ≡ some rec.state
  unfolding stored register_instance
  stored-register m service id rec h = ground (arith, lookup-insert k k rec m.instances, eq_refl k)
    where
      k : String
      k = key service id

  pub stored-update :
      (m : MemoryRegistry F) (service id : String) (s : State) {old : State}
      → stored m service id ≡ some old
      → stored (update_instance_state m service id s).0 service id ≡ some s
  unfolding stored update_instance_state
  stored-update m service id s h = elim (Option-cases (lookup k m.instances)) [
    | inl gone ↦ ground (arith, gone)
    | inr (rec, there) ↦
        ground (arith, there, lookup-insert k k (record rec { state = s }) m.instances, eq_refl k)
  ]
    where
      k : String
      k = key service id

  abbrev pub memory_laws : RegistryLaws memory_registry
  memory_laws = record {
    stored = stored;
    stored-register = stored-register;
    stored-update = stored-update;
  }

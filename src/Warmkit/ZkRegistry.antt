-- ===== src/Warmkit/ZkRegistry.antt =====
-- The ZooKeeper side of warmkit/registry.go: `ZKRegistry`, `WriteMirrorConfig`, `ReadMirrorConfig`.
pub mod RoundTrip
pub mod Connecting
pub mod Paths
pub mod Walks
pub mod Stored
pub mod Frames
use Prim.Native.String.{◌++◌ as concat}
use itmo_master_research.Base.{
  ℤ, String, Bool, true, false, List, [], ◌∷◌, Option, none, some, eqb, if◌then◌else◌, not,
}
use itmo_master_research.Base.Result.{Result, ok, err, ◌>>=◌}
use itmo_master_research.Base.Text.{split, trim_func}
use itmo_master_research.Warmkit.Types.{State, InstanceRecord, MirrorConfig, Error, external}
use itmo_master_research.Warmkit.Registry.{Registry}
use itmo_master_research.Zk.{Zk, ZkError, node_exists, Codec, any_version}

unfoldable pub instances_path : String → String
instances_path service = concat "/services/" (concat service "/instances")

unfoldable pub instance_path : String → String → String
unfolding instances_path
instance_path service id = concat (instances_path service) (concat "/" id)

unfoldable pub mirror_path : String → String
mirror_path service = concat "/config/" (concat service "/mirror")

module _ {S B : Type 0} (zk : Zk S B) where
  -- One folder on the way; a node that another client has just made is no error.
  ensure_node : S → String → S × Option ZkError
  ensure_node s cur = elim (zk.exists s cur) [
    | err e ↦ (s, some e)
    | ok true ↦ (s, none)
    | ok false ↦
        (let (s', e) = zk.create s cur zk.empty false in
          elim e [
            | none ↦ (s', none)
            | some node_exists ↦ (s', none)
            | some other ↦ (s', some other)
          ])
  ]

  -- The loop of `ensurePath` over the parts that are left.
  ensure_parts : S → String → List String → S × Option ZkError
  unfolding ensure_node
  ensure_parts s cur [] = (s, none)
  ensure_parts s cur (p ∷ ps) =
      let next = concat cur (concat "/" p) in
      let (s', e) = ensure_node s next in
      elim e [ none ↦ ensure_parts s' next ps | some x ↦ (s', some x) ]

  unfoldable pub ensure_path : S → String → S × Option ZkError
  unfolding ensure_parts split trim_func
  ensure_path s path = ensure_parts s "" (split b'/' (trim_func (λ c. eqb c b'/') path))

  -- `Create`, or `Set` where the node is there already.
  create_or_set : S → String → B → S × Option ZkError
  create_or_set s path b =
      let (s', e) = zk.create s path b true in
      elim e [
        | none ↦ (s', none)
        | some node_exists ↦ zk.set s' path b any_version
        | some other ↦ (s', some other)
      ]

  module _ (records : Codec InstanceRecord B) where
    unfoldable pub register_instance : S → String → String → InstanceRecord → S × Option ZkError
    unfolding create_or_set ensure_path instances_path instance_path
    register_instance s service id rec =
        let (s', e) = ensure_path s (instances_path service) in
        elim e [
          | some x ↦ (s', some x)
          | none ↦ elim (records.marshal rec) [
            | err x ↦ (s', some x)
            | ok b ↦ create_or_set s' (instance_path service id) b
          ]
        ]

    -- The new bytes and the version that they replace.
    restated : B × ℤ → State → Result ZkError (B × ℤ)
    restated (b, version) st = do
      rec ← records.unmarshal b
      nb ← records.marshal (record rec { state = st })
      ok (nb, version)

    unfoldable pub update_instance_state : S → String → String → State → S × Option ZkError
    unfolding restated instance_path
    update_instance_state s service id st =
        let path = instance_path service id in
        elim (zk.get s path >>= λ found. restated found st) [
          | err x ↦ (s, some x)
          | ok (nb, version) ↦ zk.set s path nb version
        ]

    -- The errors of the service reach the engine as errors of a library.
    as_error : S × Option ZkError → S × Option Error
    as_error (s, none) = (s, none)
    as_error (s, some e) = (s, some (external "zk"))

    unfoldable pub zk_registry : Registry S
    unfolding as_error
    zk_registry = record {
      register_instance = λ s service id rec. as_error (register_instance s service id rec);
      update_instance_state = λ s service id st. as_error (update_instance_state s service id st);
    }

  module _ {F : Type 0} (configs : Codec (MirrorConfig F) B) where
    -- What `WriteMirrorConfig` does once the folder is there.
    unfoldable pub put_mirror : S → String → Result ZkError B → S × Option ZkError
    put_mirror s path (err e) = (s, some e)
    put_mirror s path (ok b) = elim (zk.exists s path) [
      | err e ↦ (s, some e)
      | ok false ↦ zk.create s path b false
      | ok true ↦ zk.set s path b any_version
    ]

    -- `now` is `time.Now().UnixMilli()`.
    unfoldable pub write_mirror_config : S → String → MirrorConfig F → ℤ → S × Option ZkError
    write_mirror_config s service cfg now =
        let (s', e) = ensure_path s (concat "/config/" service) in
        elim e [
          | some x ↦ (s', some x)
          | none ↦
              put_mirror s' (mirror_path service)
                (configs.marshal (record cfg { updated_at = now }))
        ]

    -- `zero` is `MirrorConfig{}`.
    unfoldable pub read_mirror_config :
        MirrorConfig F → S → String → Result ZkError (MirrorConfig F)
    unfolding mirror_path
    read_mirror_config zero s service = do
      found ← zk.get s (mirror_path service)
      if zk.is_empty found.0 then ok zero else configs.unmarshal found.0

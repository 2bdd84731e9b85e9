-- ===== src/Warmkit/ZkRegistry/Frames.antt =====
-- What the writes of warmkit/registry.go leave as it was: every node but the one they are about, and
-- the folders on the way to it.
use Prim.Native.String.{◌++◌ as concat, count}
use itmo_master_research.Base.{
  suc, ◌<◌, ℤ, String, ◌≡◌, ◌≢◌, refl, sym, ap, subst, ◌∙◌, inl, inr, true, false, List, [], ◌∷◌,
  Option, none, some, Option-cases, arith,
}
use itmo_master_research.Base.Result.{Result, ok, err, Result-cases, ◌>>=◌}
use itmo_master_research.Base.Text.{split, trim_func}
use itmo_master_research.Warmkit.Types.{State, InstanceRecord, MirrorConfig}
use itmo_master_research.Warmkit.ZkRegistry.{
  instances_path, instance_path, mirror_path, ensure_node, ensure_parts, ensure_path, create_or_set,
  register_instance, update_instance_state, restated, as_error, zk_registry, put_mirror,
  write_mirror_config,
}
use itmo_master_research.Warmkit.ZkRegistry.Paths.{slash, Visits}
use itmo_master_research.Warmkit.ZkRegistry.Walks.{
  config_walk, folder_walk, instances_path-slash, services_tail, mirror_path-config,
}
use itmo_master_research.Zk.{Zk, ZkError, node_exists, Codec, ZkFrames, any_version}

module _ {S B : Type 0} {zk : Zk S B} (frames : ZkFrames zk) (mine : String) where
  -- The service after a call, at the node.
  abbrev pub Kept : S → S → Type 0
  Kept s s' = zk.get s' mine ≡ zk.get s mine

  ensure_node-Kept : (s : S) (cur : String) → cur ≢ mine → Kept s (ensure_node zk s cur).0
  unfolding ensure_node
  ensure_node-Kept s cur h =
      let other = frames.get-create_other s cur mine zk.empty false h in
      elim (Result-cases (zk.exists s cur)) [
        | inr (e, failed) ↦ ground (arith, failed)
        | inl (true, there) ↦ ground (arith, there)
        | inl (false, gone) ↦ elim (Option-cases (zk.create s cur zk.empty false).1) [
          | inl made ↦ ground (arith, gone, made, other)
          | inr (node_exists, late) ↦ ground (arith, gone, late, other)
          | inr (x, failed) ↦ ground (arith, gone, failed, other)
        ]
      ]

  ensure_parts-Kept :
      (s : S) (cur : String) (ps : List String)
      → Visits (λ q. q ≢ mine) cur ps
      → Kept s (ensure_parts zk s cur ps).0
  unfolding ensure_parts
  ensure_parts-Kept s cur [] v = refl
  ensure_parts-Kept s cur (p ∷ ps) (v, vs) =
      let next = concat cur (concat "/" p) in
      let step = ensure_node zk s next in
      let kept = ensure_node-Kept s next v in
      elim (Option-cases step.1) [
        | inl made ↦ ground (arith, made, kept, ensure_parts-Kept step.0 next ps vs)
        | inr (x, failed) ↦ ground (arith, failed, kept)
      ]

  create_or_set-Kept :
      (s : S) (path : String) (b : B) → path ≢ mine → Kept s (create_or_set zk s path b).0
  unfolding create_or_set
  create_or_set-Kept s path b h =
      let c = zk.create s path b true in
      let other = frames.get-create_other s path mine b true h in
      elim (Option-cases c.1) [
        | inl made ↦ ground (arith, made, other)
        | inr (node_exists, there) ↦
            ground (arith, there, other, frames.get-set_other c.0 path mine b any_version h)
        | inr (x, failed) ↦ ground (arith, failed, other)
      ]

  module _ {F : Type 0} (configs : Codec (MirrorConfig F) B) where
    put_mirror-Kept :
        (s : S) (path : String) (b : Result ZkError B)
        → path ≢ mine
        → Kept s (put_mirror zk configs s path b).0
    unfolding put_mirror
    put_mirror-Kept s path (err e) h = refl
    put_mirror-Kept s path (ok b) h = elim (Result-cases (zk.exists s path)) [
      | inr (e, failed) ↦ ground (arith, failed)
      | inl (true, there) ↦ ground (arith, there, frames.get-set_other s path mine b any_version h)
      | inl (false, gone) ↦ ground (arith, gone, frames.get-create_other s path mine b false h)
    ]

    -- A write of the mirror configuration changes no node below `/services`.
    pub write_mirror_config-Kept :
        (s : S) (service : String) (cfg : MirrorConfig F) (now : ℤ) (z : String)
        → mine ≡ concat "/services/" z
        → Kept s (write_mirror_config zk configs s service cfg now).0
    unfolding write_mirror_config ensure_path mirror_path
    write_mirror_config-Kept s service cfg now z below =
        let path = mirror_path service in
        let walked = ensure_parts-Kept s "" _ (
          subst
            (λ m. Visits (λ q. q ≢ m) "" (split b'/' (trim_func slash (concat "/config/" service))))
            (sym below) (config_walk service z)) in
        let bytes = configs.marshal (record cfg { updated_at = now }) in
        let folder = ensure_path zk s (concat "/config/" service) in
        let written =
          put_mirror-Kept folder.0 path bytes (λ h. mirror_path-config service z (h ∙ below)) in
        elim (Option-cases folder.1) [
          | inr (x, failed) ↦ ground (arith, failed, walked)
          | inl ready ↦ ground (arith, ready, walked, written)
        ]

  module _ (records : Codec InstanceRecord B) where
    pub register-Kept :
        (s : S) (service id : String) (rec : InstanceRecord)
        → suc (count (services_tail service)) < count mine
        → instance_path service id ≢ mine
        → Kept s (register_instance zk records s service id rec).0
    unfolding register_instance ensure_path
    register-Kept s service id rec long h =
        let path = instances_path service in
        let walked = ensure_parts-Kept s "" _ (
          subst (λ p. Visits (λ q. q ≢ mine) "" (split b'/' (trim_func slash p)))
            (sym (instances_path-slash service)) (folder_walk (services_tail service) mine long)) in
        let folder = ensure_path zk s path in
        elim (Option-cases folder.1) [
          | inr (x, failed) ↦ ground (arith, failed, walked)
          | inl ready ↦ elim (Result-cases (records.marshal rec)) [
            | inr (x, m) ↦ ground (arith, ready, m, walked)
            | inl (b, m) ↦ ground (
              arith,
              ready,
              m,
              walked,
              create_or_set-Kept folder.0 (instance_path service id) b h,
            )
          ]
        ]

    pub update-Kept :
        (s : S) (service id : String) (st : State)
        → instance_path service id ≢ mine
        → Kept s (update_instance_state zk records s service id st).0
    unfolding update_instance_state
    update-Kept s service id st h = elim (Result-cases written) [
      | inr (x, failed) ↦ ground (arith, failed)
      | inl ((nb, n), found) ↦ ground (arith, found, frames.get-set_other s path mine nb n h)
    ]
      where
        path : String
        path = instance_path service id

        written : Result ZkError (B × ℤ)
        written = zk.get s path >>= λ found. restated zk records found st

    as_error-conn : (r : S × Option ZkError) → (as_error zk records r).0 ≡ r.0
    unfolding as_error
    as_error-conn (s, none) = refl
    as_error-conn (s, some e) = refl

    -- The same of the registry that an engine has.
    pub registry_update-Kept :
        (s : S) (service id : String) (st : State)
        → instance_path service id ≢ mine
        → Kept s ((zk_registry zk records).update_instance_state s service id st).0
    unfolding zk_registry as_error
    registry_update-Kept s service id st h =
        ap (λ t. zk.get t mine) (as_error-conn (update_instance_state zk records s service id st))
        ∙ update-Kept s service id st h

    pub registry_register-Kept :
        (s : S) (service id : String) (rec : InstanceRecord)
        → suc (count (services_tail service)) < count mine
        → instance_path service id ≢ mine
        → Kept s ((zk_registry zk records).register_instance s service id rec).0
    unfolding zk_registry as_error
    registry_register-Kept s service id rec long h =
        ap (λ t. zk.get t mine) (as_error-conn (register_instance zk records s service id rec))
        ∙ register-Kept s service id rec long h

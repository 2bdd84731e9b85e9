-- ===== src/Warmkit/ZkRegistry/RoundTrip.antt =====
-- What `WriteMirrorConfig` wrote, `ReadMirrorConfig` reads (warmkit/registry.go).
use Prim.Native.String.{◌++◌ as concat}
use itmo_master_research.Base.{
  ℤ, String, true, false, ◌≡◌, refl, sym, ◌∙◌, inl, inr, none, some, arith, Option-cases,
}
use itmo_master_research.Base.Result.{Result, ok, err, Result-cases}
use itmo_master_research.Warmkit.Types.{MirrorConfig}
use itmo_master_research.Warmkit.ZkRegistry.{
  mirror_path, ensure_path, put_mirror, write_mirror_config, read_mirror_config,
}
use itmo_master_research.Zk.{Zk, ZkError, Codec, ZkLaws, CodecLaws, any_version}

module _ {S B F : Type 0} {zk : Zk S B} {configs : Codec (MirrorConfig F) B} (laws : ZkLaws zk)
    (codec : CodecLaws zk configs) where
  put_created :
      (s : S) (path : String) (b : B)
      → zk.exists s path ≡ ok false
      → put_mirror zk configs s path (ok b) ≡ zk.create s path b false
  unfolding put_mirror
  put_created s path b e = ground (arith, e)

  put_replaced :
      (s : S) (path : String) (b : B)
      → zk.exists s path ≡ ok true
      → put_mirror zk configs s path (ok b) ≡ zk.set s path b any_version
  unfolding put_mirror
  put_replaced s path b e = ground (arith, e)

  put_failed :
      (s : S) (path : String) (b : B) (x : ZkError)
      → zk.exists s path ≡ err x
      → put_mirror zk configs s path (ok b) ≡ (s, some x)
  unfolding put_mirror
  put_failed s path b x e = ground (arith, e)

  -- The last call of a successful write left the bytes at the path.
  put_mirror-get :
      (s s' : S) (path : String) (m : Result ZkError B)
      → put_mirror zk configs s path m ≡ (s', none)
      → (b : B) × (v : ℤ) × (m ≡ ok b) × (zk.get s' path ≡ ok (b, v))
  put_mirror-get s s' path (err e) h = unfold put_mirror in cc
  put_mirror-get s s' path (ok b) h = elim (Result-cases (zk.exists s path)) [
    | inl (true, e) ↦
        let (v, at) = laws.get-set s s' path b any_version (sym (put_replaced s path b e) ∙ h) in
        (b, v, refl, at)
    | inl (false, e) ↦
        let (v, at) = laws.get-create s s' path b false (sym (put_created s path b e) ∙ h) in
        (b, v, refl, at)
    | inr (x, e) ↦ cc (sym (put_failed s path b x e) ∙ h)
  ]

  written :
      (s s' : S) (service : String) (cfg : MirrorConfig F) (now : ℤ)
      → write_mirror_config zk configs s service cfg now ≡ (s', none)
      → (s1 : S) × (put_mirror zk configs s1
            (mirror_path service)
            (configs.marshal (record cfg { updated_at = now }))
          ≡ (s', none))
  unfolding write_mirror_config
  written s s' service cfg now h =
      let folder = concat "/config/" service in
      elim (Option-cases (ensure_path zk s folder).1) [
        | inl e ↦ ((ensure_path zk s folder).0, ground (arith, e))
        | inr (x, e) ↦ absurd (ground (arith, e))
      ]

  read-bytes :
      (zero c : MirrorConfig F) (s : S) (service : String) (b : B) (v : ℤ)
      → zk.get s (mirror_path service) ≡ ok (b, v)
      → zk.is_empty b ≡ false
      → configs.unmarshal b ≡ ok c
      → read_mirror_config zk configs zero s service ≡ ok c
  unfolding read_mirror_config
  read-bytes zero c s service b v g e u = ground (arith, g, e, u)

  -- After a write that reported no error, to a service that obeys `ZkLaws` and with an encoding
  -- that obeys `CodecLaws`, the next read gives the configuration that was written, with the time
  -- of the write.
  pub read-write :
      (zero cfg : MirrorConfig F) (s s' : S) (service : String) (now : ℤ)
      → write_mirror_config zk configs s service cfg now ≡ (s', none)
      → read_mirror_config zk configs zero s' service ≡ ok (record cfg { updated_at = now })
  read-write zero cfg s s' service now h =
      let (s1, put) = written s s' service cfg now h in
      let (b, v, m, g) = put_mirror-get s1 s' (mirror_path service) _ put in
      read-bytes zero (record cfg { updated_at = now }) s' service b v g
        (codec.marshal_nonempty (record cfg { updated_at = now }) b m)
        (codec.round_trip (record cfg { updated_at = now }) b m)

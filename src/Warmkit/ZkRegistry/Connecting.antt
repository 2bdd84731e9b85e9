-- ===== src/Warmkit/ZkRegistry/Connecting.antt =====
-- `ConnectZK`, `RegisterActive`, `Close` and the watch of `WatchMirror` of warmkit/registry.go.
use itmo_master_research.Base.{
  ℤ, String, ◌≡◌, inl, inr, true, List, [], ◌∷◌, Option, none, some, if◌then◌else◌, Option-cases,
  arith, Bool-cases,
}
use itmo_master_research.Base.Result.{Result, ok, err, Result-cases}
use itmo_master_research.Warmkit.Types.{active, InstanceRecord, MirrorConfig}
use itmo_master_research.Warmkit.ZkRegistry.{
  mirror_path, instances_path, instance_path, ensure_path, create_or_set, register_instance,
  read_mirror_config,
}
use itmo_master_research.Zk.{Zk, ZkError, node_exists, Codec, ZkLaws, CodecLaws, any_version}

-- `zk.Connect` to some endpoints with a session timeout, and `Close`, by what they do to the
-- service; a closed connection loses its ephemeral nodes.
pub record Dialer (S : Type 0) : Type 0 where
  pub connect : S → List String → ℤ → S × Option ZkError
  pub close : S → S

-- The connection of `zk.Connect`, or its error.
abbrev pub connected : {S : Type 0} → S × Option ZkError → Result ZkError S
connected (s, none) = ok s
connected (s, some e) = err e

module _ {S B : Type 0} (zk : Zk S B) (records : Codec InstanceRecord B) (dialer : Dialer S) where
  unfoldable pub connect_zk : S → List String → ℤ → S × Option ZkError
  connect_zk s endpoints timeout = dialer.connect s endpoints timeout

  abbrev pub active_record : String → ℤ → InstanceRecord
  active_record addr now = record { addr = addr; state = active; role = "active"; started_at = now }

  -- What `RegisterActive` does behind the registration.
  abbrev pub or_close : S × Option ZkError → S × Option ZkError
  or_close (s, none) = (s, none)
  or_close (s, some e) = (dialer.close s, some e)

  -- `now` is `time.Now().UnixMilli()`.
  unfoldable pub register_active :
      S → List String → ℤ → String → String → String → ℤ → S × Option ZkError
  unfolding connect_zk
  register_active s endpoints timeout service id addr now =
      let (s', e) = connect_zk s endpoints timeout in
      elim e [
        | some x ↦ (s', some x)
        | none ↦ or_close (register_instance zk records s' service id (active_record addr now))
      ]

-- `left b` is what `json.Unmarshal` leaves in a blank configuration when it fails on `b`.
module _ {S B F : Type 0} (zk : Zk S B) (configs : Codec (MirrorConfig F) B)
    (blank : MirrorConfig F) (left : B → MirrorConfig F) where
  abbrev decoded : B → MirrorConfig F
  decoded b =
      if zk.is_empty b then blank else elim (configs.unmarshal b) [ ok cfg ↦ cfg | err e ↦ left b ]

  -- One round of the loop: nothing is sent where the node cannot be read.
  unfoldable pub zk_watch_round : S → String → Option (MirrorConfig F)
  unfolding mirror_path
  zk_watch_round s service = elim (zk.get s (mirror_path service)) [
    | err e ↦ none
    | ok (b, version) ↦ some (decoded b)
  ]

  -- The configurations that the channel delivers, of the states of the service in which the loop
  -- wakes up.
  unfoldable pub zk_watch_mirror : String → List S → List (MirrorConfig F)
  unfolding zk_watch_round
  zk_watch_mirror service [] = []
  zk_watch_mirror service (s ∷ ss) =
      let rest = zk_watch_mirror service ss in
      elim (zk_watch_round s service) [ none ↦ rest | some cfg ↦ cfg ∷ rest ]

  -- What `ReadMirrorConfig` can read, the watch delivers.
  pub zk_watch_round-read :
      (s : S) (service : String) (cfg : MirrorConfig F)
      → read_mirror_config zk configs blank s service ≡ ok cfg
      → zk_watch_round s service ≡ some cfg
  unfolding zk_watch_round read_mirror_config
  zk_watch_round-read s service cfg h = elim (Result-cases (zk.get s (mirror_path service))) [
    | inr (e, failed) ↦ absurd (ground (arith, failed, h))
    | inl ((b, version), got) ↦ elim (Bool-cases (zk.is_empty b)) [
      | inl empty_node ↦ ground (arith, got, empty_node, h)
      | inr full ↦ ground (arith, got, full, h)
    ]
  ]

-- The record of an instance, as the service has it.
abbrev pub Shows :
    {S B : Type 0} → Zk S B → Codec InstanceRecord B → S → String → String → InstanceRecord → Type 0
Shows {B = B} zk records s service id rec =
    (b : B) × (v : ℤ) × (zk.get s (instance_path service id) ≡ ok (b, v))
    × (records.unmarshal b ≡ ok rec)

module _ {S B : Type 0} {zk : Zk S B} {records : Codec InstanceRecord B} (laws : ZkLaws zk)
    (codec : CodecLaws zk records) where
  create_or_set-get :
      (s s' : S) (path : String) (b : B)
      → create_or_set zk s path b ≡ (s', none)
      → (v : ℤ) × (zk.get s' path ≡ ok (b, v))
  unfolding create_or_set
  create_or_set-get s s' path b h = elim (Option-cases (zk.create s path b true).1) [
    | inl made ↦ laws.get-create s s' path b true (ground (arith, made, h))
    | inr (node_exists, there) ↦
        laws.get-set (zk.create s path b true).0 s' path b any_version (ground (arith, there, h))
    | inr (other, failed) ↦ absurd (ground (arith, failed, h))
  ]

  -- A registration that reports no error left the record.
  pub register_instance-Shows :
      (s s' : S) (service id : String) (rec : InstanceRecord)
      → register_instance zk records s service id rec ≡ (s', none)
      → Shows zk records s' service id rec
  unfolding register_instance
  register_instance-Shows s s' service id rec h =
      let folder = instances_path service in
      elim (Option-cases (ensure_path zk s folder).1) [
        | inr (x, failed) ↦ absurd (ground (arith, failed, h))
        | inl there ↦ elim (Result-cases (records.marshal rec)) [
          | inr (x, failed) ↦ absurd (ground (arith, there, failed, h))
          | inl (b, made) ↦
              let (v, got) =
                create_or_set-get (ensure_path zk s folder).0 s' (instance_path service id) b
                  (ground (arith, there, made, h)) in
              (b, v, got, codec.round_trip rec b made)
        ]
      ]

  pub register_active-Shows :
      (dialer : Dialer S) (s s' : S) (endpoints : List String) (timeout : ℤ)
      (service id addr : String) (now : ℤ)
      → register_active zk records dialer s endpoints timeout service id addr now ≡ (s', none)
      → Shows zk records s' service id (active_record zk records dialer addr now)
  unfolding register_active
  register_active-Shows dialer s s' endpoints timeout service id addr now h =
      let rec = active_record zk records dialer addr now in
      elim (Option-cases (connect_zk zk records dialer s endpoints timeout).1) [
        | inr (x, failed) ↦ absurd (ground (arith, failed, h))
        | inl open_conn ↦
            let s1 = (connect_zk zk records dialer s endpoints timeout).0 in
            elim (Option-cases (register_instance zk records s1 service id rec).1) [
              | inl made ↦
                  register_instance-Shows s1 s' service id rec (ground (arith, open_conn, made, h))
              | inr (x, failed) ↦ absurd (ground (arith, open_conn, failed, h))
            ]
      ]

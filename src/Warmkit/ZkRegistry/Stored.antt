-- ===== src/Warmkit/ZkRegistry/Stored.antt =====
-- `ZKRegistry` of warmkit/registry.go as the registry of an engine: over a connection that is up it
-- keeps the state of an instance that it was last told.
use itmo_master_research.Base.{
  ℤ, String, ◌≡◌, sym, subst, inl, inr, Option, none, some, Option-cases, arith,
}
use itmo_master_research.Base.Result.{ok, err, Result-cases}
use itmo_master_research.Warmkit.Types.{State, InstanceRecord}
use itmo_master_research.Warmkit.Registry.{RegistryLaws}
use itmo_master_research.Warmkit.ZkRegistry.{
  instance_path, register_instance, update_instance_state, restated, as_error, zk_registry,
}
use itmo_master_research.Warmkit.ZkRegistry.Connecting.{register_instance-Shows}
use itmo_master_research.Zk.{Zk, Codec, ZkLaws, CodecLaws, IsUp}

module _ {S B : Type 0} (zk : Zk S B) (records : Codec InstanceRecord B) where
  -- The state in the node of an instance, if it can be read.
  unfoldable pub stored_state : S → String → String → Option State
  unfolding instance_path
  stored_state s service id = elim (zk.get s (instance_path service id)) [
    | err e ↦ none
    | ok (b, version) ↦ elim (records.unmarshal b) [ err e ↦ none | ok rec ↦ some rec.state ]
  ]

  stored_state-read :
      (s : S) (service id : String) (b : B) (n : ℤ) (rec : InstanceRecord)
      → zk.get s (instance_path service id) ≡ ok (b, n)
      → records.unmarshal b ≡ ok rec
      → stored_state s service id ≡ some rec.state
  unfolding stored_state
  stored_state-read s service id b n rec g u = ground (arith, g, u)

  -- Where a state is stored, the node has a record of that state.
  stored_state-node :
      (s : S) (service id : String) (old : State)
      → stored_state s service id ≡ some old
      → (b : B) × (n : ℤ) × (rec : InstanceRecord) × (zk.get s (instance_path service id)
          ≡ ok (b, n))
        × (records.unmarshal b ≡ ok rec)
  unfolding stored_state
  stored_state-node s service id old h = elim (Result-cases (zk.get s (instance_path service id))) [
    | inr (e, g) ↦ absurd (ground (arith, g, h))
    | inl ((b, n), g) ↦ elim (Result-cases (records.unmarshal b)) [
      | inr (e, u) ↦ absurd (ground (arith, g, u, h))
      | inl (rec, u) ↦ (b, n, rec, g, u)
    ]
  ]

module _ {S B : Type 0} {zk : Zk S B} {records : Codec InstanceRecord B} (laws : ZkLaws zk)
    (codec : CodecLaws zk records) where
  pub stored_state-register :
      (s : S) (service id : String) (rec : InstanceRecord)
      → ((zk_registry zk records).register_instance s service id rec).1 ≡ none
      → stored_state zk records
          ((zk_registry zk records).register_instance s service id rec).0
          service
          id
        ≡ some rec.state
  unfolding zk_registry as_error
  stored_state-register s service id rec h =
      let r = register_instance zk records s service id rec in
      elim (Option-cases r.1) [
        | inr (x, failed) ↦ absurd (ground (arith, failed, h))
        | inl done ↦
            let (b, n, at, u) =
              register_instance-Shows laws codec s r.0 service id rec (λ i. (r.0, done i)) in
            subst (λ t. stored_state zk records t service id ≡ some rec.state)
              (sym (ground (arith, done)))
              (stored_state-read zk records r.0 service id b n rec at u)
      ]

  module _ (up : IsUp zk records) where
    pub stored_state-update :
        (s : S) (service id : String) (st : State) {old : State}
        → stored_state zk records s service id ≡ some old
        → stored_state zk records
            ((zk_registry zk records).update_instance_state s service id st).0
            service
            id
          ≡ some st
    unfolding update_instance_state restated as_error zk_registry
    stored_state-update s service id st {old} h =
        let (b, n, rec, g, u) = stored_state-node zk records s service id old h in
        let (nb, m) = up.marshals (record rec { state = st }) in
        let (s', done) = up.set_found s (instance_path service id) b nb n g in
        let (v, at) = laws.get-set s s' (instance_path service id) nb n done in
        subst (λ t. stored_state zk records t service id ≡ some st)
          (sym (ground (arith, g, u, m, done)))
          (stored_state-read zk records s' service id nb v (record rec { state = st }) at
            (codec.round_trip (record rec { state = st }) nb m))

    -- What the engine relies on.
    unfoldable pub zk_laws : RegistryLaws (zk_registry zk records)
    zk_laws = record {
      stored = stored_state zk records;
      stored-register = stored_state-register;
      stored-update = stored_state-update;
    }

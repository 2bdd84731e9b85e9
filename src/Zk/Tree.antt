-- ===== src/Zk/Tree.antt =====
-- A service that never fails, as a map from paths to nodes: the hypotheses about ZooKeeper hold
-- of it. The JSON of this instance is the value itself.
use itmo_master_research.Base.{
  ℤ, pos, String, eq_refl, eq_iff, ◌≢◌, refl, inl, inr, Option-cases, Bool, true, false, ◌≡◌, List,
  Option, none, some, arith,
}
use itmo_master_research.Base.Result.{Result, ok, err}
use itmo_master_research.Base.Dict.{lookup, insert, lookup-insert}
use itmo_master_research.Zk.{
  Zk, ZkError, node_exists, no_node, failure, Codec, ZkLaws, CodecLaws, ZkFrames, IsUp,
}

-- What a node holds: nothing, a value of one of the two encoded types.
pub data Node (M I : Type 0) : Type 0 where
  blank : Node M I
  mirror : M → Node M I
  instance_of : I → Node M I

abbrev pub Tree : Type 0 → Type 0 → Type 0
Tree M I = List (String × Node M I)

module _ {M I : Type 0} where
  tree_exists : Tree M I → String → Result ZkError Bool
  unfolding lookup
  tree_exists t p = elim (lookup p t) [ none ↦ ok false | some n ↦ ok true ]

  tree_get : Tree M I → String → Result ZkError (Node M I × ℤ)
  unfolding lookup
  tree_get t p = elim (lookup p t) [ none ↦ err no_node | some n ↦ ok (n, pos 0) ]

  tree_create : Tree M I → String → Node M I → Bool → Tree M I × Option ZkError
  unfolding lookup insert
  tree_create t p n e = elim (lookup p t) [
    | none ↦ (insert p n t, none)
    | some old ↦ (t, some node_exists)
  ]

  tree_set : Tree M I → String → Node M I → ℤ → Tree M I × Option ZkError
  unfolding lookup insert
  tree_set t p n v = elim (lookup p t) [
    | none ↦ (t, some no_node)
    | some old ↦ (insert p n t, none)
  ]

  is_blank : Node M I → Bool
  is_blank blank = true
  is_blank _ = false

  unfoldable pub tree_zk : Zk (Tree M I) (Node M I)
  unfolding tree_exists tree_get tree_create tree_set is_blank
  tree_zk = record {
    exists = tree_exists;
    get = tree_get;
    create = tree_create;
    set = tree_set;
    empty = blank;
    is_empty = is_blank;
  }

  as_mirror : Node M I → Result ZkError M
  as_mirror (mirror m) = ok m
  as_mirror _ = err failure

  as_instance : Node M I → Result ZkError I
  as_instance (instance_of i) = ok i
  as_instance _ = err failure

  unfoldable pub mirror_codec : Codec M (Node M I)
  unfolding as_mirror
  mirror_codec = record { marshal = λ m. ok (mirror m); unmarshal = as_mirror }

  unfoldable pub instance_codec : Codec I (Node M I)
  unfolding as_instance
  instance_codec = record { marshal = λ i. ok (instance_of i); unmarshal = as_instance }

  get-create :
      (t t' : Tree M I) (p : String) (n : Node M I) (e : Bool)
      → tree_create t p n e ≡ (t', none)
      → (v : ℤ) × (tree_get t' p ≡ ok (n, v))
  unfolding tree_create tree_get
  get-create t t' p n e h = (pos 0, ground (arith, lookup-insert p p n t, eq_refl p))

  get-set :
      (t t' : Tree M I) (p : String) (n : Node M I) (v : ℤ)
      → tree_set t p n v ≡ (t', none)
      → (w : ℤ) × (tree_get t' p ≡ ok (n, w))
  unfolding tree_set tree_get
  get-set t t' p n v h = (pos 0, ground (arith, lookup-insert p p n t, eq_refl p))

  pub tree_laws : ZkLaws tree_zk
  unfolding tree_zk
  tree_laws = record { get-create = get-create; get-set = get-set }

  tree_create-other :
      (t : Tree M I) (p q : String) (n : Node M I) (e : Bool)
      → p ≢ q
      → tree_get (tree_create t p n e).0 q ≡ tree_get t q
  unfolding tree_create tree_get
  tree_create-other t p q n e h = elim (Option-cases (lookup p t)) [
    | inl fresh ↦ ground (arith, fresh, lookup-insert p q n t, eq_iff p q, h)
    | inr (old, there) ↦ ground (arith, there)
  ]

  tree_set-other :
      (t : Tree M I) (p q : String) (n : Node M I) (v : ℤ)
      → p ≢ q
      → tree_get (tree_set t p n v).0 q ≡ tree_get t q
  unfolding tree_set tree_get
  tree_set-other t p q n v h = elim (Option-cases (lookup p t)) [
    | inl fresh ↦ ground (arith, fresh)
    | inr (old, there) ↦ ground (arith, there, lookup-insert p q n t, eq_iff p q, h)
  ]

  pub tree_frames : ZkFrames tree_zk
  unfolding tree_zk
  tree_frames = record { get-create_other = tree_create-other; get-set_other = tree_set-other }

  tree_set-found :
      (t : Tree M I) (p : String) (b new : Node M I) (n : ℤ)
      → tree_get t p ≡ ok (b, n)
      → (t' : Tree M I) × (tree_set t p new n ≡ (t', none))
  unfolding tree_get tree_set
  tree_set-found t p b new n h = elim (Option-cases (lookup p t)) [
    | inl fresh ↦ absurd (ground (arith, fresh, h))
    | inr (old, there) ↦ (insert p new t, ground (arith, there))
  ]

  pub tree_IsUp : IsUp tree_zk instance_codec
  unfolding tree_zk instance_codec
  tree_IsUp = record { set_found = tree_set-found; marshals = λ i. (instance_of i, refl) }

  mirror_round_trip :
      (m : M) (n : Node M I)
      → ◌≡◌ {A = Result ZkError (Node M I)} (ok (mirror m)) (ok n)
      → as_mirror n ≡ ok m
  unfolding as_mirror
  mirror_round_trip m n h = ground arith

  mirror_nonempty :
      (m : M) (n : Node M I)
      → ◌≡◌ {A = Result ZkError (Node M I)} (ok (mirror m)) (ok n)
      → is_blank n ≡ false
  unfolding is_blank
  mirror_nonempty m n h = ground arith

  pub mirror_laws : CodecLaws tree_zk mirror_codec
  unfolding tree_zk mirror_codec
  mirror_laws = record { round_trip = mirror_round_trip; marshal_nonempty = mirror_nonempty }

  instance_round_trip :
      (i : I) (n : Node M I)
      → ◌≡◌ {A = Result ZkError (Node M I)} (ok (instance_of i)) (ok n)
      → as_instance n ≡ ok i
  unfolding as_instance
  instance_round_trip i n h = ground arith

  instance_nonempty :
      (i : I) (n : Node M I)
      → ◌≡◌ {A = Result ZkError (Node M I)} (ok (instance_of i)) (ok n)
      → is_blank n ≡ false
  unfolding is_blank
  instance_nonempty i n h = ground arith

  pub instance_laws : CodecLaws tree_zk instance_codec
  unfolding tree_zk instance_codec
  instance_laws = record { round_trip = instance_round_trip; marshal_nonempty = instance_nonempty }

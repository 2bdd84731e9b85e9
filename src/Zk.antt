-- ===== src/Zk.antt =====
-- The ZooKeeper connection of github.com/go-zookeeper/zk and the JSON codec, which the program
-- calls: parameters, with the documented behaviour that the theorems rely on.
pub mod Tree
use itmo_master_research.Base.{
  ℕ, ℤ, negsuc, String, Bool, true, false, ◌≡◌, ◌≢◌, ◌⊎◌, Option, none, some,
}
use itmo_master_research.Base.Result.{Result, ok, err}

pub data ZkError : Type 0 where
  node_exists no_node bad_version : ZkError
  -- the connection, or a record that cannot be encoded or decoded
  failure : ZkError

-- `S` is the state of the service behind the connection, `B` the bytes of a node. Every call may
-- fail, so a call answers with the state that it leaves and an error or none.
pub record Zk (S B : Type 0) : Type 0 where
  pub exists : S → String → Result ZkError Bool
  pub get : S → String → Result ZkError (B × ℤ)
  -- the flag says that the node is ephemeral
  pub create : S → String → B → Bool → S × Option ZkError
  -- version -1 stands for every version
  pub set : S → String → B → ℤ → S × Option ZkError
  -- `nil`, the data of a node that is only a folder
  pub empty : B
  pub is_empty : B → Bool

-- `json.Marshal` and `json.Unmarshal` at one type.
pub record Codec (A B : Type 0) : Type 0 where
  pub marshal : A → Result ZkError B
  pub unmarshal : B → Result ZkError A

abbrev pub any_version : ℤ
any_version = negsuc 0

-- A node that was created or set without an error has the data that were given.
pub record ZkLaws {S B : Type 0} (zk : Zk S B) : Type 0 where
  pub get-create :
      (s s' : S) (p : String) (b : B) (e : Bool)
      → zk.create s p b e ≡ (s', none)
      → (v : ℤ) × (zk.get s' p ≡ ok (b, v))
  pub get-set :
      (s s' : S) (p : String) (b : B) (n : ℤ)
      → zk.set s p b n ≡ (s', none)
      → (v : ℤ) × (zk.get s' p ≡ ok (b, v))

-- A node is created or set without an effect on the data of any other node, whether the call
-- succeeds or not.
pub record ZkFrames {S B : Type 0} (zk : Zk S B) : Type 0 where
  pub get-create_other :
      (s : S) (p q : String) (b : B) (e : Bool)
      → p ≢ q
      → zk.get (zk.create s p b e).0 q ≡ zk.get s q
  pub get-set_other :
      (s : S) (p q : String) (b : B) (n : ℤ) → p ≢ q → zk.get (zk.set s p b n).0 q ≡ zk.get s q

-- A connection that is up: a node whose version has just been read can be set at that version, and
-- every value can be encoded.
pub record IsUp {A S B : Type 0} (zk : Zk S B) (codec : Codec A B) : Type 0 where
  pub set_found :
      (s : S) (p : String) (b new : B) (n : ℤ)
      → zk.get s p ≡ ok (b, n)
      → (s' : S) × (zk.set s p new n ≡ (s', none))
  pub marshals : (a : A) → (b : B) × (codec.marshal a ≡ ok b)

-- What is encoded is not empty, and is decoded to the same value.
pub record CodecLaws {A S B : Type 0} (zk : Zk S B) (codec : Codec A B) : Type 0 where
  pub round_trip : (a : A) (b : B) → codec.marshal a ≡ ok b → codec.unmarshal b ≡ ok a
  pub marshal_nonempty : (a : A) (b : B) → codec.marshal a ≡ ok b → zk.is_empty b ≡ false

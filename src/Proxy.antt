-- ===== src/Proxy.antt =====
-- cmd/mirror-proxy/main.go, `proxyRouter`: the request path, and the two watch loops a round at a
-- time. What the reverse proxy makes of a request is a parameter; so are `url.Parse`, `String` of
-- a URL, `http.NewRequest` and the random number of a request.
pub mod Routing
pub mod Main
pub mod Watch
pub mod Copies
use Prim.Native.String.{◌++◌ as concat}
use itmo_master_research.Base.{
  ℕ, pos, String, ◌==◌, Bool, true, false, ◌&&◌, List, [], ◌∷◌, Option, none, some, if◌then◌else◌,
}
use itmo_master_research.Base.Dict.{lookup, insert}
use itmo_master_research.Base.Float.{Float64}
use itmo_master_research.Base.Result.{Result, ok, err}
use itmo_master_research.Base.Text.{is_empty}
use itmo_master_research.Warmkit.Types.{MirrorConfig, InstanceRecord}
use itmo_master_research.Warmkit.ZkRegistry.{read_mirror_config, instances_path}
use itmo_master_research.Zk.{Zk, ZkError, Codec}

pub record Router (F : Type 0) : Type 0 where
  pub service : String
  pub cfg : MirrorConfig F
  pub inst : List (String × String)

-- How the reverse proxy ends a request: the client gets the answer of the instance, or the 502 of a
-- request that got none, or the reverse proxy panics since the body of the answer broke off.
pub data Relay : Type 0 where
  relayed : Relay
  bad_gateway : Relay
  broken_off : Relay

-- What the router does with a client's request: its answer, and the address of the copy if one is
-- sent. A `proxied` request was handed to the reverse proxy for the address.
pub data Answer : Type 0 where
  unavailable : Answer
  bad_address : Answer
  proxied : String → Relay → Answer

pub record Routed : Type 0 where
  pub answer : Answer
  pub mirrored : Option String

module _ {F : Type 0} (float : Float64 F) where
  unfoldable pub new_proxy_router : String → MirrorConfig F → Router F
  new_proxy_router service blank = record { service = service; cfg = blank; inst = [] }

  -- An address that is known and not empty.
  unfoldable pub known_addr : Option String → Option String
  known_addr none = none
  known_addr (some addr) = if is_empty addr then none else some addr

  -- `rand.Float64() < cfg.Ratio` and the guards round it; the target of the copy.
  unfoldable pub mirror_target : Router F → String → F → Option String
  unfolding known_addr
  mirror_target p method draw =
      if (method == "GET") && p.cfg.enabled && float.lt (float.of_int (pos 0)) p.cfg.ratio
      then (if float.lt draw p.cfg.ratio
          then known_addr (lookup p.cfg.target_instance_id p.inst)
          else none)
      else none

  -- Nothing behind `proxy.ServeHTTP` is run where it panics.
  abbrev after_relay : Relay → Option String → Option String
  after_relay broken_off target = none
  after_relay _ target = target

  unfoldable pub forward : (String → Bool) → Router F → String → F → Relay → String → Routed
  forward parses p method draw relay addr =
      if parses (concat "http://" addr)
      then record {
        answer = proxied addr relay;
        mirrored = after_relay relay (mirror_target p method draw);
      }
      else record { answer = bad_address; mirrored = none }

  unfoldable pub serve_http : (String → Bool) → Router F → String → F → Relay → Routed
  serve_http parses p method draw relay =
      elim (known_addr (lookup p.cfg.active_instance_id p.inst)) [
        | none ↦ record { answer = unavailable; mirrored = none }
        | some addr ↦ forward parses p method draw relay addr
      ]

-- The copy that `mirrorRequest` sends: its method, its address and its shadow header.
pub record Copy : Type 0 where
  pub method : String
  pub url : String
  pub shadow_header : String

-- `reprint` is `url.Parse` and then `u.String()`, none for its error; `accepts` says that
-- `http.NewRequest` gives no error.
unfoldable pub mirror_request :
    (String → Option String) → (String → Bool) → String → String → Option Copy
mirror_request reprint accepts request_uri addr =
    elim (reprint (concat "http://" (concat addr request_uri))) [
      | none ↦ none
      | some url ↦
          if accepts url
          then some (record { method = "GET"; url = url; shadow_header = "1" })
          else none
    ]

module _ {S B F : Type 0} (zk : Zk S B) (configs : Codec (MirrorConfig F) B)
    (records : Codec InstanceRecord B) where
  -- A round of `watchMirror`: a configuration that cannot be read leaves the last one.
  unfoldable pub watch_mirror : MirrorConfig F → S → Router F → Router F
  watch_mirror blank s p = elim (read_mirror_config zk configs blank s p.service) [
    | err e ↦ p
    | ok cfg ↦ record p { cfg = cfg }
  ]

  -- The record of an instance, if it can be read.
  unfoldable pub read_record : S → String → String → Option InstanceRecord
  read_record s service id =
      elim (zk.get s (concat "/services/" (concat service (concat "/instances/" id)))) [
        | err e ↦ none
        | ok (b, version) ↦ elim (records.unmarshal b) [ err e ↦ none | ok rec ↦ some rec ]
      ]

  -- The loop of `refreshInstances`; the new map replaces the old one.
  pub collect : S → String → List String → List (String × String) → List (String × String)
  collect s service [] m = m
  collect s service (id ∷ ids) m =
      collect s service ids
        (elim (read_record s service id) [ none ↦ m | some rec ↦ insert id rec.addr m ])

  unfoldable pub refresh_instances : S → List String → Router F → Router F
  unfolding collect
  refresh_instances s children p = record p { inst = collect s p.service children [] }

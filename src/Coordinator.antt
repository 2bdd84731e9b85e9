-- ===== src/Coordinator.antt =====
-- cmd/warmup-coordinator/main.go: the HTTP handlers over the sessions and ZooKeeper. The ramp of a
-- session is the goroutine of Coordinator/Ramp.antt. A handler gets the decoded body or the error
-- of its decoding, and the times that `time.Now` gives.
pub mod Ramp
pub mod Sessions
pub mod Main
pub mod Methods
pub mod Frames
use Prim.Native.String.{◌++◌ as concat}
use itmo_master_research.Base.{
  ℕ, ℤ, pos, String, Bool, true, false, ◌||◌, List, [], ◌∷◌, ◌++◌, Option, none, some,
  if◌then◌else◌,
}
use itmo_master_research.Base.Dict.{lookup, insert, delete}
use itmo_master_research.Base.Float.{Float64}
use itmo_master_research.Base.Result.{Result, ok, err}
use itmo_master_research.Base.Text.{split, trim_space}
use itmo_master_research.Warmkit.Types.{
  State, ready, active, state_eq, MirrorConfig, InstanceRecord,
}
use itmo_master_research.Warmkit.ZkRegistry.{write_mirror_config}
use itmo_master_research.Zk.{Zk, ZkError, Codec}

-- The strings that the coordinator writes into `Status`.
pub data Status : Type 0 where
  running holding completed : Status

pub record Session : Type 0 where
  pub id : String
  pub target_instance_id : String
  pub active_instance_id : String
  pub ready_after : ℤ
  pub status : Status

-- `conn` is the state of ZooKeeper that the connection reaches.
pub record Coordinator (S F : Type 0) : Type 0 where
  pub conn : S
  pub service : String
  pub interval : ℤ
  pub steps : List F
  pub hold_max : ℤ
  pub sessions : List (String × Session)

pub record CreateRequest : Type 0 where
  pub target_instance_id : String
  pub ready_after : ℤ
  pub active_instance_id : String

-- The status code of an answer and what its body encodes.
pub data Reply (F : Type 0) : Type 0 where
  session_reply : ℕ → Session → Reply F
  config_reply : ℕ → MirrorConfig F → Reply F
  error_reply : ℕ → Reply F
  empty_reply : ℕ → Reply F

-- `parse` is `strconv.ParseFloat` at 64 bits.
module _ {F E : Type 0} (parse : String → Result E F) where
  parse_parts : List String → Result E (List F)
  parse_parts [] = ok []
  parse_parts (p ∷ ps) =
      let rest = parse_parts ps in
      elim (parse (trim_space p)) [
        | err e ↦ err e
        | ok v ↦ elim rest [ err e ↦ err e | ok vs ↦ ok (v ∷ vs) ]
      ]

  unfoldable pub parse_steps : String → Result E (List F)
  unfolding parse_parts split trim_space
  parse_steps raw = parse_parts (split b',' raw)

module _ {S B F : Type 0} (zk : Zk S B) (float : Float64 F) (configs : Codec (MirrorConfig F) B)
    (records : Codec InstanceRecord B) where
  abbrev pub zero_ratio : F
  zero_ratio = float.of_int (pos 0)

  -- `warmkit.WriteMirrorConfig(c.conn, c.service, cfg)`
  unfoldable pub write : Coordinator S F → MirrorConfig F → ℤ → Coordinator S F × Option ZkError
  write c cfg now =
      let (conn, e) = write_mirror_config zk configs c.conn c.service cfg now in
      (record c { conn = conn }, e)

  -- `id` is the time of the request, formatted to milliseconds. The handler also launches the ramp.
  unfoldable pub create_session :
      {E : Type 0} → Coordinator S F → Result E CreateRequest → String → Coordinator S F × Reply F
  create_session c (err e) id = (c, error_reply 400)
  create_session c (ok req) id =
      let s : Session = record {
        id = id;
        target_instance_id = req.target_instance_id;
        active_instance_id = req.active_instance_id;
        ready_after = req.ready_after;
        status = running;
      } in
      (record c { sessions = insert id s c.sessions }, session_reply 201 s)

  -- The configuration of a completed session: no mirror, and the warmed instance active.
  unfoldable pub completed_config : Session → String → MirrorConfig F
  completed_config s id = record {
    enabled = false;
    ratio = zero_ratio;
    target_instance_id = s.target_instance_id;
    active_instance_id = s.target_instance_id;
    session_id = id;
    updated_at = pos 0;
  }

  -- The answer of `completeSession` behind its write.
  abbrev pub answer_completed :
      Coordinator S F × Option ZkError → Session → Coordinator S F × Reply F
  answer_completed (c, none) s = (c, session_reply 200 s)
  answer_completed (c, some e) s = (c, error_reply 500)

  -- What `completeSession` does with the session that it found.
  pub complete_found : Coordinator S F → String → ℤ → Status → Session → Coordinator S F × Reply F
  complete_found c id now completed s = (c, session_reply 200 s)
  complete_found c id now _ s =
      let done = record s { active_instance_id = s.target_instance_id; status = completed } in
      answer_completed
        (write (record c { sessions = insert id done c.sessions }) (completed_config s id) now) done

  unfoldable pub complete_session : Coordinator S F → String → ℤ → Coordinator S F × Reply F
  unfolding complete_found
  complete_session c id now = elim (lookup id c.sessions) [
    | none ↦ (c, error_reply 404)
    | some s ↦ complete_found c id now s.status s
  ]

  unfoldable pub instance_ready : Coordinator S F → String → Bool
  instance_ready c id =
      elim (zk.get c.conn (concat "/services/" (concat c.service (concat "/instances/" id)))) [
        | err e ↦ false
        | ok (b, version) ↦ elim (records.unmarshal b) [
          | err e ↦ false
          | ok rec ↦ state_eq rec.state ready || state_eq rec.state active
        ]
      ]

  unfoldable pub get_session : Coordinator S F → String → Reply F
  get_session c id = elim (lookup id c.sessions) [
    | none ↦ error_reply 404
    | some s ↦ session_reply 200 s
  ]

  unfoldable pub delete_session : Coordinator S F → String → Coordinator S F × Reply F
  delete_session c id = (record c { sessions = delete id c.sessions }, empty_reply 204)

  unfoldable pub set_mirror_config :
      {E : Type 0} → Coordinator S F → Result E (MirrorConfig F) → ℤ → Coordinator S F × Reply F
  set_mirror_config c (err e) now = (c, error_reply 400)
  set_mirror_config c (ok cfg) now =
      let (c', e) = write c cfg now in
      elim e [ none ↦ (c', config_reply 200 cfg) | some x ↦ (c', error_reply 500) ]

-- ===== src/Coordinator/Sessions.antt =====
-- What the session handlers of cmd/warmup-coordinator/main.go do, on every branch.
use itmo_master_research.Base.{
  ℤ, String, ◌==◌, eq_refl, ◌≡◌, refl, ap, ◌∙◌, ◌≢◌, Option, none, some, if◌then◌else◌, arith,
}
use itmo_master_research.Base.Dict.{lookup, insert, lookup-insert, lookup-delete}
use itmo_master_research.Base.Float.{Float64}
use itmo_master_research.Base.Result.{ok}
use itmo_master_research.Warmkit.Types.{MirrorConfig, InstanceRecord}
use itmo_master_research.Zk.{Zk, ZkError, Codec}
use itmo_master_research.Coordinator.{
  Coordinator, Session, answer_completed, Status, running, holding, completed, CreateRequest, Reply,
  session_reply, error_reply, write, create_session, completed_config, complete_found,
  complete_session, get_session, delete_session,
}

module _ {S B F : Type 0} (zk : Zk S B) (float : Float64 F) (configs : Codec (MirrorConfig F) B)
    (records : Codec InstanceRecord B) where
  -- A session as `createSession` makes it.
  abbrev pub new_session : CreateRequest → String → Session
  new_session req id = record {
    id = id;
    target_instance_id = req.target_instance_id;
    active_instance_id = req.active_instance_id;
    ready_after = req.ready_after;
    status = running;
  }

  -- A session that has been created is found under its id until it is deleted, in place of an
  -- older session of the same id, and the other sessions read as before.
  pub get-create-delete :
      (E : Type 0) (c : Coordinator S F) (req : CreateRequest) (id other : String)
      → let created = (create_session zk float configs records {E = E} c (ok req) id).0 in
        (get_session zk float configs records created other ≡ (
          if id == other
          then session_reply 200 (new_session req id)
          else get_session zk float configs records c other))
        × (get_session zk float configs records
              (delete_session zk float configs records created id).0
              other
            ≡ (if id == other
                then error_reply 404
                else get_session zk float configs records c other))
  unfolding create_session get_session delete_session
  get-create-delete E c req id other = ground (
    arith,
    lookup-insert id other (new_session req id) c.sessions,
    lookup-delete id other (insert id (new_session req id) c.sessions),
  )

  -- The session after its completion.
  abbrev pub promoted : Session → Session
  promoted s = record s { active_instance_id = s.target_instance_id; status = completed }

  -- The state that the write of `completeSession` starts from.
  abbrev pub marked : Coordinator S F → String → Session → Coordinator S F
  marked c id s = record c { sessions = insert id (promoted s) c.sessions }

  -- The write of `completeSession`.
  abbrev pub promotion : Coordinator S F → String → ℤ → Session → Coordinator S F × Option ZkError
  promotion c id now s =
      write zk float configs records (marked c id s)
        (completed_config zk float configs records s id) now

  found_open :
      (c : Coordinator S F) (id : String) (now : ℤ) (st : Status) (s : Session)
      → st ≢ completed
      → complete_found zk float configs records c id now st s
        ≡ answer_completed zk float configs records (promotion c id now s) (promoted s)
  unfolding complete_found
  found_open c id now running s h = refl
  found_open c id now holding s h = refl
  found_open c id now completed s h = absurd (h refl)

  pub complete_open :
      (c : Coordinator S F) (id : String) (now : ℤ) (s : Session)
      → lookup id c.sessions ≡ some s
      → s.status ≢ completed
      → complete_session zk float configs records c id now
        ≡ answer_completed zk float configs records (promotion c id now s) (promoted s)
  unfolding complete_session
  complete_open c id now s found unfinished =
      rw (found, complete_session) (found_open c id now s.status s unfinished)

  pub write-sessions :
      (c : Coordinator S F) (cfg : MirrorConfig F) (now : ℤ)
      → (write zk float configs records c cfg now).0.sessions ≡ c.sessions
  unfolding write
  write-sessions c cfg now = refl

  pub answer-sessions :
      (w : Coordinator S F × Option ZkError) (s : Session)
      → (answer_completed zk float configs records w s).0 ≡ w.0
  answer-sessions (c, none) s = refl
  answer-sessions (c, some e) s = refl

  -- A session that is found and is not completed is marked as completed, with its target as the
  -- active instance, whether the write of the configuration succeeds or not.
  pub complete-sessions :
      (c : Coordinator S F) (id : String) (now : ℤ) (s : Session)
      → lookup id c.sessions ≡ some s
      → s.status ≢ completed
      → (complete_session zk float configs records c id now).0.sessions
        ≡ insert id (promoted s) c.sessions
  complete-sessions c id now s found unfinished =
      ap (λ (r : Coordinator S F × Reply F). r.0.sessions)
        (complete_open c id now s found unfinished)
      ∙ ap (λ (d : Coordinator S F). d.sessions)
          (answer-sessions (promotion c id now s) (promoted s))
      ∙ write-sessions (marked c id s) (completed_config zk float configs records s id) now

  -- Completing a completed session changes nothing, in ZooKeeper neither, and answers 200.
  complete_again :
      (c : Coordinator S F) (id : String) (now : ℤ) (s : Session)
      → lookup id c.sessions ≡ some s
      → s.status ≡ completed
      → complete_session zk float configs records c id now ≡ (c, session_reply 200 s)
  unfolding complete_session complete_found
  complete_again c id now s found finished = ground (arith, found, finished)

  -- Where a session is not yet completed and the write of the configuration fails, the request to
  -- complete it is answered with 500, and the next one with 200, though it changes nothing: the
  -- promotion is lost.
  pub complete_retry :
      (c : Coordinator S F) (id : String) (now later : ℤ) (s : Session) (x : ZkError)
      → lookup id c.sessions ≡ some s
      → s.status ≢ completed
      → (promotion c id now s).1 ≡ some x
      → let first = complete_session zk float configs records c id now in
        (first.1 ≡ error_reply 500)
        × (complete_session zk float configs records first.0 id later
            ≡ (first.0, session_reply 200 (promoted s)))
  complete_retry c id now later s x found unfinished failed = (
    ap (λ (r : Coordinator S F × Reply F). r.1) (complete_open c id now s found unfinished)
        ∙ ground (arith, failed),
    complete_again (complete_session zk float configs records c id now).0 id later (promoted s)
        (ap (lookup id) (complete-sessions c id now s found unfinished) ∙ found_self) refl,
  )
    where
      found_self : lookup id (insert id (promoted s) c.sessions) ≡ some (promoted s)
      found_self = ground (arith, lookup-insert id id (promoted s) c.sessions, eq_refl id)

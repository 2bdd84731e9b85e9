-- ===== src/Coordinator/Ramp/Config.antt =====
-- What the ramp of cmd/warmup-coordinator/main.go writes, and what it does to a session that was
-- completed while it ran.
use itmo_master_research.Base.{
  ℕ, zero, suc, ℤ, String, eq_refl, true, ◌≡◌, refl, ap, ◌∙◌, ◌≢◌, [], Option, none, some, arith,
}
use itmo_master_research.Base.Dict.{lookup, lookup-insert}
use itmo_master_research.Base.Float.{Float64}
use itmo_master_research.Base.Result.{ok}
use itmo_master_research.Warmkit.Types.{MirrorConfig, InstanceRecord}
use itmo_master_research.Warmkit.ZkRegistry.{write_mirror_config, read_mirror_config}
use itmo_master_research.Warmkit.ZkRegistry.RoundTrip.{read-write}
use itmo_master_research.Zk.{Zk, Codec, ZkLaws, CodecLaws}
use itmo_master_research.Coordinator.{
  Coordinator, Session, holding, completed, write, complete_session,
}
use itmo_master_research.Coordinator.Sessions.{promoted, complete-sessions}
use itmo_master_research.Coordinator.Ramp.{
  Pc, ramping, finishing, Ramp, launch, step_at, ramp_step, run_ramp, mark_found,
}

module _ {S B F : Type 0} (zk : Zk S B) (float : Float64 F) (configs : Codec (MirrorConfig F) B)
    (records : Codec InstanceRecord B) where
  marked_holding :
      (c : Coordinator S F) (id : String) (s : Session)
      → lookup id c.sessions ≡ some s
      → lookup id (mark_found zk float configs records c id (lookup id c.sessions)).sessions
        ≡ some (record s { status = holding })
  unfolding mark_found
  marked_holding c id s found =
      ground
        (arith, found, lookup-insert id id (record s { status = holding }) c.sessions, eq_refl id)

  mark-conn :
      (c : Coordinator S F) (id : String) (o : Option Session)
      → (mark_found zk float configs records c id o).conn ≡ c.conn
  unfolding mark_found
  mark-conn c id none = refl
  mark-conn c id (some s) = refl

  -- The last two steps of the ramp, on whatever the handlers have left.
  last_steps :
      (c : Coordinator S F) (r : Ramp F) (clock : ℕ → ℤ) (s : Session)
      → lookup r.session_id c.sessions ≡ some s
      → let end = (run_ramp zk float configs records 2 clock c (record r { pc = finishing })).0 in
        (lookup r.session_id end.sessions ≡ some (record s { status = holding }))
        × (end.conn ≡ (write zk float configs records c r.cfg (clock 0)).0.conn)
  unfolding run_ramp ramp_step write
  last_steps c r clock s found =
      let w = (write zk float configs records c r.cfg (clock 0)).0 in
      (
        marked_holding w r.session_id s found,
        mark-conn w r.session_id (lookup r.session_id w.sessions),
      )

  -- The configuration that a ramp writes: the mirror is on, between the instances of its session.
  pub record IsFor (session_id target active : String) (cfg : MirrorConfig F) : Type 0 where
    pub on : cfg.enabled ≡ true
    pub session : cfg.session_id ≡ session_id
    pub to : cfg.target_instance_id ≡ target
    pub from : cfg.active_instance_id ≡ active

  step-IsFor :
      (session_id target active : String) (pc : Pc F) (c : Coordinator S F) (r : Ramp F) (now : ℤ)
      → IsFor session_id target active r.cfg
      → IsFor session_id target active (step_at zk float configs records pc c r now).1.cfg
  unfolding step_at
  step-IsFor session_id target active (ramping []) c r now h = ground arith
  step-IsFor session_id target active _ c r now h = ground arith

  run-IsFor :
      (session_id target active : String) (n : ℕ) (clock : ℕ → ℤ) (c : Coordinator S F) (r : Ramp F)
      → IsFor session_id target active r.cfg
      → IsFor session_id target active (run_ramp zk float configs records n clock c r).1.cfg
  unfolding run_ramp ramp_step
  run-IsFor session_id target active zero clock c r h = h
  run-IsFor session_id target active (suc n) clock c r h =
      run-IsFor session_id target active n (λ k. clock (suc k)) _ _
        (step-IsFor session_id target active r.pc c r (clock 0) h)

  -- After any number of steps the configuration of a ramp has the mirror on and names the session,
  -- the target and the active instance that the ramp was launched with.
  pub launch-IsFor :
      (session_id target active : String) (n : ℕ) (clock : ℕ → ℤ) (c : Coordinator S F)
      → IsFor session_id target active
          (run_ramp zk float configs records n clock c
            (launch zk float configs records session_id target active)).1.cfg
  unfolding launch
  launch-IsFor session_id target active n clock c =
      run-IsFor session_id target active n clock c _ (ground arith)

module _ {S B F : Type 0} {zk : Zk S B} (float : Float64 F) {configs : Codec (MirrorConfig F) B}
    (records : Codec InstanceRecord B) (laws : ZkLaws zk) (codec : CodecLaws zk configs) where
  pub write-read :
      (blank cfg : MirrorConfig F) (c : Coordinator S F) (now : ℤ)
      → (write zk float configs records c cfg now).1 ≡ none
      → read_mirror_config zk configs blank
          (write zk float configs records c cfg now).0.conn
          c.service
        ≡ ok (record cfg { updated_at = now })
  unfolding write
  write-read blank cfg c now h =
      read-write laws codec blank cfg c.conn _ c.service now
        (λ i. ((write_mirror_config zk configs c.conn c.service cfg now).0, h i))

  -- When a session that is not completed is completed while its ramp is about to write its last
  -- configuration, and that write succeeds, the ramp undoes the completion: the session reads
  -- `holding` again, and the mirror configuration is that of the ramp.
  pub ramp_undoes_complete :
      (blank : MirrorConfig F) (c : Coordinator S F) (r : Ramp F) (clock : ℕ → ℤ) (now : ℤ)
      (s : Session)
      → lookup r.session_id c.sessions ≡ some s
      → s.status ≢ completed
      → (write zk float configs records
          (complete_session zk float configs records c r.session_id now).0
          r.cfg
          (clock 0)).1
        ≡ none
      → let c1 = (complete_session zk float configs records c r.session_id now).0 in
        let end = (run_ramp zk float configs records 2 clock c1 (record r { pc = finishing })).0 in
        (lookup r.session_id end.sessions
          ≡ some (record (promoted zk float configs records s) { status = holding }))
        × (read_mirror_config zk configs blank end.conn c1.service
            ≡ ok (record r.cfg { updated_at = clock 0 }))
  ramp_undoes_complete blank c r clock now s found unfinished written =
      let c1 = (complete_session zk float configs records c r.session_id now).0 in
      let done_session = promoted zk float configs records s in
      let stays : lookup r.session_id c1.sessions ≡ some done_session =
        ap (lookup r.session_id)
          (complete-sessions zk float configs records c r.session_id now s found unfinished)
        ∙ ground (
          arith,
          lookup-insert r.session_id r.session_id done_session c.sessions,
          eq_refl r.session_id,
        ) in
      let (kept, left) = last_steps zk float configs records c1 r clock done_session stays in
      (
        kept,
        ap (λ conn. read_mirror_config zk configs blank conn c1.service) left
            ∙ write-read blank r.cfg c1 (clock 0) written,
      )

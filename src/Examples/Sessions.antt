-- ===== src/Examples/Sessions.antt =====
-- Runs of the coordinator's handlers and of its ramp.
use itmo_master_research.Base.{
  ◌+◌, ℕ, ◌≡◌, ◌≢◌, refl, pos, ◌≤ℤ◌, ◌+ℤ◌, [], ◌∷◌, none, some, arith, subst, sym,
}
use itmo_master_research.Base.Dict.{lookup}
use itmo_master_research.Base.Result.{ok, err}
use itmo_master_research.Warmkit.Types.{MirrorConfig, InstanceRecord}
use itmo_master_research.Warmkit.ZkRegistry.{
  read_mirror_config, write_mirror_config, put_mirror, ensure_path, mirror_path,
}
use itmo_master_research.Zk.{Zk, failure}
use itmo_master_research.Zk.Tree.{
  Tree, Node, tree_zk, mirror_codec, instance_codec, tree_laws, mirror_laws,
}
use itmo_master_research.Coordinator.{
  instance_ready, Coordinator, Session, CreateRequest, running, holding, completed, session_reply,
  error_reply, complete_session, write,
}
use itmo_master_research.Coordinator.Sessions.{promoted, promotion, complete_retry}
use itmo_master_research.Coordinator.Ramp.{Ramp, finishing, done, launch, run_ramp}
use itmo_master_research.Coordinator.Ramp.Held.{run_ramp-after_holding}
use itmo_master_research.Coordinator.Ramp.Ends.{IsPast, run_ramp-done}
use itmo_master_research.Coordinator.Ramp.Config.{ramp_undoes_complete}
use itmo_master_research.Examples.{whole, blank_config, mirror_on_config}

abbrev pub Store : Type 0
Store = Tree (MirrorConfig ℕ) InstanceRecord

abbrev pub session : Session
session = record {
  id = "sess-1";
  target_instance_id = "b";
  active_instance_id = "a";
  ready_after = pos 3;
  status = running;
}

abbrev pub coordinator : Coordinator Store ℕ
coordinator = record {
  conn = [];
  service = "svc";
  interval = pos 2;
  steps = 1 ∷ 1 ∷ [];
  hold_max = pos 10;
  sessions = ("sess-1", session) ∷ [];
}

abbrev request : CreateRequest
request = record { target_instance_id = "b"; ready_after = pos 3; active_instance_id = "a" }

pub found : lookup "sess-1" coordinator.sessions ≡ some session
unfolding lookup
found = refl

pub unfinished : session.status ≢ completed
unfinished = λ h. cc h

-- A ZooKeeper that takes no write.
abbrev down_zk : Zk Store (Node (MirrorConfig ℕ) InstanceRecord)
down_zk = record {
  exists = λ s p. err failure;
  get = λ s p. err failure;
  create = λ s p b e. (s, some failure);
  set = λ s p b v. (s, some failure);
  empty = tree_zk.empty;
  is_empty = tree_zk.is_empty;
}

refused :
    (promotion down_zk whole mirror_codec instance_codec coordinator "sess-1" (pos 9) session).1
    ≡ some failure
unfolding write write_mirror_config put_mirror ensure_path tree_zk mirror_codec
refused = refl

complete_retry_example :
    let first =
      complete_session down_zk whole mirror_codec instance_codec coordinator "sess-1" (pos 9) in
    (first.1 ≡ error_reply 500)
    × (complete_session down_zk whole mirror_codec instance_codec first.0 "sess-1" (pos 10)
        ≡ (first.0, session_reply 200 (promoted down_zk whole mirror_codec instance_codec session)))
complete_retry_example =
    complete_retry down_zk whole mirror_codec instance_codec coordinator "sess-1" (pos 9) (pos 10)
      session failure found unfinished refused

-- A clock that counts the steps is past the deadline from step 10 on.
deadline : pos 0 +ℤ coordinator.hold_max ≡ pos 10
unfolding ◌+ℤ◌
deadline = refl

clock_passes : IsPast (pos 0 +ℤ coordinator.hold_max) 10 pos
clock_passes k h = subst (λ d. d ≤ℤ pos k) (sym deadline) (omega (arith, h))

run_ramp-done_example :
    (run_ramp tree_zk whole mirror_codec instance_codec 30 pos coordinator
      (launch tree_zk whole mirror_codec instance_codec "sess-1" "b" "a")).1.pc
    ≡ done
run_ramp-done_example =
    run_ramp-done tree_zk whole mirror_codec instance_codec 30 10 pos coordinator "sess-1" "b" "a"
      clock_passes (omega arith)

abbrev last_round : Ramp ℕ
last_round = record {
  pc = finishing;
  cfg = mirror_on_config;
  session_id = "sess-1";
  target = "b";
  hold_deadline = pos 10;
}

last_write :
    (write tree_zk whole mirror_codec instance_codec
      (complete_session tree_zk whole mirror_codec instance_codec coordinator "sess-1" (pos 9)).0
      mirror_on_config
      (pos 0)).1
    ≡ none
unfolding write write_mirror_config put_mirror ensure_path mirror_path tree_zk mirror_codec
    complete_session
last_write = refl

ramp_undoes_complete_example :
    let c1 =
      (complete_session tree_zk whole mirror_codec instance_codec coordinator "sess-1" (pos 9)).0 in
    let end =
      (run_ramp tree_zk whole mirror_codec instance_codec 2 pos c1
        (record last_round { pc = finishing })).0 in
    (lookup "sess-1" end.sessions
      ≡ some (record (promoted tree_zk whole mirror_codec instance_codec session) {
        status = holding;
      }))
    × (read_mirror_config tree_zk mirror_codec blank_config end.conn c1.service
        ≡ ok (record mirror_on_config { updated_at = pos 0 }))
ramp_undoes_complete_example =
    ramp_undoes_complete whole instance_codec tree_laws mirror_laws blank_config coordinator
      last_round pos (pos 9) session found unfinished last_write

-- A ramp without steps that does not wait.
abbrev quick : Coordinator Store ℕ
quick = record coordinator { steps = []; hold_max = pos 0 }

quick_held :
    lookup "sess-1"
      (run_ramp tree_zk whole mirror_codec instance_codec 5 pos quick
        (launch tree_zk whole mirror_codec instance_codec "sess-1" "b" "a")).0.sessions
    ≡ some (record session { status = holding })
unfolding run_ramp lookup launch instance_ready tree_zk write write_mirror_config ensure_path
    put_mirror mirror_codec mirror_path ◌+ℤ◌
quick_held = refl

run_ramp-after_holding_example :
    let (c', r') =
      run_ramp tree_zk whole mirror_codec instance_codec 5 pos quick
        (launch tree_zk whole mirror_codec instance_codec "sess-1" "b" "a") in
    let completed_now =
      (complete_session tree_zk whole mirror_codec instance_codec c' "sess-1" (pos 9)).0 in
    run_ramp tree_zk whole mirror_codec instance_codec 4 (λ k. pos (k + 5)) completed_now r'
    ≡ (completed_now, r')
run_ramp-after_holding_example =
    run_ramp-after_holding tree_zk whole mirror_codec instance_codec "sess-1" "b" "a" 5 4 pos
      (λ k. pos (k + 5)) (pos 9) quick _ _ session (record session { status = holding }) refl found
      (λ h. cc h) quick_held refl

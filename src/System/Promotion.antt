-- ===== src/System/Promotion.antt =====
-- From `completeSession` of cmd/warmup-coordinator/main.go to the clients of
-- cmd/mirror-proxy/main.go.
use Prim.Native.String.{◌++◌ as concat}
use itmo_master_research.Base.{
  ℤ, String, ◌≡◌, refl, sym, ap, ◌∙◌, ◌≢◌, Bool, true, false, List, Option, none, some, arith,
}
use itmo_master_research.Base.Dict.{lookup}
use itmo_master_research.Base.Float.{Float64}
use itmo_master_research.Base.Result.{ok}
use itmo_master_research.Base.Text.{is_empty}
use itmo_master_research.Warmkit.Types.{MirrorConfig, InstanceRecord}
use itmo_master_research.Warmkit.ZkRegistry.{read_mirror_config}
use itmo_master_research.Zk.{Zk, ZkError, Codec, ZkLaws, CodecLaws}
use itmo_master_research.Coordinator.{
  Coordinator, Session, completed, Reply, session_reply, answer_completed, completed_config,
  complete_session,
}
use itmo_master_research.Coordinator.Sessions.{
  promoted, promotion, marked, complete_open, answer-sessions,
}
use itmo_master_research.Coordinator.Ramp.Config.{write-read}
use itmo_master_research.Proxy.{
  Router, Relay, proxied, known_addr, mirror_target, forward, serve_http, watch_mirror, read_record,
  refresh_instances,
}
use itmo_master_research.Proxy.Routing.{refresh_instances-lookup, contains}

module _ {F : Type 0} (float : Float64 F) where
  -- A router whose mirror is off, and that knows its active instance.
  pub serve_http-quiet :
      (parses : String → Bool) (p : Router F) (method : String) (draw : F) (relay : Relay)
      (addr : String)
      → p.cfg.enabled ≡ false
      → lookup p.cfg.active_instance_id p.inst ≡ some addr
      → is_empty addr ≡ false
      → parses (concat "http://" addr) ≡ true
      → serve_http float parses p method draw relay
        ≡ record { answer = proxied addr relay; mirrored = none }
  unfolding serve_http known_addr forward mirror_target
  serve_http-quiet parses p method draw relay addr off found full url =
      ground (arith, off, found, full, url)

module _ {S B F : Type 0} {zk : Zk S B} (float : Float64 F) {configs : Codec (MirrorConfig F) B}
    (records : Codec InstanceRecord B) (laws : ZkLaws zk) (codec : CodecLaws zk configs) where
  answered-written :
      (w : Coordinator S F × Option ZkError) (s t : Session)
      → (answer_completed zk float configs records w s).1 ≡ session_reply 200 t
      → w.1 ≡ none
  answered-written (c, none) s t h = refl
  answered-written (c, some e) s t h = cc h

  -- Once a completion is answered with 200, the configuration in ZooKeeper is that of the session.
  pub complete-read :
      (blank : MirrorConfig F) (c : Coordinator S F) (id : String) (now : ℤ) (s : Session)
      → lookup id c.sessions ≡ some s
      → s.status ≢ completed
      → (complete_session zk float configs records c id now).1
        ≡ session_reply 200 (promoted zk float configs records s)
      → read_mirror_config zk configs blank
          (complete_session zk float configs records c id now).0.conn
          c.service
        ≡ ok (record (completed_config zk float configs records s id) { updated_at = now })
  complete-read blank c id now s found unfinished answered =
      let opened = complete_open zk float configs records c id now s found unfinished in
      let w = promotion zk float configs records c id now s in
      let done_session = promoted zk float configs records s in
      let conn_is : (complete_session zk float configs records c id now).0.conn ≡ w.0.conn =
        ap (λ (r : Coordinator S F × Reply F). r.0.conn) opened
        ∙ ap (λ (d : Coordinator S F). d.conn)
            (answer-sessions zk float configs records w done_session) in
      ap (λ conn. read_mirror_config zk configs blank conn c.service) conn_is
      ∙ write-read float records laws codec blank (completed_config zk float configs records s id)
          (marked zk float configs records c id s) now
          (answered-written w done_session done_session
            (ap (λ (r : Coordinator S F × Reply F). r.1) (sym opened) ∙ answered))

  pub watch_mirror-read :
      (blank cfg : MirrorConfig F) (conn : S) (p : Router F)
      → read_mirror_config zk configs blank conn p.service ≡ ok cfg
      → watch_mirror zk configs records blank conn p ≡ record p { cfg = cfg }
  unfolding watch_mirror
  watch_mirror-read blank cfg conn p h = rw (h, watch_mirror) refl

  refresh-cfg :
      (conn : S) (children : List String) (p : Router F)
      → (refresh_instances zk configs records conn children p).cfg ≡ p.cfg
  unfolding refresh_instances
  refresh-cfg conn children p = refl

  refreshed :
      (children : List String) (conn : S) (p : Router F) (id : String) (rec : InstanceRecord)
      → contains zk configs records id children ≡ true
      → read_record zk configs records conn p.service id ≡ some rec
      → lookup id (refresh_instances zk configs records conn children p).inst ≡ some rec.addr
  refreshed children conn p id rec listed here =
      refresh_instances-lookup zk configs records conn children p id ∙ ground (arith, listed, here)

  -- After a completion that is answered with 200, to a service that obeys `ZkLaws` and with an
  -- encoding that obeys `CodecLaws`, a proxy of the same service that takes one round of each watch
  -- loop, the round of `watchMirror` on what the completion left and the round of `watchInstances`
  -- on any later state `s2` in which the promoted instance is listed and its record has an address
  -- that makes a URL, sends every request of every method to the promoted instance and mirrors
  -- none.
  pub complete-serve_http :
      (blank : MirrorConfig F) (c : Coordinator S F) (id : String) (now : ℤ) (s : Session)
      → lookup id c.sessions ≡ some s
      → s.status ≢ completed
      → (complete_session zk float configs records c id now).1
        ≡ session_reply 200 (promoted zk float configs records s)
      → (p : Router F) (s2 : S) (children : List String) (rec : InstanceRecord)
      → p.service ≡ c.service
      → contains zk configs records s.target_instance_id children ≡ true
      → read_record zk configs records s2 c.service s.target_instance_id ≡ some rec
      → is_empty rec.addr ≡ false
      → (parses : String → Bool) → parses (concat "http://" rec.addr) ≡ true
      → (method : String) (draw : F) (relay : Relay)
      → let c' = (complete_session zk float configs records c id now).0 in
        serve_http float parses
          (refresh_instances zk configs records s2 children
            (watch_mirror zk configs records blank c'.conn p))
          method
          draw
          relay
        ≡ record { answer = proxied rec.addr relay; mirrored = none }
  complete-serve_http blank c id now s found unfinished answered p s2 children rec same listed here
        full parses url method draw relay =
      let done_config : MirrorConfig F = record (completed_config zk float configs records s id) {
        updated_at = now;
      } in
      let c' = (complete_session zk float configs records c id now).0 in
      let watched = watch_mirror-read blank done_config c'.conn p (
        ap (read_mirror_config zk configs blank c'.conn) same
        ∙ complete-read blank c id now s found unfinished answered) in
      let q : Router F = record p { cfg = done_config } in
      let known = refreshed children s2 q s.target_instance_id rec listed (
        ap (λ service. read_record zk configs records s2 service s.target_instance_id) same
        ∙ here) in
      ap
        (λ (r : Router F).
          serve_http float parses (refresh_instances zk configs records s2 children r) method draw
            relay)
        watched
      ∙ serve_http-quiet float parses (refresh_instances zk configs records s2 children q) method
          draw relay rec.addr
          (ap (λ (cfg : MirrorConfig F). cfg.enabled) (refresh-cfg s2 children q)
            ∙ unfold completed_config in refl)
          (ap
              (λ (cfg : MirrorConfig F).
                lookup cfg.active_instance_id
                  (refresh_instances zk configs records s2 children q).inst)
              (refresh-cfg s2 children q)
            ∙ unfold completed_config in known)
          full url

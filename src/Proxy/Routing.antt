-- ===== src/Proxy/Routing.antt =====
-- Where the proxy of cmd/mirror-proxy/main.go sends a request, and which instances it knows.
use Prim.Native.String.{◌++◌ as concat}
use itmo_master_research.Base.{
  pos, String, ◌==◌, eq_iff, Bool, true, false, ◌≡◌, ◌≢◌, refl, sym, ◌∙◌, inl, inr, List, [], ◌∷◌,
  Option, none, some, if◌then◌else◌, arith, Option-cases,
}
use itmo_master_research.Base.Dict.{lookup, insert, lookup-insert}
use itmo_master_research.Base.Float.{Float64}
use itmo_master_research.Warmkit.Types.{MirrorConfig, InstanceRecord}
use itmo_master_research.Zk.{Zk, Codec}
use itmo_master_research.Proxy.{
  Router, Relay, broken_off, Answer, unavailable, bad_address, proxied, known_addr, mirror_target,
  forward, serve_http, read_record, collect, refresh_instances,
}

module _ {F : Type 0} (float : Float64 F) where
  known_addr-some : (o : Option String) (a : String) → known_addr float o ≡ some a → o ≡ some a
  unfolding known_addr
  known_addr-some o a h = ground arith

  mirror_target-some :
      (p : Router F) (method : String) (draw : F) (addr : String)
      → mirror_target float p method draw ≡ some addr
      → (method ≡ "GET")
        × (p.cfg.enabled ≡ true)
        × (float.lt (float.of_int (pos 0)) p.cfg.ratio ≡ true)
        × (float.lt draw p.cfg.ratio ≡ true)
        × (lookup p.cfg.target_instance_id p.inst ≡ some addr)
  unfolding mirror_target
  mirror_target-some p method draw addr h = ground (arith, eq_iff method "GET")

  forward-mirrored :
      (parses : String → Bool) (p : Router F) (method : String) (draw : F) (relay : Relay)
      (a addr : String)
      → (forward float parses p method draw relay a).mirrored ≡ some addr
      → ((forward float parses p method draw relay a).answer ≡ proxied a relay)
        × (relay ≢ broken_off)
        × (mirror_target float p method draw ≡ some addr)
  unfolding forward
  forward-mirrored parses p method draw relay a addr h =
      (ground arith, λ e. ground (arith, e), ground arith)

  -- Where a request is copied, it was a GET that the proxy handed on to the known address of the
  -- active instance, whose answer or a 502 the client got and which did not break off; the mirror is
  -- on with a ratio above 0 and above the random draw, and the copy goes to the known address of
  -- the target instance.
  pub serve_http-mirrored :
      (parses : String → Bool) (p : Router F) (method : String) (draw : F) (relay : Relay)
      (addr : String)
      → (serve_http float parses p method draw relay).mirrored ≡ some addr
      → (method ≡ "GET")
        × (p.cfg.enabled ≡ true)
        × (float.lt (float.of_int (pos 0)) p.cfg.ratio ≡ true)
        × (float.lt draw p.cfg.ratio ≡ true)
        × (lookup p.cfg.target_instance_id p.inst ≡ some addr)
        × (relay ≢ broken_off)
        × ((a : String) × ((serve_http float parses p method draw relay).answer ≡ proxied a relay)
            × (lookup p.cfg.active_instance_id p.inst ≡ some a))
  unfolding serve_http
  serve_http-mirrored parses p method draw relay addr h =
      elim (Option-cases (known_addr float (lookup p.cfg.active_instance_id p.inst))) [
        | inl e ↦ absurd (ground (arith, e))
        | inr (a, e) ↦
            let (ok, whole, to) =
              forward-mirrored parses p method draw relay a addr (ground (arith, e)) in
            let t = mirror_target-some p method draw addr to in
            (t.0, t.1, t.2, t.3, t.4, whole, (a, ground (arith, e, ok), known_addr-some _ a e))
      ]

  client_answer : (String → Bool) → Relay → Option String → Answer
  client_answer parses relay none = unavailable
  client_answer parses relay (some addr) =
      if parses (concat "http://" addr) then proxied addr relay else bad_address

  answer_lem :
      (parses : String → Bool) (p : Router F) (method : String) (draw : F) (relay : Relay)
      → (serve_http float parses p method draw relay).answer
        ≡ client_answer parses relay (known_addr float (lookup p.cfg.active_instance_id p.inst))
  unfolding serve_http forward client_answer
  answer_lem parses p method draw relay =
      elim (Option-cases (known_addr float (lookup p.cfg.active_instance_id p.inst))) [
        | inl e ↦ ground (arith, e)
        | inr (a, e) ↦ ground (arith, e)
      ]

  -- Two routers with the same instances and the same active instance give a client the same
  -- answer, the reverse proxy making the same of the request, whatever their switches, ratios, targets and random draws are.
  pub serve_http-answer :
      (parses : String → Bool) (p q : Router F) (method : String) (draw draw2 : F) (relay : Relay)
      → q.inst ≡ p.inst
      → q.cfg.active_instance_id ≡ p.cfg.active_instance_id
      → (serve_http float parses q method draw2 relay).answer
        ≡ (serve_http float parses p method draw relay).answer
  serve_http-answer parses p q method draw draw2 relay h k =
      answer_lem parses q method draw2 relay
      ∙ (λ i. client_answer parses relay (known_addr float (lookup (k i) (h i))))
      ∙ sym (answer_lem parses p method draw relay)

module _ {S B F : Type 0} (zk : Zk S B) (configs : Codec (MirrorConfig F) B)
    (records : Codec InstanceRecord B) where
  abbrev pub addr_of : Option InstanceRecord → Option String
  addr_of none = none
  addr_of (some rec) = some rec.addr

  abbrev pub contains : String → List String → Bool
  contains id [] = false
  contains id (j ∷ ids) = if j == id then true else contains id ids

  collect-lookup :
      (s : S) (service : String) (ids : List String) (m : List (String × String)) (id : String)
      → lookup id (collect zk configs records s service ids m) ≡ (
          if contains id ids
          then (elim (read_record zk configs records s service id) [
            | none ↦ lookup id m
            | some rec ↦ some rec.addr
          ])
          else lookup id m)
  unfolding collect
  collect-lookup s service [] m id = refl
  collect-lookup s service (j ∷ ids) m id =
      elim (Option-cases (read_record zk configs records s service j)) [
        | inl e ↦ ground (arith, e, eq_iff j id, collect-lookup s service ids m id)
        | inr (rec, e) ↦ ground (
          arith,
          e,
          eq_iff j id,
          lookup-insert j id rec.addr m,
          collect-lookup s service ids (insert j rec.addr m) id,
        )
      ]

  -- After a refresh the router knows exactly the children of the folder whose record it could read,
  -- each at the address of its record; nothing of the map before is left.
  pub refresh_instances-lookup :
      (s : S) (children : List String) (p : Router F) (id : String)
      → lookup id (refresh_instances zk configs records s children p).inst ≡ (
          if contains id children
          then addr_of (read_record zk configs records s p.service id)
          else none)
  unfolding refresh_instances lookup
  refresh_instances-lookup s children p id =
      ground (arith, collect-lookup s p.service children [] id)

-- ===== src/Proxy/Watch.antt =====
-- The watch loops of cmd/mirror-proxy/main.go. The loops of two goroutines write different fields of
-- the router under its mutex, a round at a time.
use itmo_master_research.Base.{String, ◌≡◌, refl, inl, inr, List, [], ◌∷◌}
use itmo_master_research.Base.Result.{Result, ok, err, Result-cases}
use itmo_master_research.Warmkit.Types.{MirrorConfig, InstanceRecord}
use itmo_master_research.Warmkit.ZkRegistry.{read_mirror_config}
use itmo_master_research.Proxy.{Router, watch_mirror, refresh_instances}
use itmo_master_research.Zk.{Zk, ZkError, Codec}

-- A round of one of the loops, with the service as the round finds it.
pub data WatchRound (S : Type 0) : Type 0 where
  mirror_round instances_round : S → WatchRound S

module _ {S B F : Type 0} (zk : Zk S B) (configs : Codec (MirrorConfig F) B)
    (records : Codec InstanceRecord B) (children : S → String → Result ZkError (List String))
    (blank : MirrorConfig F) where
  -- A round of `watchInstances`; `children` is what `ChildrenW` reads below the folder of the
  -- service.
  unfoldable pub watch_instances : S → Router F → Router F
  watch_instances s p = elim (children s p.service) [
    | err e ↦ p
    | ok names ↦ refresh_instances zk configs records s names p
  ]

  unfoldable pub watch_round : Router F → WatchRound S → Router F
  unfolding watch_instances
  watch_round p (mirror_round s) = watch_mirror zk configs records blank s p
  watch_round p (instances_round s) = watch_instances s p

  -- The rounds of both loops, in the order in which they take the mutex.
  unfoldable pub watch_rounds : Router F → List (WatchRound S) → Router F
  unfolding watch_round
  watch_rounds p [] = p
  watch_rounds p (r ∷ rs) = watch_rounds (watch_round p r) rs

  -- The configuration that the rounds leave: the last one that could be read.
  unfoldable pub last_config : String → MirrorConfig F → List (WatchRound S) → MirrorConfig F
  last_config service cfg [] = cfg
  last_config service cfg (instances_round s ∷ rs) = last_config service cfg rs
  last_config service cfg (mirror_round s ∷ rs) =
      last_config service
        (elim (read_mirror_config zk configs blank s service) [ err e ↦ cfg | ok new ↦ new ]) rs

  -- The addresses that they leave: those of the last list of children that could be read.
  unfoldable pub last_instances :
      String → List (String × String) → List (WatchRound S) → List (String × String)
  last_instances service inst [] = inst
  last_instances service inst (mirror_round s ∷ rs) = last_instances service inst rs
  last_instances service inst (instances_round s ∷ rs) =
      last_instances service
        (elim (children s service) [
          | err e ↦ inst
          | ok names ↦
              (refresh_instances zk configs records s names
                (record { service = service; cfg = blank; inst = inst })).inst
        ])
        rs

  -- However the rounds of the two watch loops are interleaved, neither undoes the other: the router
  -- has the configuration that was read last, of the rounds of `watchMirror` that could read one,
  -- the addresses of the last list that `watchInstances` could read, and its service.
  pub watch_rounds-last :
      (rs : List (WatchRound S)) (p : Router F)
      → ((watch_rounds p rs).cfg ≡ last_config p.service p.cfg rs)
        × ((watch_rounds p rs).inst ≡ last_instances p.service p.inst rs)
        × ((watch_rounds p rs).service ≡ p.service)
  unfolding watch_rounds watch_round watch_instances last_config last_instances watch_mirror
      refresh_instances
  watch_rounds-last [] p = (refl, refl, refl)
  watch_rounds-last (mirror_round s ∷ rs) p =
      elim (Result-cases (read_mirror_config zk configs blank s p.service)) [
        | inr (e, failed) ↦
            rw (failed, watch_rounds, watch_round, watch_mirror) (watch_rounds-last rs p)
        | inl (cfg, got) ↦
            rw (got, watch_rounds, watch_round, watch_mirror)
              (watch_rounds-last rs (record p { cfg = cfg }))
      ]
  watch_rounds-last (instances_round s ∷ rs) p = elim (Result-cases (children s p.service)) [
    | inr (e, failed) ↦
        rw (failed, watch_rounds, watch_round, watch_instances) (watch_rounds-last rs p)
    | inl (names, got) ↦
        rw (got, watch_rounds, watch_round, watch_instances)
          (watch_rounds-last rs (refresh_instances zk configs records s names p))
  ]

-- ===== src/Warmkit/Registry/Watch.antt =====
-- `WatchMirror`, `Close` and `NewMemoryRegistry` of the in-memory registry (warmkit/registry.go).
use itmo_master_research.Base.{
  ℕ, ◌≤◌, ◌≡◌, refl, sym, ap, ◌∙◌, inl, inr, List, [], ◌∷◌, ◌++◌, take, drop, length, length-append,
  take-all, take-full, take-append-take, append-snoc, append_nil, take-take, Option, none,
  Bool-cases, ltb, arith,
}
use itmo_master_research.Warmkit.Types.{MirrorConfig, Error}
use itmo_master_research.Warmkit.Registry.Memory.{MemoryRegistry, watch_cap, set_mirror}

module _ {F : Type 0} where
  -- `blank` is `MirrorConfig{}`.
  unfoldable pub new_memory_registry : MirrorConfig F → MemoryRegistry F
  new_memory_registry blank = record { instances = []; mirror = blank; watch_ch = [] }

  -- What the goroutine of `WatchMirror` has sent when it has taken `n` more of the channel: first
  -- the present configuration. What it takes is gone for every other watcher.
  unfoldable pub memory_watch_mirror :
      MemoryRegistry F → ℕ → MemoryRegistry F × List (MirrorConfig F)
  memory_watch_mirror m n =
      (record m { watch_ch = drop n m.watch_ch }, m.mirror ∷ take n m.watch_ch)

  unfoldable pub close_memory : MemoryRegistry F → MemoryRegistry F × Option Error
  close_memory m = (m, none)

  unfoldable pub set_all : MemoryRegistry F → List (MirrorConfig F) → MemoryRegistry F
  set_all m [] = m
  set_all m (cfg ∷ cfgs) = set_all (set_mirror m cfg) cfgs

  abbrev pub newest_config : MirrorConfig F → List (MirrorConfig F) → MirrorConfig F
  newest_config cfg [] = cfg
  newest_config cfg (next ∷ cfgs) = newest_config next cfgs

  set_mirror-mirror :
      (m : MemoryRegistry F) (cfg : MirrorConfig F) → (set_mirror m cfg).mirror ≡ cfg
  unfolding set_mirror
  set_mirror-mirror m cfg = ground arith

  set_all-mirror :
      (cfgs : List (MirrorConfig F)) (m : MemoryRegistry F)
      → (set_all m cfgs).mirror ≡ newest_config m.mirror cfgs
  unfolding set_all
  set_all-mirror [] m = refl
  set_all-mirror (cfg ∷ cfgs) m =
      set_all-mirror cfgs (set_mirror m cfg)
      ∙ ap (λ x. newest_config x cfgs) (set_mirror-mirror m cfg)

  -- A send to a channel that drops what it has no room for.
  set_mirror-queue :
      (m : MemoryRegistry F) (cfg : MirrorConfig F)
      → length m.watch_ch ≤ watch_cap
      → ((set_mirror m cfg).watch_ch ≡ take watch_cap (m.watch_ch ++ cfg ∷ []))
        × (length (set_mirror m cfg).watch_ch ≤ watch_cap)
  unfolding set_mirror
  set_mirror-queue m cfg h =
      let one_more = length-append m.watch_ch (cfg ∷ []) in
      elim (Bool-cases (ltb (length m.watch_ch) watch_cap)) [
        | inl room ↦
            let fits : length (m.watch_ch ++ cfg ∷ []) ≤ watch_cap =
              ground (arith, room, one_more) in
            rw (room, take-all watch_cap (m.watch_ch ++ cfg ∷ []) fits) (refl, fits)
        | inr full ↦
            let filled : length m.watch_ch ≡ watch_cap = ground (arith, full) in
            rw (full, take-full watch_cap m.watch_ch (cfg ∷ []) filled) (refl, h)
      ]

  set_all-queue :
      (cfgs : List (MirrorConfig F)) (m : MemoryRegistry F)
      → length m.watch_ch ≤ watch_cap
      → (set_all m cfgs).watch_ch ≡ take watch_cap (m.watch_ch ++ cfgs)
  unfolding set_all
  set_all-queue [] m h = sym (
      take-all watch_cap (m.watch_ch ++ []) (omega (arith, length-append m.watch_ch [], h))
      ∙ append_nil m.watch_ch)
  set_all-queue (cfg ∷ cfgs) m h =
      let (queued, bounded) = set_mirror-queue m cfg h in
      set_all-queue cfgs (set_mirror m cfg) bounded
      ∙ ap (λ q. take watch_cap (q ++ cfgs)) queued
      ∙ take-append-take watch_cap (m.watch_ch ++ cfg ∷ []) cfgs
      ∙ ap (take watch_cap) (append-snoc m.watch_ch cfg cfgs)

  -- A watch that begins after any number of `SetMirror` on a new registry delivers the newest_config
  -- configuration first, and then the first eight that were set, in their order, and no other: what
  -- was set after the eighth, before the watch, is dropped from the channel.
  pub set_all-memory_watch_mirror :
      (blank : MirrorConfig F) (cfgs : List (MirrorConfig F))
      → (memory_watch_mirror (set_all (new_memory_registry blank) cfgs) watch_cap).1
        ≡ newest_config blank cfgs ∷ take watch_cap cfgs
  unfolding memory_watch_mirror new_memory_registry
  set_all-memory_watch_mirror blank cfgs =
      let m = set_all (new_memory_registry blank) cfgs in
      let queue : m.watch_ch ≡ take watch_cap cfgs =
        set_all-queue cfgs (new_memory_registry blank) (omega arith) in
      ap (λ c. c ∷ take watch_cap m.watch_ch) (set_all-mirror cfgs (new_memory_registry blank))
      ∙ ap (λ q. newest_config blank cfgs ∷ take watch_cap q) queue
      ∙ ap (◌∷◌ (newest_config blank cfgs)) (take-take watch_cap cfgs)

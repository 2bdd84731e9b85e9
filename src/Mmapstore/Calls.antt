-- ===== src/Mmapstore/Calls.antt =====
-- Any sequence of calls on a store (mmapstore/store.go) leaks no file.
use itmo_master_research.Base.{ℕ, ◌+◌, ℤ, ◌≡◌, refl, ap, ◌∙◌, String, List, [], ◌∷◌, none, arith}
use itmo_master_research.Mmapstore.{
  Store, System, new_store, ensure_file, map_store, unmap_store, remap,
}
use itmo_master_research.Mmapstore.Handles.{
  held, SystemLaws, IsOwner, ensure_file-handles, unmap_store-IsOwner, map_store-IsOwner,
  remap-IsOwner,
}

-- The calls that a client makes.
pub data StoreCall : Type 0 where
  ensures maps unmaps remaps : StoreCall

module _ {W H D : Type 0} (system : System W H D) where
  unfoldable pub store_call : W → Store H D → StoreCall → W × Store H D
  unfolding ensure_file map_store unmap_store remap
  store_call w s ensures = ((ensure_file system s w).0, s)
  store_call w s maps = let (w', s', e) = map_store system s w in (w', s')
  store_call w s unmaps = let (w', s', e) = unmap_store system s w in (w', s')
  store_call w s remaps = let (w', s', e) = remap system s w in (w', s')

  unfoldable pub store_calls : W → Store H D → List StoreCall → W × Store H D
  unfolding store_call
  store_calls w s [] = (w, s)
  store_calls w s (c ∷ cs) = let (w', s') = store_call w s c in store_calls w' s' cs

module _ {W H D : Type 0} {system : System W H D} (laws : SystemLaws system) where
  open laws use {handles}

  store_calls-IsOwner :
      (others : ℕ) (cs : List StoreCall) (w : W) (s : Store H D)
      → IsOwner laws others w s
      → let (w', s') = store_calls system w s cs in IsOwner laws others w' s'
  unfolding store_calls store_call
  store_calls-IsOwner others [] w s i = i
  store_calls-IsOwner others (ensures ∷ cs) w s i =
      store_calls-IsOwner others cs (ensure_file system s w).0 s
        (record { together = i.together; counted = ensure_file-handles laws s w ∙ i.counted })
  store_calls-IsOwner others (maps ∷ cs) w s i =
      let (w', s', e) = map_store system s w in
      store_calls-IsOwner others cs w' s' (map_store-IsOwner laws others w s i)
  store_calls-IsOwner others (unmaps ∷ cs) w s i =
      let (w', s', e) = unmap_store system s w in
      store_calls-IsOwner others cs w' s' (unmap_store-IsOwner laws others w s i).0
  store_calls-IsOwner others (remaps ∷ cs) w s i =
      let (w', s', e) = remap system s w in
      store_calls-IsOwner others cs w' s' (remap-IsOwner laws others w s i)

  -- After any calls of `EnsureFile`, `Map`, `Unmap` and `Remap` on a new store, and whatever calls
  -- of the system fail on the way, the store has a mapping exactly if it has an open file, one file
  -- is open more than before the first call if it has and none if not; and after an `Unmap`, failed
  -- or not, it has neither and no file is left open. Hypotheses: `SystemLaws`.
  pub store_calls-handles :
      (path : String) (size : ℤ) (w : W) (cs : List StoreCall)
      → let (w1, s1) = store_calls system w (new_store path size) cs in
        let (w2, s2, e) = unmap_store system s1 w1 in
        (held s1.file ≡ held s1.mapping)
        × (handles w1 ≡ handles w + held s1.file)
        × (s2.file ≡ none)
        × (s2.mapping ≡ none)
        × (handles w2 ≡ handles w)
  unfolding new_store
  store_calls-handles path size w cs =
      let i =
        store_calls-IsOwner (handles w) cs w (new_store path size)
          (record { together = refl; counted = omega arith }) in
      let (w1, s1) = store_calls system w (new_store path size) cs in
      let (j, no_file, no_map) = unmap_store-IsOwner laws (handles w) w1 s1 i in
      let empty : held ((unmap_store system s1 w1).1.file) ≡ 0 = ap held no_file in
      (i.together, i.counted, no_file, no_map, omega (arith, j.counted, empty))

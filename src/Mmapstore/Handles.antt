-- ===== src/Mmapstore/Handles.antt =====
-- Which handles and mappings a store holds, whatever fails (mmapstore/store.go).
use Prim.Native.String.{◌++◌ as concat}
use itmo_master_research.Base.{
  List, ℕ, zero, suc, ◌+◌, ◌-◌, ℤ, pos, negsuc, ◌≡◌, refl, sym, ap, ◌∙◌, inl, inr, Bool, true,
  false, String, Option, none, some, Option-cases, Bool-cases, ltb, arith,
}
use itmo_master_research.Base.Result.{ok, err, Result-cases}
use itmo_master_research.Mmapstore.{
  pattern, Store, System, write_pages, fill_file, close_after, create_file, ensure_sized,
  ensure_file, give_up, map_opened, check_opened, map_store, release_data, release_file,
  unmap_store, remap,
}

abbrev pub held : {A : Type 0} → Option A → ℕ
held none = 0
held (some a) = 1

-- How the calls change the number of open handles: an opening that succeeds adds one, and a close
-- takes one away even if it reports an error.
pub record SystemLaws {W H D : Type 0} (system : System W H D) : Type 0 where
  pub handles : W → ℕ
  pub handles-mkdir : (w : W) (p : String) → handles (system.mkdir_all w p).0 ≡ handles w
  pub handles-opened :
      (w : W) (p : String) (c : Bool) (f : H)
      → (system.open_file w p c).1 ≡ ok f
      → handles (system.open_file w p c).0 ≡ handles w + 1
  pub handles-unopened :
      (w : W) (p : String) (c : Bool) (e : String)
      → (system.open_file w p c).1 ≡ err e
      → handles (system.open_file w p c).0 ≡ handles w
  pub handles-close : (w : W) (f : H) → handles (system.close w f).0 ≡ handles w - 1
  pub handles-truncate : (w : W) (f : H) (n : ℕ) → handles (system.truncate w f n).0 ≡ handles w
  pub handles-write :
      (w : W) (f : H) (bs : List ℕ) (n : ℕ) → handles (system.write_at w f bs n).0 ≡ handles w
  pub handles-map : (w : W) (f : H) → handles (system.map_file w f).0 ≡ handles w
  pub handles-unmap : (w : W) (d : D) → handles (system.unmap w d).0 ≡ handles w

module _ {W H D : Type 0} {system : System W H D} (laws : SystemLaws system) where
  open laws use {handles}

  -- The store holds a mapping and a handle, or neither, and of the open handles it has its own only.
  pub record IsOwner (others : ℕ) (w : W) (s : Store H D) : Type 0 where
    pub together : held s.file ≡ held s.mapping
    pub counted : handles w ≡ others + held s.file

  write_pages-handles :
      (f : H) (size fuel off : ℕ) (w : W)
      → handles (write_pages system f size fuel off w).0 ≡ handles w
  unfolding write_pages
  write_pages-handles f size zero off w = refl
  write_pages-handles f size (suc fuel) off w = elim (Bool-cases (ltb off size)) [
    | inr stops ↦ rw stops refl
    | inl goes ↦ elim (Option-cases (system.write_at w f (pattern 512) off).1) [
      | inr (x, failed) ↦ rw (goes, failed) (laws.handles-write w f (pattern 512) off)
      | inl fine ↦
          rw (goes, fine)
            (write_pages-handles f size fuel (off + 4096) (system.write_at w f (pattern 512) off).0
              ∙ laws.handles-write w f (pattern 512) off)
    ]
  ]

  fill_file-handles : (f : H) (size : ℕ) (w : W) → handles (fill_file system f size w).0 ≡ handles w
  unfolding fill_file
  fill_file-handles f size w = elim (Option-cases (system.truncate w f size).1) [
    | inr (x, failed) ↦ rw (failed, fill_file) (laws.handles-truncate w f size)
    | inl fine ↦
        rw (fine, fill_file)
          (write_pages-handles f size size 0 (system.truncate w f size).0
            ∙ laws.handles-truncate w f size)
  ]

  close_after-handles :
      (f : H) (w : W) (e : Option String) → handles (close_after system f (w, e)).0 ≡ handles w - 1
  unfolding close_after
  close_after-handles f w none = laws.handles-close w f
  close_after-handles f w (some e) = laws.handles-close w f

  create_file-handles :
      (s : Store H D) (size : ℕ) (w : W) → handles (create_file system s size w).0 ≡ handles w
  unfolding create_file
  create_file-handles s size w =
      let made = laws.handles-mkdir w s.file_path in
      let w1 = (system.mkdir_all w s.file_path).0 in
      elim (Option-cases (system.mkdir_all w s.file_path).1) [
        | inr (x, failed) ↦ rw (failed, create_file) made
        | inl fine ↦ elim (Result-cases (system.open_file w1 s.file_path true).1) [
          | inr (x, failed) ↦
              rw (fine, failed, create_file)
                (laws.handles-unopened w1 s.file_path true x failed ∙ made)
          | inl (f, opened) ↦
              let w2 = (system.open_file w1 s.file_path true).0 in
              let (w3, e3) = fill_file system f size w2 in
              let grown = laws.handles-opened w1 s.file_path true f opened in
              rw (fine, opened, create_file)
                (close_after-handles f w3 e3
                  ∙ omega (arith, fill_file-handles f size w2, grown, made))
        ]
      ]

  ensure_sized-handles :
      (s : Store H D) (size : ℤ) (w : W) → handles (ensure_sized system s size w).0 ≡ handles w
  unfolding ensure_sized
  ensure_sized-handles s (negsuc n) w = refl
  ensure_sized-handles s (pos size) w = elim (Bool-cases (ltb 0 size)) [
    | inl positive ↦ rw positive (create_file-handles s size w)
    | inr none_left ↦ rw none_left refl
  ]

  pub ensure_file-handles : (s : Store H D) (w : W) → handles (ensure_file system s w).0 ≡ handles w
  unfolding ensure_file
  ensure_file-handles s w = ensure_sized-handles s s.size_bytes w

  release_file-handles :
      (o : Option H) (w : W) (others : ℕ)
      → handles w ≡ others + held o
      → handles (release_file system o w).0 ≡ others
  unfolding release_file
  release_file-handles none w others h = omega (arith, h)
  release_file-handles (some f) w others h = laws.handles-close w f ∙ omega (arith, h)

  release_data-handles : (o : Option D) (w : W) → handles (release_data system o w).0 ≡ handles w
  unfolding release_data
  release_data-handles none w = refl
  release_data-handles (some d) w = laws.handles-unmap w d

  pub unmap_store-IsOwner :
      (others : ℕ) (w : W) (s : Store H D)
      → IsOwner others w s
      → let (w', s', e) = unmap_store system s w in
        IsOwner others w' s' × (s'.file ≡ none) × (s'.mapping ≡ none)
  unfolding unmap_store
  unmap_store-IsOwner others w s i =
      let kept = release_data-handles s.mapping w in
      (
        record {
          together = refl;
          counted =
              release_file-handles s.file (release_data system s.mapping w).0 others
                (kept ∙ i.counted)
              ∙ omega arith;
        },
        refl,
        refl,
      )

  -- What `Map` holds when it has opened the file `f`.
  abbrev IsOpened : ℕ → W → Store H D → Type 0
  IsOpened others w s = (handles w ≡ others + 1) × (s.file ≡ none) × (s.mapping ≡ none)

  give_up-IsOwner :
      (others : ℕ) (w : W) (s : Store H D) (f : H) (e : String)
      → IsOpened others w s
      → let (w', s', failed) = give_up system s f e w in IsOwner others w' s'
  unfolding give_up
  give_up-IsOwner others w s f e (grown, no_file, no_map) =
      let empty : held s.file ≡ 0 = ap held no_file in
      record {
        together = empty ∙ sym (ap held no_map);
        counted = omega (arith, laws.handles-close w f, grown, empty);
      }

  map_opened-IsOwner :
      (others : ℕ) (w : W) (s : Store H D) (f : H)
      → IsOpened others w s
      → let (w', s', failed) = map_opened system s f w in IsOwner others w' s'
  unfolding map_opened
  map_opened-IsOwner others w s f (grown, no_file, no_map) =
      let w' = (system.map_file w f).0 in
      elim (Result-cases (system.map_file w f).1) [
        | inr (x, failed) ↦
            rw (failed, map_opened)
              (give_up-IsOwner others w' s f x (laws.handles-map w f ∙ grown, no_file, no_map))
        | inl (d, mapped) ↦
            rw (mapped, map_opened)
              (record { together = refl; counted = laws.handles-map w f ∙ grown })
      ]

  check_opened-IsOwner :
      (others : ℕ) (w : W) (s : Store H D) (f : H)
      → IsOpened others w s
      → let (w', s', failed) = check_opened system s f w in IsOwner others w' s'
  unfolding check_opened
  check_opened-IsOwner others w s f i = elim (Result-cases (system.size w f)) [
    | inr (x, failed) ↦ rw (failed, check_opened) (give_up-IsOwner others w s f x i)
    | inl (zero, known) ↦
        rw (known, check_opened)
          (give_up-IsOwner others w s f (concat "backing file is empty: " s.file_path) i)
    | inl (suc n, known) ↦ rw (known, check_opened) (map_opened-IsOwner others w s f i)
  ]

  pub map_store-IsOwner :
      (others : ℕ) (w : W) (s : Store H D)
      → IsOwner others w s
      → let (w', s', e) = map_store system s w in IsOwner others w' s'
  unfolding map_store
  map_store-IsOwner others w s i = elim (Option-cases s.mapping) [
    | inr (d, there) ↦ rw (there, map_store) i
    | inl no_map ↦
        let no_file : s.file ≡ none = ground (arith, i.together, no_map) in
        let w' = (system.open_file w s.file_path false).0 in
        elim (Result-cases (system.open_file w s.file_path false).1) [
          | inr (x, failed) ↦
              rw (no_map, failed, map_store)
                (record {
                  together = i.together;
                  counted = laws.handles-unopened w s.file_path false x failed ∙ i.counted;
                })
          | inl (f, opened) ↦
              let grown =
                laws.handles-opened w s.file_path false f opened ∙ ap (λ n. n + 1) i.counted in
              let alone : handles w' ≡ others + 1 =
                let empty : held s.file ≡ 0 = ap held no_file in omega (arith, grown, empty) in
              rw (no_map, opened, map_store)
                (check_opened-IsOwner others w' s f (alone, no_file, no_map))
        ]
  ]

  pub remap-IsOwner :
      (others : ℕ) (w : W) (s : Store H D)
      → IsOwner others w s
      → let (w', s', e) = remap system s w in IsOwner others w' s'
  unfolding remap
  remap-IsOwner others w s i =
      let (w', s', e) = unmap_store system s w in
      let (j, _, _) = unmap_store-IsOwner others w s i in
      elim (Option-cases e) [
        | inr (x, failed) ↦ rw (failed, remap) j
        | inl fine ↦ rw (fine, remap) (map_store-IsOwner others w' s' j)
      ]

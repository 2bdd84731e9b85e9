-- ===== src/Mmapstore/Filling.antt =====
-- What `EnsureFile` of mmapstore/store.go writes.
use itmo_master_research.Base.{
  ℕ, zero, suc, ◌+◌, ◌-◌, ◌/◌, ◌≤◌, ◌<◌, ℤ, pos, negsuc, ◌≡◌, refl, sym, ap, ◌∙◌, inl, inr, Bool,
  true, Bool-cases, ltb, String, List, [], ◌∷◌, ◌++◌, append-snoc, append_nil, Option, none, some,
  Option-cases, arith,
}
use itmo_master_research.Base.Result.{Result-cases}
use itmo_master_research.Mmapstore.{
  Store, System, pattern, write_pages, fill_file, close_after, create_file, ensure_sized,
  ensure_file,
}

-- The writes that a system has made, the oldest first, each as the bytes and their offset; only
-- `WriteAt` adds to them.
pub record WriteLaws {W H D : Type 0} (system : System W H D) : Type 0 where
  pub writes : W → List (List ℕ × ℕ)
  pub writes-mkdir : (w : W) (p : String) → writes (system.mkdir_all w p).0 ≡ writes w
  pub writes-open : (w : W) (p : String) (c : Bool) → writes (system.open_file w p c).0 ≡ writes w
  pub writes-truncate : (w : W) (f : H) (n : ℕ) → writes (system.truncate w f n).0 ≡ writes w
  pub writes-close : (w : W) (f : H) → writes (system.close w f).0 ≡ writes w
  pub writes-write :
      (w : W) (f : H) (bs : List ℕ) (n : ℕ)
      → (system.write_at w f bs n).1 ≡ none
      → writes (system.write_at w f bs n).0 ≡ writes w ++ (bs, n) ∷ []

-- One pattern for each of so many pages.
unfoldable pub page_writes : ℕ → ℕ → List (List ℕ × ℕ)
page_writes zero off = []
page_writes (suc n) off = (pattern 512, off) ∷ page_writes n (off + 4096)

-- The pages that begin in a range of so many bytes.
abbrev pub pages_of : ℕ → ℕ
pages_of size = (size + 4095) / 4096

module _ {W H D : Type 0} {system : System W H D} (laws : WriteLaws system) where
  open laws use {writes}

  write_pages-writes :
      (f : H) (size fuel off : ℕ) (w : W)
      → size ≤ off + fuel
      → (write_pages system f size fuel off w).1 ≡ none
      → writes (write_pages system f size fuel off w).0
        ≡ writes w ++ page_writes (pages_of (size - off)) off
  unfolding write_pages page_writes
  write_pages-writes f size zero off w enough h =
      let last : pages_of (size - off) ≡ 0 = omega (arith, enough) in
      sym (append_nil (writes w)) ∙ sym (ap (λ n. writes w ++ page_writes n off) last)
  write_pages-writes f size (suc fuel) off w enough h = elim (Bool-cases (ltb off size)) [
    | inr stops ↦
        let last : pages_of (size - off) ≡ 0 = ground (arith, stops) in
        rw (stops, write_pages)
          (sym (append_nil (writes w)) ∙ sym (ap (λ n. writes w ++ page_writes n off) last))
    | inl goes ↦ elim (Option-cases (system.write_at w f (pattern 512) off).1) [
      | inr (x, failed) ↦ absurd (ground (arith, goes, failed, h))
      | inl fine ↦
          let w' = (system.write_at w f (pattern 512) off).0 in
          let next = off + 4096 in
          let before : off < size = ground (arith, goes) in
          let one_more : pages_of (size - off) ≡ suc (pages_of (size - next)) =
            omega (arith, before) in
          let later : (write_pages system f size fuel next w').1 ≡ none =
            ground (arith, goes, fine, h) in
          rw (goes, fine, write_pages)
            (write_pages-writes f size fuel next w' (omega (arith, enough)) later
              ∙ ap (λ l. l ++ page_writes (pages_of (size - next)) next)
                  (laws.writes-write w f (pattern 512) off fine)
              ∙ append-snoc (writes w) (pattern 512, off)
                  (page_writes (pages_of (size - next)) next)
              ∙ sym (ap (λ n. writes w ++ page_writes n off) one_more))
    ]
  ]

  fill_file-writes :
      (f : H) (size : ℕ) (w : W)
      → (fill_file system f size w).1 ≡ none
      → writes (fill_file system f size w).0 ≡ writes w ++ page_writes (pages_of size) 0
  unfolding fill_file
  fill_file-writes f size w h = elim (Option-cases (system.truncate w f size).1) [
    | inr (x, failed) ↦ absurd (ground (arith, failed, h))
    | inl fine ↦
        let w' = (system.truncate w f size).0 in
        let whole : size - 0 ≡ size = omega arith in
        let later : (write_pages system f size size 0 w').1 ≡ none = ground (arith, fine, h) in
        rw (fine, fill_file)
          (write_pages-writes f size size 0 w' (omega arith) later
            ∙ ap (λ n. writes w' ++ page_writes (pages_of n) 0) whole
            ∙ ap (λ l. l ++ page_writes (pages_of size) 0) (laws.writes-truncate w f size))
  ]

  close_after-writes :
      (f : H) (w : W) (e : Option String)
      → (close_after system f (w, e)).1 ≡ none
      → (e ≡ none) × (writes (close_after system f (w, e)).0 ≡ writes w)
  unfolding close_after
  close_after-writes f w none h = (refl, laws.writes-close w f)
  close_after-writes f w (some e) h = absurd (ground (arith, h))

  create_file-writes :
      (s : Store H D) (size : ℕ) (w : W)
      → (create_file system s size w).1 ≡ none
      → writes (create_file system s size w).0 ≡ writes w ++ page_writes (pages_of size) 0
  unfolding create_file
  create_file-writes s size w h =
      let w1 = (system.mkdir_all w s.file_path).0 in
      elim (Option-cases (system.mkdir_all w s.file_path).1) [
        | inr (x, failed) ↦ absurd (ground (arith, failed, h))
        | inl fine ↦ elim (Result-cases (system.open_file w1 s.file_path true).1) [
          | inr (x, failed) ↦ absurd (ground (arith, fine, failed, h))
          | inl (f, opened) ↦
              let w2 = (system.open_file w1 s.file_path true).0 in
              let (w3, e3) = fill_file system f size w2 in
              let closed : (close_after system f (w3, e3)).1 ≡ none =
                ground (arith, fine, opened, h) in
              let (filled, kept) = close_after-writes f w3 e3 closed in
              rw (fine, opened, create_file)
                (kept
                  ∙ fill_file-writes f size w2 filled
                  ∙ ap (λ l. l ++ page_writes (pages_of size) 0)
                      (laws.writes-open w1 s.file_path true ∙ laws.writes-mkdir w s.file_path))
        ]
      ]

  ensure_sized-writes :
      (s : Store H D) (z : ℤ) (w : W)
      → (ensure_sized system s z w).1 ≡ none
      → s.size_bytes ≡ z
      → (size : ℕ) × (s.size_bytes ≡ pos size)
        × (0 < size)
        × (writes (ensure_sized system s z w).0 ≡ writes w ++ page_writes (pages_of size) 0)
  unfolding ensure_sized
  ensure_sized-writes s (negsuc n) w h e = absurd (ground (arith, h))
  ensure_sized-writes s (pos size) w h e = elim (Bool-cases (ltb 0 size)) [
    | inr refused ↦ absurd (ground (arith, refused, h))
    | inl positive ↦
        let made : (create_file system s size w).1 ≡ none = ground (arith, positive, h) in
        (
          size,
          e,
          ground (arith, positive),
          rw (positive, ensure_sized) (create_file-writes s size w made),
        )
  ]

  -- When `EnsureFile` returns no error, the size of the store is positive, and the pattern of a page
  -- was written once at every multiple of 4096 below the size, in this order, and nothing else was.
  -- Hypotheses: `WriteLaws`.
  pub ensure_file-writes :
      (s : Store H D) (w : W)
      → (ensure_file system s w).1 ≡ none
      → (size : ℕ) × (s.size_bytes ≡ pos size)
        × (0 < size)
        × (writes (ensure_file system s w).0 ≡ writes w ++ page_writes (pages_of size) 0)
  unfolding ensure_file
  ensure_file-writes s w h = ensure_sized-writes s s.size_bytes w h refl

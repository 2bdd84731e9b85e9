-- ===== src/Mmapstore.antt =====
-- LoadedService/internal/mmapstore/store.go: the file behind the store and its mapping; Reads has the
-- reads. The system calls and mmap-go are parameters. Every method holds the store's mutex while it
-- reads or changes the handle and the mapping.
pub mod Reads
pub mod Handles
pub mod Calls
pub mod Filling
use Prim.Native.String.{◌++◌ as concat}
use itmo_master_research.Base.{
  List, [], ◌∷◌, ℕ, zero, suc, ◌+◌, ◌/◌, ℤ, pos, negsuc, sub_ℕ, Bool, true, false, String, Option,
  none, some, if◌then◌else◌, ltb,
}
use itmo_master_research.Base.Result.{Result, ok, err}

abbrev pub page_size_bytes : ℕ
page_size_bytes = 4096

-- `file` is the handle `H` that the store holds open, `mapping` (`data` in the source) its mapping `D`.
pub record Store (H D : Type 0) : Type 0 where
  pub file_path : String
  pub size_bytes : ℤ
  pub file : Option H
  pub mapping : Option D

-- The calls, on the state `W` of the system; an error is its text.
pub record System (W H D : Type 0) : Type 0 where
  -- of `filepath.Dir` of a path
  pub mkdir_all : W → String → W × Option String
  -- the flag is `O_CREATE`
  pub open_file : W → String → Bool → W × Result String H
  pub close : W → H → W × Option String
  pub truncate : W → H → ℕ → W × Option String
  pub write_at : W → H → List ℕ → ℕ → W × Option String
  pub size : W → H → Result String ℕ
  pub map_file : W → H → W × Result String D
  pub unmap : W → D → W × Option String

-- The buffer of a page: so many times the eight bytes of 0xdeadbeefcafebabe, the lowest first.
unfoldable pub pattern : ℕ → List ℕ
pattern zero = []
pattern (suc n) = 0xbe ∷ 0xba ∷ 0xfe ∷ 0xca ∷ 0xef ∷ 0xbe ∷ 0xad ∷ 0xde ∷ pattern n

module _ {H D : Type 0} where
  unfoldable pub new_store : String → ℤ → Store H D
  new_store file_path size_bytes = record {
    file_path = file_path;
    size_bytes = size_bytes;
    file = none;
    mapping = none;
  }

  -- The division of Go drops the fraction on both sides of zero.
  unfoldable pub size_mb : Store H D → ℤ
  size_mb s = elim s.size_bytes [ pos n ↦ pos (n / 1048576) | negsuc n ↦ sub_ℕ 0 (suc n / 1048576) ]

  module _ {W : Type 0} (system : System W H D) where
    -- The loop over the pages, from `off` on, with at most `fuel` rounds.
    unfoldable pub write_pages : H → ℕ → ℕ → ℕ → W → W × Option String
    write_pages f size zero off w = (w, none)
    write_pages f size (suc fuel) off w =
        if ltb off size
        then (let (w', e) = system.write_at w f (pattern 512) off in
            elim e [
              | some x ↦ (w', some x)
              | none ↦ write_pages f size fuel (off + page_size_bytes) w'
            ])
        else (w, none)

    -- A page takes at least one byte of the size, which is fuel enough.
    unfoldable pub fill_file : H → ℕ → W → W × Option String
    unfolding write_pages
    fill_file f size w =
        let (w', e) = system.truncate w f size in
        elim e [ some x ↦ (w', some x) | none ↦ write_pages f size size 0 w' ]

    -- The deferred `Close`: its error counts where there is none yet.
    unfoldable pub close_after : H → W × Option String → W × Option String
    close_after f (w, some e) = ((system.close w f).0, some e)
    close_after f (w, none) = system.close w f

    -- `EnsureFile` with a size that is positive.
    unfoldable pub create_file : Store H D → ℕ → W → W × Option String
    unfolding fill_file close_after
    create_file s size w =
        let (w1, made) = system.mkdir_all w s.file_path in
        elim made [
          | some e ↦ (w1, some e)
          | none ↦
              (let (w2, opened) = system.open_file w1 s.file_path true in
                elim opened [ err e ↦ (w2, some e) | ok f ↦ close_after f (fill_file f size w2) ])
        ]

    unfoldable pub ensure_sized : Store H D → ℤ → W → W × Option String
    unfolding create_file
    ensure_sized s (negsuc n) w = (w, some "sizeBytes must be > 0")
    ensure_sized s (pos size) w =
        if ltb 0 size then create_file s size w else (w, some "sizeBytes must be > 0")

    unfoldable pub ensure_file : Store H D → W → W × Option String
    unfolding ensure_sized
    ensure_file s w = ensure_sized s s.size_bytes w

    -- A failure of `Map` behind the opening: the file is closed, and an error of that comes first.
    unfoldable pub give_up : Store H D → H → String → W → W × Store H D × Option String
    give_up s f e w =
        let (w', failed) = system.close w f in
        (w', s, elim failed [ none ↦ some e | some x ↦ some x ])

    -- `mmap.Map` on a file that is not empty.
    unfoldable pub map_opened : Store H D → H → W → W × Store H D × Option String
    unfolding give_up
    map_opened s f w =
        let (w', mapped) = system.map_file w f in
        elim mapped [
          | err e ↦ give_up s f e w'
          | ok d ↦ (w', record s { file = some f; mapping = some d }, none)
        ]

    unfoldable pub check_opened : Store H D → H → W → W × Store H D × Option String
    unfolding give_up map_opened
    check_opened s f w = elim (system.size w f) [
      | err e ↦ give_up s f e w
      | ok zero ↦ give_up s f (concat "backing file is empty: " s.file_path) w
      | ok (suc n) ↦ map_opened s f w
    ]

    unfoldable pub map_store : Store H D → W → W × Store H D × Option String
    unfolding check_opened
    map_store s w = elim s.mapping [
      | some d ↦ (w, s, none)
      | none ↦
          (let (w', opened) = system.open_file w s.file_path false in
            elim opened [ err e ↦ (w', s, some e) | ok f ↦ check_opened s f w' ])
    ]

    unfoldable pub release_data : Option D → W → W × Option String
    release_data none w = (w, none)
    release_data (some d) w = system.unmap w d

    unfoldable pub release_file : Option H → W → W × Option String
    release_file none w = (w, none)
    release_file (some f) w = system.close w f

    -- Both are given up whatever fails; the error of the mapping comes first.
    unfoldable pub unmap_store : Store H D → W → W × Store H D × Option String
    unfolding release_data release_file
    unmap_store s w =
        let (w1, e1) = release_data s.mapping w in
        let (w2, e2) = release_file s.file w1 in
        (w2, record s { file = none; mapping = none }, elim e1 [ none ↦ e2 | some x ↦ some x ])

    unfoldable pub remap : Store H D → W → W × Store H D × Option String
    unfolding unmap_store map_store
    remap s w =
        let (w', s', e) = unmap_store s w in
        elim e [ some x ↦ (w', s', some x) | none ↦ map_store s' w' ]

-- ===== src/Examples/Stores.antt =====
-- Runs of the mmap store.
use itmo_master_research.Base.{
  String, ◌<◌, ◌++◌, ℕ, zero, suc, ◌+◌, ◌-◌, ℤ, pos, ◌≡◌, refl, List, [], ◌∷◌, map, length, none,
  some, arith,
}
use itmo_master_research.Base.Result.{Result, ok, err}
use itmo_master_research.Workload.{rounds}
use itmo_master_research.Workload.Cold.{IsBelow}
use itmo_master_research.Mmapstore.{Store, ensure_file, System, new_store, unmap_store}
use itmo_master_research.Mmapstore.Handles.{SystemLaws, held}
use itmo_master_research.Mmapstore.Calls.{
  StoreCall, ensures, maps, remaps, store_calls, store_calls-handles,
}
use itmo_master_research.Mmapstore.Filling.{WriteLaws, page_writes, pages_of, ensure_file-writes}
use itmo_master_research.Mmapstore.Reads.{
  touch_sequential, read_pages, random_page_indices, measure_random_read_latencies,
}
use itmo_master_research.Mmapstore.Reads.Ranges.{random_page_indices-read}

-- A system that only counts its open files; its mappings cannot be undone.
abbrev counting : System ℕ (Unit {0}) (Unit {0})
counting = record {
  mkdir_all = λ w p. (w, none);
  open_file = λ w p c. (w + 1, ok tt);
  close = λ w f. (w - 1, none);
  truncate = λ w f n. (w, none);
  write_at = λ w f bs n. (w, none);
  size = λ w f. ok 4096;
  map_file = λ w f. (w, ok tt);
  unmap = λ w d. (w, some "busy");
}

never_fails : (w : ℕ) (e : String) → ◌≡◌ {A = Result String (Unit {0})} (ok tt) (err e) → w + 1 ≡ w
never_fails w e h = absurd (ground (arith, h))

abbrev counting_laws : SystemLaws counting
counting_laws = record {
  handles = λ w. w;
  handles-mkdir = λ w p. refl;
  handles-opened = λ w p c f h. refl;
  handles-unopened = λ w p c e h. never_fails w e h;
  handles-close = λ w f. refl;
  handles-truncate = λ w f n. refl;
  handles-write = λ w f bs n. refl;
  handles-map = λ w f. refl;
  handles-unmap = λ w d. refl;
}

abbrev client : List StoreCall
client = ensures ∷ maps ∷ remaps ∷ maps ∷ []

store_calls-handles_example :
    let (w1, s1) = store_calls counting 5 (new_store "data.bin" (pos 4096)) client in
    let (w2, s2, e) = unmap_store counting s1 w1 in
    (held s1.file ≡ held s1.mapping)
    × (w1 ≡ 5 + held s1.file)
    × (s2.file ≡ none)
    × (s2.mapping ≡ none)
    × (w2 ≡ 5)
store_calls-handles_example = store_calls-handles counting_laws "data.bin" (pos 4096) 5 client

abbrev zeros : ℕ → List ℕ
zeros zero = []
zeros (suc n) = 0 ∷ zeros n

length-zeros : (n : ℕ) → length (zeros n) ≡ n
length-zeros zero = refl
length-zeros (suc n) = omega (arith, length-zeros n)

abbrev last_page : ℤ → ℕ → ℕ → ℕ
last_page seed n i = n - 1

last_page-IsBelow : IsBelow last_page
last_page-IsBelow seed n i = omega arith

random_page_indices-read_example :
    (touch_sequential (some (zeros 4100)) ≡ some none)
    × ((found : List ℕ) × (read_pages
            (zeros 4100)
            (random_page_indices last_page (some (zeros 4100)) (pos 2) (pos 7))
          ≡ some (map some found))
        × (length found ≡ rounds (pos 2)))
    × ((ls : List ℤ) × (measure_random_read_latencies last_page pos
            (some (zeros 4100))
            (pos 2)
            (pos 7)
          ≡ some ls)
        × (length ls ≡ rounds (pos 2)))
random_page_indices-read_example =
    random_page_indices-read last_page pos last_page-IsBelow (zeros 4100) (pos 2) (pos 7)
      (omega (arith, length-zeros 4100)) (omega (arith, length-zeros 4100))

-- A system whose state is what has been written.
abbrev logging : System (List (List ℕ × ℕ)) (Unit {0}) (Unit {0})
logging = record {
  mkdir_all = λ w p. (w, none);
  open_file = λ w p c. (w, ok tt);
  close = λ w f. (w, none);
  truncate = λ w f n. (w, none);
  write_at = λ w f bs n. (w ++ (bs, n) ∷ [], none);
  size = λ w f. ok 4096;
  map_file = λ w f. (w, ok tt);
  unmap = λ w d. (w, none);
}

abbrev logging_laws : WriteLaws logging
logging_laws = record {
  writes = λ w. w;
  writes-mkdir = λ w p. refl;
  writes-open = λ w p c. refl;
  writes-truncate = λ w f n. refl;
  writes-close = λ w f. refl;
  writes-write = λ w f bs n h. refl;
}

abbrev small_store : Store (Unit {0}) (Unit {0})
small_store = record { file_path = "data.bin"; size_bytes = pos 5000; file = none; mapping = none }

filled : (ensure_file logging small_store []).1 ≡ none
unfolding ensure_file
filled = refl

ensure_file-writes_example :
    (size : ℕ) × (pos 5000 ≡ pos size)
    × (0 < size)
    × ((ensure_file logging small_store []).0 ≡ [] ++ page_writes (pages_of size) 0)
ensure_file-writes_example = ensure_file-writes logging_laws small_store [] filled

-- ===== src/Mmapstore/Reads/Ranges.antt =====
-- No read of a mapped page is out of range (mmapstore/store.go).
use itmo_master_research.Base.{
  ℕ, zero, suc, ◌+◌, ◌-◌, ◌*◌, ◌/◌, ◌<◌, ℤ, pos, negsuc, mul64, mul64-pos, leb_ℤ, ltb_ℤ, two63, ◌≡◌,
  refl, ap, ◌∙◌, inl, inr, true, false, Bool-cases, List, [], ◌∷◌, map, length, none, some,
  get_elem?-total, ltb, eqb, if◌then◌else◌, arith,
}
use itmo_master_research.Workload.{rounds}
use itmo_master_research.Workload.Cold.{IsBelow}
use itmo_master_research.Mmapstore.{page_size_bytes}
use itmo_master_research.Mmapstore.Reads.{
  touch_pages, touch_sequential, page_count, byte_at, read_page, read_pages, draw_pages,
  random_page_indices, read_random, measure_random_read_latencies,
}

touch_pages-true : (bytes : List ℕ) (fuel off : ℕ) → touch_pages bytes fuel off ≡ true
unfolding touch_pages
touch_pages-true bytes zero off = refl
touch_pages-true bytes (suc fuel) off = elim (Bool-cases (ltb off (length bytes))) [
  | inr past ↦ rw past refl
  | inl inside ↦
      let (b, there) = get_elem?-total bytes off (ground (arith, inside)) in
      rw (inside, there) (touch_pages-true bytes fuel (off + 4096))
]

-- A page of a mapping begins inside of it, and its offset does not wrap.
byte_at-page :
    (bytes : List ℕ) (k : ℕ)
    → length bytes < two63
    → k < length bytes / page_size_bytes
    → (mul64 (pos k) (pos page_size_bytes) ≡ pos (k * page_size_bytes))
      × ((b : ℕ) × (byte_at bytes (mul64 (pos k) (pos page_size_bytes)) ≡ some b))
      × (k * page_size_bytes < length bytes)
unfolding byte_at
byte_at-page bytes k small h =
    let inside : k * page_size_bytes < length bytes = omega (arith, h) in
    let (b, there) = get_elem?-total bytes (k * page_size_bytes) inside in
    let exact = mul64-pos k page_size_bytes (omega (arith, inside, small)) in
    (exact, (b, ap (byte_at bytes) exact ∙ there), inside)

read_page-some :
    (bytes : List ℕ) (k : ℕ)
    → length bytes < two63
    → k < length bytes / page_size_bytes
    → (b : ℕ) × (read_page bytes (pos k) ≡ some (some b))
unfolding read_page
read_page-some bytes k small h =
    let (exact, (b, there), inside) = byte_at-page bytes k small h in
    let before : leb_ℤ (pos (length bytes)) (mul64 (pos k) (pos page_size_bytes)) ≡ false =
      ground (arith, exact, inside) in
    let kept : (if ltb_ℤ (pos k) (pos 0) then pos 0 else pos k) ≡ pos k = ground arith in
    (b, rw (kept, before, there) refl)

module _ (draw : ℤ → ℕ → ℕ → ℕ) where
  read_pages-draw_pages :
      IsBelow draw
      → (bytes : List ℕ) (seed : ℤ) (last n i : ℕ) → length bytes < two63
      → length bytes / page_size_bytes ≡ suc last
      → (found : List ℕ) × (read_pages bytes (draw_pages draw seed (suc last) n i)
          ≡ some (map some found))
        × (length found ≡ n)
  unfolding read_pages draw_pages
  read_pages-draw_pages below bytes seed last zero i small pages = ([], refl, refl)
  read_pages-draw_pages below bytes seed last (suc n) i small pages =
      let (found, later, count) =
        read_pages-draw_pages below bytes seed last n (suc i) small pages in
      let k = draw seed (suc last) i in
      let (b, here) = read_page-some bytes k small (omega (arith, below seed last i, pages)) in
      (b ∷ found, rw (here, later, read_pages) refl, omega (arith, count))

  module _ (clock : ℕ → ℤ) where
    read_random-some :
        IsBelow draw
        → (bytes : List ℕ) (seed : ℤ) (last n i : ℕ) → length bytes < two63
        → length bytes / page_size_bytes ≡ suc last
        → (ls : List ℤ) × (read_random draw clock bytes seed (suc last) n i ≡ some ls)
          × (length ls ≡ n)
    unfolding read_random
    read_random-some below bytes seed last zero i small pages = ([], refl, refl)
    read_random-some below bytes seed last (suc n) i small pages =
        let (ls, later, count) = read_random-some below bytes seed last n (suc i) small pages in
        let k = draw seed (suc last) i in
        let (_, (b, here), _) =
          byte_at-page bytes k small (omega (arith, below seed last i, pages)) in
        (clock i ∷ ls, rw (here, later, read_random) refl, omega (arith, count))

    -- On a mapping of at least one page, whose length is an int, with a generator that stays below
    -- its bound: the sequential touch returns no error, every one of the random page indices of a
    -- measurement is read and none is skipped, as many as there are samples, and the random reads
    -- give one latency for each sample; none of them panics.
    pub random_page_indices-read :
        IsBelow draw
        → (bytes : List ℕ) (samples seed : ℤ) → length bytes < two63
        → 0 < length bytes / page_size_bytes
        → (touch_sequential (some bytes) ≡ some none)
          × ((found : List ℕ) × (read_pages bytes
                  (random_page_indices draw (some bytes) samples seed)
                ≡ some (map some found))
              × (length found ≡ rounds samples))
          × ((ls : List ℤ) × (measure_random_read_latencies draw clock (some bytes) samples seed
                ≡ some ls)
              × (length ls ≡ rounds samples))
    unfolding touch_sequential random_page_indices page_count read_pages
        measure_random_read_latencies
    random_page_indices-read below bytes (negsuc n) seed small pages =
        (rw (touch_pages-true bytes (length bytes) 0) refl, ([], refl, refl), ([], refl, refl))
    random_page_indices-read below bytes (pos n) seed small pages =
        let last = length bytes / page_size_bytes - 1 in
        let more : length bytes / page_size_bytes ≡ suc last = omega (arith, pages) in
        let some_page : eqb (length bytes / page_size_bytes) 0 ≡ false = ground (arith, pages) in
        let (found, hits, count) = read_pages-draw_pages below bytes seed last n 0 small more in
        let (ls, reads, times) = read_random-some below bytes seed last n 0 small more in
        (
          rw (touch_pages-true bytes (length bytes) 0) refl,
          (found, rw (some_page, more) hits, count),
          (ls, rw (some_page, more) reads, times),
        )

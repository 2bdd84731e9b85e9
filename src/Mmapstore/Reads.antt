-- ===== src/Mmapstore/Reads.antt =====
-- The reads of LoadedService/internal/mmapstore/store.go, on the bytes that are mapped, if any. A
-- panic answers none; `clock` gives the time of a read, by its number.
pub mod Ranges
use itmo_master_research.Base.{
  ℕ, zero, suc, ◌+◌, ◌/◌, ℤ, pos, negsuc, add64, mul64, ltb_ℤ, leb_ℤ, Bool, true, false, String,
  List, [], ◌∷◌, length, Option, none, some, get_elem?, if◌then◌else◌, ltb, eqb,
}
use itmo_master_research.Mmapstore.{page_size_bytes}

-- The loop of `TouchSequential`; the flag says that no access is out of range.
unfoldable pub touch_pages : List ℕ → ℕ → ℕ → Bool
touch_pages bytes zero off = true
touch_pages bytes (suc fuel) off =
    let rest = touch_pages bytes fuel (off + page_size_bytes) in
    if ltb off (length bytes)
    then elim (get_elem? bytes off) [ none ↦ false | some byte ↦ rest ]
    else true

-- The outer option is the panic, the inner one the error.
unfoldable pub touch_sequential : Option (List ℕ) → Option (Option String)
unfolding touch_pages
touch_sequential none = some (some "store not mapped")
touch_sequential (some bytes) = if touch_pages bytes (length bytes) 0 then some none else none

unfoldable pub page_count : Option (List ℕ) → ℕ
page_count none = 0
page_count (some bytes) = length bytes / page_size_bytes

-- `bytes[off]`
unfoldable pub byte_at : List ℕ → ℤ → Option ℕ
byte_at bytes (pos off) = get_elem? bytes off
byte_at bytes (negsuc off) = none

-- One index of a measurement: the byte that is read, if it is not skipped; none for a panic.
unfoldable pub read_page : List ℕ → ℤ → Option (Option ℕ)
unfolding byte_at
read_page bytes page_idx =
    let off = mul64 (if ltb_ℤ page_idx (pos 0) then pos 0 else page_idx) (pos page_size_bytes) in
    if leb_ℤ (pos (length bytes)) off
    then some none
    else elim (byte_at bytes off) [ none ↦ none | some byte ↦ some (some byte) ]

unfoldable pub read_pages : List ℕ → List ℤ → Option (List (Option ℕ))
unfolding read_page
read_pages bytes [] = some []
read_pages bytes (page_idx ∷ indices) =
    let rest = read_pages bytes indices in
    elim (read_page bytes page_idx) [
      | none ↦ none
      | some byte ↦ elim rest [ none ↦ none | some read ↦ some (byte ∷ read) ]
    ]

unfoldable pub measure_read_duration_at : Option (List ℕ) → List ℤ → ℤ → Option ℤ
unfolding read_pages
measure_read_duration_at none indices elapsed = some (pos 0)
measure_read_duration_at (some bytes) [] elapsed = some (pos 0)
measure_read_duration_at (some bytes) (page_idx ∷ indices) elapsed =
    elim (read_pages bytes (page_idx ∷ indices)) [ none ↦ none | some read ↦ some elapsed ]

module _ (clock : ℕ → ℤ) where
  -- A page that is skipped keeps the 0 of `make`.
  unfoldable pub latencies_of : List (Option ℕ) → ℕ → List ℤ
  latencies_of [] i = []
  latencies_of (none ∷ bytes) i = pos 0 ∷ latencies_of bytes (suc i)
  latencies_of (some byte ∷ bytes) i = clock i ∷ latencies_of bytes (suc i)

  unfoldable pub measure_read_latencies_at : Option (List ℕ) → List ℤ → Option (List ℤ)
  unfolding read_pages latencies_of
  measure_read_latencies_at none indices = some []
  measure_read_latencies_at (some bytes) indices = elim (read_pages bytes indices) [
    | none ↦ none
    | some read ↦ some (latencies_of read 0)
  ]

-- `draw seed n i` is what the call number `i` of `Intn(n)` returns, of a source with this seed.
module _ (draw : ℤ → ℕ → ℕ → ℕ) where
  unfoldable pub draw_pages : ℤ → ℕ → ℕ → ℕ → List ℤ
  draw_pages seed pages zero i = []
  draw_pages seed pages (suc n) i = pos (draw seed pages i) ∷ draw_pages seed pages n (suc i)

  unfoldable pub random_page_indices : Option (List ℕ) → ℤ → ℤ → List ℤ
  unfolding page_count draw_pages
  random_page_indices bytes (negsuc n) seed = []
  random_page_indices bytes (pos samples) seed =
      let pages = page_count bytes in if eqb pages 0 then [] else draw_pages seed pages samples 0

  module _ (clock : ℕ → ℤ) where
    -- The loop of the random reads, with `n` to go.
    unfoldable pub read_random : List ℕ → ℤ → ℕ → ℕ → ℕ → Option (List ℤ)
    unfolding byte_at
    read_random bytes seed pages zero i = some []
    read_random bytes seed pages (suc n) i =
        let rest = read_random bytes seed pages n (suc i) in
        elim (byte_at bytes (mul64 (pos (draw seed pages i)) (pos page_size_bytes))) [
          | none ↦ none
          | some byte ↦ elim rest [ none ↦ none | some latencies ↦ some (clock i ∷ latencies) ]
        ]

    -- `seed` is the time of the call.
    unfoldable pub measure_random_read_latencies : Option (List ℕ) → ℤ → ℤ → Option (List ℤ)
    unfolding read_random
    measure_random_read_latencies none samples seed = some []
    measure_random_read_latencies (some bytes) (negsuc n) seed = some []
    measure_random_read_latencies (some bytes) (pos samples) seed =
        let pages = length bytes / page_size_bytes in
        if eqb pages 0 then some [] else read_random bytes seed pages samples 0

    unfoldable pub sum64 : List ℤ → ℤ → ℤ
    sum64 [] total = total
    sum64 (d ∷ ds) total = sum64 ds (add64 total d)

    unfoldable pub measure_random_reads : Option (List ℕ) → ℤ → ℤ → Option ℤ
    unfolding measure_random_read_latencies sum64
    measure_random_reads bytes samples seed =
        elim (measure_random_read_latencies bytes samples seed) [
          | none ↦ none
          | some latencies ↦ some (sum64 latencies (pos 0))
        ]

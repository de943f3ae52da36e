-- ===== src/FreeSpace/Examples.antt =====
-- The bitmap's theorems at concrete bitmaps.
use rackkey.Common.{ℕ, ◌+◌, ◌≡◌, ◌≤◌, ◌<◌, refl, arith, [], ◌∷◌, some, if◌then◌else◌, ltb, ◌==◌}
use rackkey.Common.Results.{ok, throw, block_not_mapped}
use rackkey.Utils.{ceil_div}
use package.rackkey.FreeSpace.{
  FreeSpaceMap, initialise, find_n_free_blocks, allocate_n_blocks, free_n_blocks, is_mapped,
  scan_entries, scan_bits,
}
use package.rackkey.FreeSpace.Ranges.{used}
use package.rackkey.FreeSpace.Search.{FirstFree}
use package.rackkey.FreeSpace.Laws.{
  num_blocks, Changed, initialise_free, find_n_free_blocks_first, allocate_n_blocks_lem,
  free_n_blocks_lem, is_mapped_lem, free-allocate, find_beyond_capacity,
}

-- Sixteen blocks, of which the first three and block 8 are used.
abbrev some_used : FreeSpaceMap
some_used = record { block_capacity = 16; bit_map = 7 ∷ 1 ∷ [] }

six_found : find_n_free_blocks some_used 6 ≡ some 9
unfolding find_n_free_blocks scan_entries scan_bits
six_found = refl

find_n_free_blocks_first_example : FirstFree some_used.bit_map 6 (find_n_free_blocks some_used 6)
find_n_free_blocks_first_example =
    find_n_free_blocks_first some_used 6 (omega arith) (omega arith) (omega arith)

allocate_n_blocks_example :
    (after : FreeSpaceMap) × (allocate_n_blocks some_used 3 4 ≡ ok (after, some 3))
    × Changed 1 some_used 3 4 after
allocate_n_blocks_example =
    allocate_n_blocks_lem some_used 3 4 (omega arith) (omega arith) (omega arith)

free_n_blocks_example :
    (after : FreeSpaceMap) × (free_n_blocks some_used 1 9 ≡ ok after)
    × Changed 0 some_used 1 9 after
free_n_blocks_example = free_n_blocks_lem some_used 1 9 (omega arith) (omega arith) (omega arith)

is_mapped_example : is_mapped some_used 8 ≡ (
    if ltb 8 (num_blocks some_used)
    then ok (used some_used.bit_map 8 == 1)
    else throw block_not_mapped)
is_mapped_example = is_mapped_lem some_used 8

free-allocate_example :
    (taken : FreeSpaceMap) × (after : FreeSpaceMap) × (allocate_n_blocks some_used 9 6
      ≡ ok (taken, some 9))
    × (free_n_blocks taken 9 6 ≡ ok after)
    × ((k : ℕ) → used after.bit_map k ≡ used some_used.bit_map k)
free-allocate_example =
    free-allocate some_used 6 9 (omega arith) (omega arith) (omega arith) six_found

initialise_free_example :
    (20 ≤ num_blocks (initialise 20))
    × (num_blocks (initialise 20) < 20 + 8)
    × ((k : ℕ) → used (initialise 20).bit_map k ≡ 0)
initialise_free_example = initialise_free 20 (omega arith)

twenty_two_fit : 22 ≤ num_blocks (initialise 20)
unfolding initialise ceil_div
twenty_two_fit = omega arith

find_beyond_capacity_example : find_n_free_blocks (initialise 20) 22 ≡ some 0
find_beyond_capacity_example = find_beyond_capacity 20 22 (omega arith) (omega arith) twenty_two_fit

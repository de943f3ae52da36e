-- ===== src/FreeSpace.antt =====
-- src/storage/free_space.cpp and free_space.hpp: the bitmap of used disk blocks.
-- A byte of the bitmap is a number below 256. An access outside the bitmap is a `fault`.
pub mod Bytes
pub mod Ranges
pub mod Search
pub mod Laws
mod Examples
use Prim.Native.Nat.{bit_and, bit_or}
use rackkey.Common.{
  ℕ, zero, suc, ◌+◌, ◌-◌, ◌*◌, ◌/◌, ◌%◌, ◌^◌, min, List, [], ◌∷◌, Bool, true, false, ◌&&◌, Option,
  none, some, ltb, leb, ◌==◌, not, list_beq, if◌then◌else◌, u32, length, get_or, set, replicate,
}
use rackkey.Common.Results.{Result, ok, throw, fault, ◌>>=◌, require, block_not_mapped}
use rackkey.Utils.{ceil_div}

pub record FreeSpaceMap : Type 0 where
  pub block_capacity : ℕ
  pub bit_map : List ℕ

abbrev pub empty : FreeSpaceMap
empty = record { block_capacity = 0; bit_map = [] }

unfoldable pub initialise : ℕ → FreeSpaceMap
initialise block_capacity = record {
  block_capacity = block_capacity;
  bit_map = replicate (ceil_div block_capacity 8) 0;
}

-- What the scan knows between two bits: a section was found, or the current section.
pub data Scan : Type 0 where
  found : ℕ → Scan
  scanning : ℕ → ℕ → Scan

-- The inner loop, `rounds` bits from `pos` on.
unfoldable pub scan_bits : ℕ → ℕ → ℕ → ℕ → ℕ → ℕ → ℕ → Scan
scan_bits zero curr_entry index pos n curr_start_block contiguous_count =
    scanning curr_start_block contiguous_count
scan_bits (suc rounds) curr_entry index pos n curr_start_block contiguous_count =
    let start = if contiguous_count == 0 then u32 (index * 8 + pos) else curr_start_block in
    let count = u32 (contiguous_count + 1) in
    let next_free = scan_bits rounds curr_entry index (pos + 1) n start count in
    let next_used = scan_bits rounds curr_entry index (pos + 1) n curr_start_block 0 in
    if bit_and curr_entry (2 ^ pos) == 0
    then (if count == n then found start else next_free)
    else next_used

-- The outer loop over the entries from `index` on.
unfoldable pub scan_entries : List ℕ → ℕ → ℕ → ℕ → ℕ → Option ℕ
scan_entries [] index n curr_start_block contiguous_count = none
scan_entries (curr_entry ∷ rest) index n curr_start_block contiguous_count =
    elim (scan_bits 8 curr_entry index 0 n curr_start_block contiguous_count) [
      | found start ↦ some start
      | scanning start count ↦ scan_entries rest (u32 (index + 1)) n start count
    ]

unfoldable pub find_n_free_blocks : FreeSpaceMap → ℕ → Option ℕ
find_n_free_blocks m n = scan_entries m.bit_map 0 n 0 0

-- `bitMap[index] = f(bitMap[index])`
abbrev pub update_byte : (ℕ → ℕ) → List ℕ → ℕ → Result (List ℕ)
update_byte f bit_map index =
    require (ltb index (length bit_map)) (ok (set bit_map index (f (get_or bit_map index 0))))

abbrev pub mask : ℕ → ℕ → ℕ
mask start_pos count = u32 ((2 ^ count - 1) * 2 ^ start_pos)

-- `bitMap[index] |= mask`
unfoldable pub allocate_bits : ℕ → ℕ → ℕ → ℕ
allocate_bits start_pos count byte = bit_or byte (mask start_pos count) % 256

-- `bitMap[index] &= ~mask`
unfoldable pub free_bits : ℕ → ℕ → ℕ → ℕ
free_bits start_pos count byte = bit_and byte (2 ^ 32 - 1 - mask start_pos count) % 256

unfoldable pub allocate_bits_in_byte : List ℕ → ℕ → ℕ → ℕ → Result (List ℕ)
allocate_bits_in_byte bit_map index start_pos count =
    update_byte (allocate_bits start_pos count) bit_map index

unfoldable pub free_bits_in_byte : List ℕ → ℕ → ℕ → ℕ → Result (List ℕ)
free_bits_in_byte bit_map index start_pos count =
    update_byte (free_bits start_pos count) bit_map index

-- `while (N >= 8) { bitMap[index++] = value; N -= 8; }`. The loop makes `N / 8` rounds.
unfoldable pub fill_bytes : ℕ → ℕ → List ℕ → ℕ → ℕ → Result (List ℕ × ℕ × ℕ)
fill_bytes zero value bit_map index n = fault
fill_bytes (suc fuel) value bit_map index n = elim (leb 8 n) [
  | true ↦ (do
    written ← update_byte (λ _. value) bit_map index
    fill_bytes fuel value written (u32 (index + 1)) (n - 8))
  | false ↦ ok (bit_map, index, n)
]

-- The common body of `allocateNBlocks` and `freeNBlocks` for N ≥ 1: a part of the first byte,
-- whole bytes, a part of the last byte. `partial` is the private method that it calls.
unfoldable pub cover : (List ℕ → ℕ → ℕ → ℕ → Result (List ℕ)) → ℕ → List ℕ → ℕ → ℕ → Result (List ℕ)
cover partial value bit_map start_block_num n = do
  let index = start_block_num / 8
  let pos = start_block_num % 8
  let num_bits = min n (8 - pos)
  (head, index, n) ←
      (if pos == 0 then ok (bit_map, index, n) else (do
        head ← partial bit_map index pos num_bits
        ok (head, u32 (index + 1), n - num_bits)))
  (body, index, n) ← fill_bytes (n / 8 + 1) value head index n
  if ltb 0 n then partial body index 0 n else ok body

unfoldable pub allocate_n_blocks : FreeSpaceMap → ℕ → ℕ → Result (FreeSpaceMap × Option ℕ)
allocate_n_blocks m start_block_num n = if ltb n 1 then ok (m, none) else do
  bit_map ← cover allocate_bits_in_byte 0xff m.bit_map start_block_num n
  ok (record m { bit_map = bit_map }, some start_block_num)

unfoldable pub free_n_blocks : FreeSpaceMap → ℕ → ℕ → Result FreeSpaceMap
free_n_blocks m start_block_num n = if ltb n 1 then ok m else do
  bit_map ← cover free_bits_in_byte 0 m.bit_map start_block_num n
  ok (record m { bit_map = bit_map })

unfoldable pub equals : FreeSpaceMap → FreeSpaceMap → Bool
equals m other = m.block_capacity == other.block_capacity && list_beq m.bit_map other.bit_map

unfoldable pub is_mapped : FreeSpaceMap → ℕ → Result Bool
is_mapped m block_num =
    let index = block_num / 8 in
    let pos = block_num % 8 in
    if leb (length m.bit_map) index
    then throw block_not_mapped
    else ok (not (bit_and (get_or m.bit_map index 0 / 2 ^ pos) 1 == 0))

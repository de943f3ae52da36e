-- ===== src/FreeSpace/Laws.antt =====
-- What the methods of `FreeSpaceMap` do to the set of used blocks.
use rackkey.Common.{
  ℕ, ◌+◌, ◌*◌, ◌/◌, ◌%◌, ◌^◌, ◌≤◌, ◌<◌, ◌≡◌, refl, ap, arith, ltb, ◌==◌, if◌then◌else◌, Option,
  none, some, length, get_or, length-replicate, get_or-replicate,
}
use rackkey.Common.Bits.{bit-le-one, bit-ones_low, zero-bit, bit_and-shr}
use rackkey.Common.Results.{ok, throw, block_not_mapped}
use rackkey.Utils.{ceil_div}
use package.rackkey.FreeSpace.{
  FreeSpaceMap, initialise, find_n_free_blocks, allocate_bits, free_bits, allocate_bits_in_byte,
  free_bits_in_byte, allocate_n_blocks, free_n_blocks, is_mapped,
}
use package.rackkey.FreeSpace.Bytes.{in_section, bit-allocate_bits, bit-free_bits}
use package.rackkey.FreeSpace.Ranges.{used, covers}
use package.rackkey.FreeSpace.Search.{FirstFree, finds}

-- The blocks that the bitmap has room for, at least the capacity.
abbrev pub num_blocks : FreeSpaceMap → ℕ
num_blocks m = length m.bit_map * 8

-- Block numbers fit `uint32_t`.
abbrev pub IsSmall : FreeSpaceMap → Type 0
IsSmall m = num_blocks m ≤ 2 ^ 32

-- `after` differs from `m` only in the section, whose blocks have the digit `v`.
pub record Changed (v : ℕ) (m : FreeSpaceMap) (start n : ℕ) (after : FreeSpaceMap) : Type 0 where
  pub capacity : after.block_capacity ≡ m.block_capacity
  pub size : length after.bit_map ≡ length m.bit_map
  pub blocks :
      (k : ℕ) → used after.bit_map k ≡ (if in_section start n k then v else used m.bit_map k)

-- A map for `capacity` blocks has room for them, for fewer than 8 more, and every block is free.
pub initialise_free :
    (capacity : ℕ)
    → capacity + 8 ≤ 2 ^ 32
    → (capacity ≤ num_blocks (initialise capacity))
      × (num_blocks (initialise capacity) < capacity + 8)
      × ((k : ℕ) → used (initialise capacity).bit_map k ≡ 0)
unfolding initialise ceil_div
initialise_free capacity h =
    let len = length-replicate {A = ℕ} (ceil_div capacity 8) 0 in
    (
      omega (arith, len),
      omega (arith, len),
      λ k. rw (get_or-replicate {A = ℕ} (ceil_div capacity 8) (k / 8) 0) (zero-bit (k % 8)),
    )

-- The search returns the first section of `n` free blocks, and `none` only if there is none.
pub find_n_free_blocks_first :
    (m : FreeSpaceMap) (n : ℕ)
    → IsSmall m
    → 0 < n
    → n < 2 ^ 32
    → FirstFree m.bit_map n (find_n_free_blocks m n)
unfolding find_n_free_blocks
find_n_free_blocks_first m n small pos narrow = finds m.bit_map n narrow pos small

-- Allocating a section inside the bitmap succeeds, marks its blocks used and changes no other.
pub allocate_n_blocks_lem :
    (m : FreeSpaceMap) (start n : ℕ)
    → IsSmall m
    → 0 < n
    → start + n ≤ num_blocks m
    → (after : FreeSpaceMap) × (allocate_n_blocks m start n ≡ ok (after, some start))
      × Changed 1 m start n after
unfolding allocate_n_blocks allocate_bits_in_byte
allocate_n_blocks_lem m start n small pos room =
    let (bits, run, size, change) =
      covers allocate_bits 0xff 1 bit-allocate_bits (bit-ones_low 8) m.bit_map start n room small
        pos in
    (
      record m { bit_map = bits },
      ground (arith, run),
      record { capacity = refl; size = size; blocks = change },
    )

-- Freeing a section inside the bitmap succeeds, marks its blocks free and changes no other.
pub free_n_blocks_lem :
    (m : FreeSpaceMap) (start n : ℕ)
    → IsSmall m
    → 0 < n
    → start + n ≤ num_blocks m
    → (after : FreeSpaceMap) × (free_n_blocks m start n ≡ ok after) × Changed 0 m start n after
unfolding free_n_blocks free_bits_in_byte
free_n_blocks_lem m start n small pos room =
    let (bits, run, size, change) =
      covers free_bits 0 0 bit-free_bits (λ j _. zero-bit j) m.bit_map start n room small pos in
    (
      record m { bit_map = bits },
      ground (arith, run),
      record { capacity = refl; size = size; blocks = change },
    )

-- `isMapped` reads the block's digit, and throws for a block outside the bitmap.
pub is_mapped_lem :
    (m : FreeSpaceMap) (k : ℕ)
    → is_mapped m k
      ≡ (if ltb k (num_blocks m) then ok (used m.bit_map k == 1) else throw block_not_mapped)
unfolding is_mapped
is_mapped_lem m k = ground (
  arith,
  bit_and-shr (get_or m.bit_map (k / 8) 0) (k % 8),
  bit-le-one (get_or m.bit_map (k / 8) 0) (k % 8),
)

-- A section that the search found can be allocated, and freeing it again gives back the same
-- set of used blocks.
pub free-allocate :
    (m : FreeSpaceMap) (n start : ℕ)
    → IsSmall m
    → 0 < n
    → n < 2 ^ 32
    → find_n_free_blocks m n ≡ some start
    → (taken : FreeSpaceMap) × (after : FreeSpaceMap) × (allocate_n_blocks m start n
        ≡ ok (taken, some start))
      × (free_n_blocks taken start n ≡ ok after)
      × ((k : ℕ) → used after.bit_map k ≡ used m.bit_map k)
free-allocate m n start small pos narrow h =
    let first = find_n_free_blocks_first m n small pos narrow in
    let hit = rw h at first in
    let (taken, run, change) = allocate_n_blocks_lem m start n small pos hit.before in
    let e : num_blocks taken ≡ num_blocks m = ap (λ (t : ℕ). t * 8) change.size in
    let (after, run', change') =
      free_n_blocks_lem taken start n (omega (arith, e)) pos (omega (arith, e, hit.before)) in
    (taken, after, run, run', λ k. ground (arith, change.blocks k, change'.blocks k, hit.free k))

-- The last byte's spare blocks count as free: a fresh map whose capacity is no multiple of 8
-- grants a section of more blocks than its capacity.
pub find_beyond_capacity :
    (capacity n : ℕ)
    → capacity + 8 ≤ 2 ^ 32
    → capacity < n
    → n ≤ num_blocks (initialise capacity)
    → find_n_free_blocks (initialise capacity) n ≡ some 0
find_beyond_capacity capacity n h more room =
    go (find_n_free_blocks m n)
      (find_n_free_blocks_first m n (omega (arith, fresh.1)) (omega arith) (omega (arith, fresh.1)))
  where
    m : FreeSpaceMap
    m = initialise capacity

    fresh :
        (capacity ≤ num_blocks m) × (num_blocks m < capacity + 8) × ((k : ℕ) → used m.bit_map k ≡ 0)
    fresh = initialise_free capacity h

    go : (o : Option ℕ) → FirstFree m.bit_map n o → o ≡ some 0
    go none f = absurd (omega (arith, f 0 (λ k _ _. fresh.2 k)))
    go (some s) f = ap some (omega (arith, f.least 0 (λ k _ _. fresh.2 k)))

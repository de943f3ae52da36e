-- ===== src/DiskStorage/Consistent.antt =====
-- The well-formed states of a node's disk storage, and the abstract view of one: the bytes that it
-- holds for each key hash.
use native.Mathlib.Decide.{dec_lt}
use rackkey.Common.{
  ℕ, ◌+◌, ◌*◌, ◌^◌, ◌≤◌, ◌<◌, ◌≡◌, ◌≢◌, refl, arith, List, ◌⊎◌, inl, inr, Option, none, some,
  length, get_elem?,
}
use rackkey.Utils.{ceil_div}
use rackkey.Utils.Laws.{ceil_div_bounds}
use rackkey.FreeSpace.Ranges.{used}
use rackkey.FreeSpace.Laws.{num_blocks, IsSmall}
use rackkey.StoreFile.{read_at}
use rackkey.Bat.{BatEntry, find_bat_entry}
use rackkey.Bat.Laws.{DistinctHashes, find_bat_entry_unique, find_bat_entry-none}
use package.rackkey.DiskStorage.{DiskStorage, get_disk_block_offset}

-- An entry's section is the disk blocks [first, end).
abbrev pub end_block : DiskStorage → BatEntry → ℕ
end_block ds e = e.starting_disk_block_num + ceil_div e.num_bytes ds.header.disk_block_size

-- The offset of a disk block, without wrap-around.
abbrev pub place : DiskStorage → ℕ → ℕ
place ds n = ds.header.block_store_offset + ds.header.disk_block_size * n

-- The entry's section is not empty, lies inside the bitmap, is all marked used, and its bytes are
-- inside the file.
pub record IsHeld (ds : DiskStorage) (e : BatEntry) : Type 0 where
  pub not_empty : 0 < e.num_bytes
  pub countable : e.num_bytes + ds.header.disk_block_size ≤ 2 ^ 32
  pub inside : end_block ds e ≤ num_blocks ds.free_space_map
  pub marked :
      (k : ℕ)
      → e.starting_disk_block_num ≤ k
      → k < end_block ds e
      → used ds.free_space_map.bit_map k ≡ 1
  pub in_file : place ds e.starting_disk_block_num + e.num_bytes ≤ ds.file.size

pub record IsConsistent (ds : DiskStorage) : Type 0 where
  pub small : IsSmall ds.free_space_map
  pub block_size : 0 < ds.header.disk_block_size
  pub addresses : place ds (num_blocks ds.free_space_map) ≤ 2 ^ 32
  pub counted : ds.bat.num_entries ≡ length ds.bat.table
  pub distinct : DistinctHashes ds.bat.table
  pub held : (i : ℕ) (e : BatEntry) → get_elem? ds.bat.table i ≡ some e → IsHeld ds e
  pub apart :
      (i j : ℕ) (e e' : BatEntry)
      → i ≢ j
      → get_elem? ds.bat.table i ≡ some e
      → get_elem? ds.bat.table j ≡ some e'
      → (end_block ds e ≤ e'.starting_disk_block_num)
        ⊎ (end_block ds e' ≤ e.starting_disk_block_num)

-- The bytes that the file holds for an entry.
abbrev pub entry_contents : DiskStorage → Option (ℕ × BatEntry) → Option (List ℕ)
entry_contents ds none = none
entry_contents ds (some (i, e)) =
    read_at ds.file (get_disk_block_offset ds e.starting_disk_block_num) e.num_bytes

-- The abstract view: a finite map from key hashes to byte strings.
unfoldable pub contents : DiskStorage → ℕ → Option (List ℕ)
contents ds h = entry_contents ds (find_bat_entry ds.bat h)

mul_room : (d k n : ℕ) → k < n → d * k + d ≤ d * n
mul_room d k n h = grind arith

pub mul_mono : (d k n : ℕ) → k ≤ n → d * k ≤ d * n
mul_mono d k n h = grind arith

-- An offset inside the bitmap does not wrap.
pub offset-place :
    (ds : DiskStorage) (n : ℕ)
    → IsConsistent ds
    → n < num_blocks ds.free_space_map
    → get_disk_block_offset ds n ≡ place ds n
unfolding get_disk_block_offset
offset-place ds n c h =
    let m = mul_room ds.header.disk_block_size n (num_blocks ds.free_space_map) h in
    omega (arith, m, c.addresses, c.block_size)

-- An entry's bytes fit the blocks of its section.
pub bytes-le-blocks :
    (ds : DiskStorage) (first n : ℕ)
    → IsConsistent ds
    → n + ds.header.disk_block_size ≤ 2 ^ 32
    → place ds first + n ≤ place ds (first + ceil_div n ds.header.disk_block_size)
bytes-le-blocks ds first n c small =
    let b = ceil_div_bounds n ds.header.disk_block_size c.block_size small in omega (arith, b.0)

-- A section that is not empty has a block.
pub blocks_pos : (n d : ℕ) → 0 < d → 0 < n → n + d ≤ 2 ^ 32 → 0 < ceil_div n d
blocks_pos n d d_pos n_pos small = let b = ceil_div_bounds n d d_pos small in grind (arith, b.0)

-- A section of free blocks and one of used blocks, none empty, lie apart.
pub free_used_apart :
    (u : ℕ → ℕ) (s n s' n' : ℕ)
    → 0 < n
    → 0 < n'
    → ((k : ℕ) → s ≤ k → k < s + n → u k ≡ 0)
    → ((k : ℕ) → s' ≤ k → k < s' + n' → u k ≡ 1)
    → (s + n ≤ s') ⊎ (s' + n' ≤ s)
free_used_apart u s n s' n' p p' free taken = elim (dec_lt s' (s + n)) [
  | no after ↦ inl (omega arith)
  | yes before ↦ elim (dec_lt s (s' + n')) [
    | no after ↦ inr (omega arith)
    | yes before' ↦ elim (dec_lt s s') [
      | yes l ↦
          absurd (omega (arith, free s' (omega arith) before, taken s' (omega arith) (omega arith)))
      | no l ↦
          absurd (omega (arith, free s (omega arith) (omega arith), taken s (omega arith) before'))
    ]
  ]
]

-- The view at the hash of a row, and at a hash that no row has.
pub contents_row :
    (ds : DiskStorage) (i : ℕ) (e : BatEntry)
    → IsConsistent ds
    → get_elem? ds.bat.table i ≡ some e
    → contents ds e.key_hash ≡ read_at ds.file (place ds e.starting_disk_block_num) e.num_bytes
unfolding contents
contents_row ds i e c at =
    let held = c.held i e at in
    let first : e.starting_disk_block_num < num_blocks ds.free_space_map = omega (
      arith,
      held.inside,
      blocks_pos e.num_bytes ds.header.disk_block_size c.block_size held.not_empty held.countable,
    ) in
    rw (
      find_bat_entry_unique ds.bat e.key_hash i e c.distinct at refl,
      offset-place ds e.starting_disk_block_num c first,
    )

pub contents-none :
    (ds : DiskStorage) (h : ℕ)
    → ((i : ℕ) (e : BatEntry) → get_elem? ds.bat.table i ≡ some e → e.key_hash ≢ h)
    → contents ds h ≡ none
unfolding contents
contents-none ds h no_row = rw (find_bat_entry-none ds.bat h no_row)

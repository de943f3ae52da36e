-- ===== src/DiskStorage/Examples.antt =====
-- A disk of sixteen blocks of four bytes, and the theorems of its operations there. The hash of a
-- key is here the key's length.
use rackkey.Common.{
  ℕ, zero, suc, ◌≡◌, ◌≤◌, ◌<◌, refl, subst, arith, List, [], ◌∷◌, map, some, none, ◌==◌,
  if◌then◌else◌, length, replicate, get_elem?, false,
}
use rackkey.Common.Bits.{bit}
use rackkey.Common.Results.{ok, throw, wrong_block_count}
use rackkey.Utils.{ceil_div}
use rackkey.Block.{Block}
use rackkey.ByteBuffer.{u32_bytes}
use rackkey.FreeSpace
use rackkey.FreeSpace.{FreeSpaceMap}
use rackkey.FreeSpace.Ranges.{used}
use rackkey.StoreFile.{blank, healthy}
use rackkey.Bat.{BatEntry, find_bat_entry, entry_bytes}
use package.rackkey.DiskStorage.{DiskStorage, table_bytes, get_num_disk_blocks}
use package.rackkey.DiskStorage.Reading.{read_blocks, get_block_nums}
use package.rackkey.DiskStorage.Selection.{Selects}
use package.rackkey.DiskStorage.Updating.{free_existing, free_blocks, write_blocks, delete_blocks}
use package.rackkey.DiskStorage.Contents.{section_bytes}
use package.rackkey.DiskStorage.Consistent.{IsConsistent, IsHeld, end_block, contents}
use package.rackkey.DiskStorage.Steps.{IsWritable}
use package.rackkey.DiskStorage.Writing.{
  freed_map, section_blocks, write_blocks_lem, overwrite_unrestored,
}
use package.rackkey.DiskStorage.Deleting.{delete_blocks_lem}
use package.rackkey.DiskStorage.WriteRead.{read_blocks-write_blocks}

abbrev pub row : BatEntry
row = record {
  key = b'a' ∷ replicate 49 0;
  key_hash = 1;
  starting_disk_block_num = 0;
  num_bytes = 6;
}

abbrev pub disk : DiskStorage
disk = record {
  header = record {
    magic_number = 0;
    bat_offset = 24;
    bat_size = 376;
    disk_block_size = 4;
    max_data_size = 64;
    block_store_offset = 400;
  };
  bat = record { num_entries = 1; table = row ∷ [] };
  free_space_map = record { block_capacity = 16; bit_map = 3 ∷ 0 ∷ [] };
  key_length_max = 50;
  file = blank 500;
  stream_stuck = false;
}

abbrev pub stored_key : List ℕ
stored_key = b'a' ∷ []

abbrev new_key : List ℕ
new_key = b'b' ∷ b'b' ∷ []

row_marked : (k : ℕ) → 0 ≤ k → k < end_block disk row → used disk.free_space_map.bit_map k ≡ 1
unfolding ceil_div bit
row_marked zero l g = refl
row_marked (suc zero) l g = refl
row_marked (suc (suc k)) l g = absurd (omega (arith, g))

row-IsHeld : IsHeld disk row
unfolding ceil_div
row-IsHeld = record {
  not_empty = omega arith;
  countable = omega arith;
  inside = omega arith;
  marked = row_marked;
  in_file = omega arith;
}

held : (i : ℕ) (e : BatEntry) → get_elem? disk.bat.table i ≡ some e → IsHeld disk e
held zero e at = let same : row ≡ e = ground (arith, at) in subst (IsHeld disk) same row-IsHeld
held (suc i) e at = absurd (ground (arith, at))

only_row : (i : ℕ) (e : BatEntry) → get_elem? disk.bat.table i ≡ some e → i ≡ 0
only_row zero e at = refl
only_row (suc i) e at = absurd (ground (arith, at))

pub disk-IsConsistent : IsConsistent disk
disk-IsConsistent = record {
  small = omega arith;
  block_size = omega arith;
  addresses = omega arith;
  counted = refl;
  distinct = λ i j e e' at at' _. omega (arith, only_row i e at, only_row j e' at');
  held = held;
  apart =
      λ i j e e' differ at at'. absurd (differ (omega (arith, only_row i e at, only_row j e' at')));
}

abbrev new_blocks : List Block
new_blocks =
    record { key = new_key; block_num = 0; data_size = 3; bytes = 7 ∷ 8 ∷ 9 ∷ [] }
    ∷ record { key = new_key; block_num = 2; data_size = 1; bytes = 5 ∷ [] }
    ∷ []

new_blocks-IsWritable : IsWritable disk new_key 3 new_blocks
unfolding table_bytes entry_bytes u32_bytes
new_blocks-IsWritable = record {
  usable = refl;
  some_block = omega arith;
  storable = (
    record { of_key = refl; sized = refl; num_fits = omega arith },
    refl,
    (record { of_key = refl; sized = refl; num_fits = omega arith }, omega arith),
  );
  countable = omega arith;
  table_room = omega arith;
}

section_found :
    FreeSpace.find_n_free_blocks
      (freed_map length disk new_key 3 new_blocks)
      (section_blocks length disk new_key 3 new_blocks)
    ≡ some 2
unfolding free_existing find_bat_entry FreeSpace.find_n_free_blocks FreeSpace.scan_entries
    FreeSpace.scan_bits get_num_disk_blocks ceil_div u32_bytes
section_found = refl

write_blocks_example :
    (after : DiskStorage) × (write_blocks length new_key new_blocks healthy healthy disk
      ≡ (ok tt, after))
    × IsConsistent after
    × (after.stream_stuck ≡ false)
    × ((h : ℕ)
        → contents after h
          ≡ (if length new_key == h then some (section_bytes new_blocks) else contents disk h))
write_blocks_example =
    write_blocks_lem length disk new_key 3 new_blocks disk-IsConsistent new_blocks-IsWritable 2
      section_found

read_blocks-write_blocks_example :
    (after : DiskStorage) × (taken : List Block) × (write_blocks length new_key new_blocks healthy
        healthy disk
      ≡ (ok tt, after))
    × Selects (2 ∷ []) new_blocks taken
    × (read_blocks length new_key (2 ∷ []) 3 healthy after
        ≡ (if length taken == 1 then (ok taken, after) else (throw wrong_block_count, after)))
    × (get_block_nums length new_key 3 healthy after
        ≡ (ok (map (λ (b : Block). b.block_num) new_blocks), after))
read_blocks-write_blocks_example =
    read_blocks-write_blocks length disk new_key 3 new_blocks disk-IsConsistent
      new_blocks-IsWritable 2 (2 ∷ []) section_found

-- More blocks than the disk has, for the stored key.
abbrev pub large_blocks : List Block
large_blocks =
    record { key = stored_key; block_num = 0; data_size = 70; bytes = replicate 70 1 } ∷ []

pub large_blocks-IsWritable : IsWritable disk stored_key 70 large_blocks
unfolding table_bytes entry_bytes u32_bytes
large_blocks-IsWritable = record {
  usable = refl;
  some_block = omega arith;
  storable = (record { of_key = refl; sized = refl; num_fits = omega arith }, omega arith);
  countable = omega arith;
  table_room = omega arith;
}

pub section_missed :
    FreeSpace.find_n_free_blocks
      (freed_map length disk stored_key 70 large_blocks)
      (section_blocks length disk stored_key 70 large_blocks)
    ≡ none
unfolding free_existing free_blocks FreeSpace.free_n_blocks FreeSpace.cover
    FreeSpace.free_bits_in_byte FreeSpace.free_bits FreeSpace.fill_bytes find_bat_entry
    FreeSpace.find_n_free_blocks FreeSpace.scan_entries FreeSpace.scan_bits get_num_disk_blocks
    ceil_div u32_bytes
section_missed = refl

pub stored_found : find_bat_entry disk.bat (length stored_key) ≡ some (0, row)
unfolding find_bat_entry
stored_found = refl

overwrite_unrestored_example :
    ¬ IsConsistent (write_blocks length stored_key large_blocks healthy healthy disk).1
overwrite_unrestored_example =
    overwrite_unrestored length disk stored_key 70 large_blocks disk-IsConsistent
      large_blocks-IsWritable healthy healthy 0 row stored_found section_missed

delete_blocks_example :
    (after : DiskStorage) × (delete_blocks length stored_key disk ≡ (ok tt, after))
    × IsConsistent after
    × ((h : ℕ) → contents after h ≡ (if length stored_key == h then none else contents disk h))
    × ((k : ℕ) → 0 ≤ k → k < end_block disk row → used after.free_space_map.bit_map k ≡ 0)
    × (after.file ≡ disk.file)
delete_blocks_example =
    delete_blocks_lem length disk stored_key disk-IsConsistent 0 row (omega arith) stored_found

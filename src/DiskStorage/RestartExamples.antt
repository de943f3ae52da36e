-- ===== src/DiskStorage/RestartExamples.antt =====
-- A restart on a store file of sixteen blocks of four bytes, with one row.
use rackkey.Common.{
  ℕ, zero, suc, ◌≡◌, ◌≤◌, ◌<◌, ◌↔◌, refl, subst, arith, [], ◌∷◌, ◌++◌, some, replicate, get_elem?,
  false,
}
use rackkey.Common.Bits.{bit}
use rackkey.Common.Results.{ok}
use rackkey.Utils.{ceil_div}
use rackkey.ByteBuffer.{u32_bytes, read_u32, read_range}
use rackkey.FreeSpace
use rackkey.FreeSpace.Ranges.{used}
use rackkey.StoreFile.{StoreFile, blank, healthy, read_at, write_at}
use package.rackkey.DiskStorage.Updating.{delete_blocks}
use package.rackkey.DiskStorage.DeleteRestart.{delete_blocks-open_existing}
use rackkey.Common.{none, List, length}
use rackkey.Bat.{
  find_bat_entry, Header, BatEntry, header_bytes, header_of_bytes, entry_bytes, entry_of_bytes,
}
use package.rackkey.DiskStorage.{DiskStorage, table_bytes, write_bat}
use package.rackkey.DiskStorage.Consistent.{IsConsistent, IsHeld, end_block, contents}
use package.rackkey.DiskStorage.Startup.{
  read_header, write_header, read_bat, read_table, bytes_or_fault, put_entry, open_existing,
}
use package.rackkey.DiskStorage.Restart.{
  IsRow, IsHeader, read_bat-write_bat, read_header-write_header,
}
use package.rackkey.DiskStorage.Reopening.{Inside, IsStored, open_existing_lem}

abbrev header : Header
header = record {
  magic_number = 0xABABABAB;
  bat_offset = 24;
  bat_size = 376;
  disk_block_size = 4;
  max_data_size = 64;
  block_store_offset = 400;
}

header-IsHeader : IsHeader header
header-IsHeader = record {
  magic_fits = omega arith;
  offset_fits = omega arith;
  size_fits = omega arith;
  block_fits = omega arith;
  max_fits = omega arith;
  store_fits = omega arith;
}

read_header-write_header_example :
    (read_header (write_header healthy header (blank 500)) ≡ ok header)
    × ((i : ℕ)
        → 24 ≤ i
        → (write_header healthy header (blank 500)).byte_at i ≡ (blank 500).byte_at i)
read_header-write_header_example = read_header-write_header (blank 500) header header-IsHeader

abbrev row : BatEntry
row = record {
  key = b'a' ∷ replicate 49 0;
  key_hash = 1;
  starting_disk_block_num = 0;
  num_bytes = 6;
}

abbrev stored_file : StoreFile
stored_file =
    write_at (write_at (blank 500) 0 (header_bytes header)) 24
      (u32_bytes 1 ++ table_bytes (row ∷ []))

abbrev disk : DiskStorage
disk = record {
  header = header;
  bat = record { num_entries = 1; table = row ∷ [] };
  free_space_map = record { block_capacity = 16; bit_map = 3 ∷ 0 ∷ [] };
  key_length_max = 50;
  file = stored_file;
  stream_stuck = false;
}

row-IsRow : IsRow row
row-IsRow = record {
  key_array = refl;
  hash_fits = omega arith;
  start_fits = omega arith;
  num_fits = omega arith;
}

read_bat-write_bat_example : read_bat (write_bat healthy disk).1.file [] ≡ ok disk.bat
read_bat-write_bat_example = read_bat-write_bat disk refl (row-IsRow, tt) refl (omega arith)

row_marked : (k : ℕ) → 0 ≤ k → k < end_block disk row → used disk.free_space_map.bit_map k ≡ 1
unfolding ceil_div bit
row_marked zero l g = refl
row_marked (suc zero) l g = refl
row_marked (suc (suc k)) l g = absurd (omega (arith, g))

long_enough : 406 ≤ stored_file.size
unfolding write_at header_bytes u32_bytes table_bytes entry_bytes
long_enough = omega arith

row-IsHeld : IsHeld disk row
unfolding ceil_div
row-IsHeld = record {
  not_empty = omega arith;
  countable = omega arith;
  inside = omega arith;
  marked = row_marked;
  in_file = long_enough;
}

held : (i : ℕ) (e : BatEntry) → get_elem? disk.bat.table i ≡ some e → IsHeld disk e
held zero e at = let same : row ≡ e = ground (arith, at) in subst (IsHeld disk) same row-IsHeld
held (suc i) e at = absurd (ground (arith, at))

only_row : (i : ℕ) (e : BatEntry) → get_elem? disk.bat.table i ≡ some e → i ≡ 0
only_row zero e at = refl
only_row (suc i) e at = absurd (ground (arith, at))

disk-IsConsistent : IsConsistent disk
disk-IsConsistent = record {
  small = omega arith;
  block_size = omega arith;
  addresses = omega arith;
  counted = refl;
  distinct = λ i j e e' at at' _. omega (arith, only_row i e at, only_row j e' at');
  held = held;
  apart =
      λ i j e e' differ at at'. absurd (differ (omega (arith, only_row i e at, only_row j e' at')));
}

disk-IsStored : IsStored disk
unfolding read_header read_bat read_table bytes_or_fault put_entry header_of_bytes entry_of_bytes
    header_bytes entry_bytes table_bytes u32_bytes read_u32 read_range read_at write_at ceil_div
    FreeSpace.initialise
disk-IsStored = record {
  header_read = refl;
  table_read = refl;
  capacity_fits = omega arith;
  map_size = refl;
}

open_existing_example :
    (after : DiskStorage) × (open_existing stored_file 64 50 ≡ ok after)
    × IsConsistent after
    × ((h : ℕ) → contents after h ≡ contents disk h)
    × ((k : ℕ) → (used after.free_space_map.bit_map k ≡ 1) ↔ ((i : ℕ) × Inside 4 (row ∷ []) k i))
open_existing_example = open_existing_lem disk disk-IsConsistent disk-IsStored 50

abbrev stored_key : List ℕ
stored_key = b'a' ∷ []

stored_found : find_bat_entry disk.bat (length stored_key) ≡ some (0, row)
unfolding find_bat_entry
stored_found = refl

delete_blocks-open_existing_example :
    (after : DiskStorage) × (again : DiskStorage) × (delete_blocks length stored_key disk
      ≡ (ok tt, after))
    × (contents after (length stored_key) ≡ none)
    × (open_existing after.file 64 50 ≡ ok again)
    × ((h : ℕ) → contents again h ≡ contents disk h)
delete_blocks-open_existing_example =
    delete_blocks-open_existing length disk stored_key 50 0 row disk-IsConsistent disk-IsStored
      (omega arith) stored_found

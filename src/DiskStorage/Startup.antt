-- ===== src/DiskStorage/Startup.antt =====
-- src/storage/disk_storage.cpp: the constructor, and what it reads from an existing store file.
use rackkey.Common.{
  ℕ, zero, suc, ◌+◌, ◌-◌, ◌*◌, ◌^◌, List, [], ◌∷◌, ◌++◌, Bool, true, false, ◌&&◌, Option, none,
  some, ltb, ◌==◌, if◌then◌else◌, u32, length, set,
}
use rackkey.Common.Results.{Result, ok, throw, fault, ◌>>=◌, no_store_file, capacity_mismatch}
use rackkey.Utils.{ceil_div}
use rackkey.FreeSpace
use rackkey.FreeSpace.{FreeSpaceMap}
use rackkey.ByteBuffer.{read_u32}
use rackkey.StoreFile.{StoreFile, Io, healthy, blank, read_at, write_at}
use rackkey.Bat
use rackkey.Bat.{
  Header, BatEntry, Bat, header_bytes, header_of_bytes, entry_of_bytes, size_of_header,
  size_of_entry,
}
use package.rackkey.DiskStorage.{DiskStorage, total_file_size}

abbrev pub magic_number : ℕ
magic_number = 0xABABABAB

unfoldable pub header_valid : Header → Bool
header_valid header = header.magic_number == magic_number

-- The layout: header, BAT with room for one entry per disk block, block store.
unfoldable pub initialise_header : ℕ → ℕ → Header
unfolding ceil_div
initialise_header disk_block_size max_data_size =
    let num_blocks = ceil_div max_data_size disk_block_size in
    let bat_size = u32 (4 + num_blocks * size_of_entry) in
    record {
      magic_number = magic_number;
      bat_offset = size_of_header;
      bat_size = bat_size;
      disk_block_size = disk_block_size;
      max_data_size = max_data_size;
      block_store_offset = u32 (size_of_header + bat_size);
    }

-- `seekp(totalFileSize - 1); put(0)`, on `uint32_t`: one byte is written there.
unfoldable pub create_store_file : Header → StoreFile
create_store_file header = write_at (blank 0) (u32 (total_file_size header + (2 ^ 32 - 1))) (0 ∷ [])

-- A file shorter than a header leaves the fields undetermined: `fault`. An invalid header is
-- reported and used.
unfoldable pub bytes_or_fault : Option (List ℕ) → Result (List ℕ)
bytes_or_fault none = fault
bytes_or_fault (some bytes) = ok bytes

unfoldable pub read_header : StoreFile → Result Header
unfolding bytes_or_fault
read_header file = do bytes ← bytes_or_fault (read_at file 0 size_of_header); header_of_bytes bytes

-- A file that cannot be opened is reported, and a write that fails is not noticed.
unfoldable pub write_header : Io → Header → StoreFile → StoreFile
write_header io header file =
    if io.opens && io.transfers then write_at file 0 (header_bytes header) else file

-- `table[i] = be` within the table, else `insert` at its end.
unfoldable pub put_entry : List BatEntry → ℕ → BatEntry → List BatEntry
put_entry table i be = if ltb i (length table) then set table i be else table ++ (be ∷ [])

-- The loop over the entries; `left` rounds remain.
unfoldable pub read_table : ℕ → ℕ → StoreFile → ℕ → List BatEntry → Result (List BatEntry)
unfolding put_entry bytes_or_fault
read_table zero i file offset table = ok table
read_table (suc left) i file offset table = do
  bytes ← bytes_or_fault (read_at file offset size_of_entry)
  (be, _) ← entry_of_bytes bytes
  read_table left (suc i) file (offset + size_of_entry) (put_entry table i be)

unfoldable pub read_bat : StoreFile → List BatEntry → Result Bat
unfolding read_table
read_bat file table = do
  bytes ← bytes_or_fault (read_at file size_of_header 4)
  (num_entries, _) ← read_u32 bytes
  table ← read_table num_entries 0 file (size_of_header + 4) table
  ok (record { num_entries = num_entries; table = table })

-- Every entry's blocks are marked used.
unfoldable pub allocate_entries : ℕ → List BatEntry → FreeSpaceMap → Result FreeSpaceMap
unfolding ceil_div
allocate_entries disk_block_size [] m = ok m
allocate_entries disk_block_size (be ∷ table) m = do
  (m, _) ←
      FreeSpace.allocate_n_blocks m be.starting_disk_block_num
        (ceil_div be.num_bytes disk_block_size)
  allocate_entries disk_block_size table m

-- `numEntries` is the table's size when this is called, behind `readBAT`.
unfoldable pub populate_free_space_map : Header → Bat → FreeSpaceMap → Result FreeSpaceMap
unfolding allocate_entries ceil_div
populate_free_space_map header bat m =
    if m.block_capacity == ceil_div header.max_data_size header.disk_block_size
    then allocate_entries header.disk_block_size bat.table m
    else throw capacity_mismatch

-- From an existing store file. The map's size comes from the argument `max_data_size`, the blocks'
-- size from the file.
unfoldable pub open_existing : StoreFile → ℕ → ℕ → Result DiskStorage
unfolding read_header read_bat populate_free_space_map
open_existing file max_data_size key_length_max = do
  header ← read_header file
  bat ← read_bat file []
  m ←
      populate_free_space_map header bat
        (FreeSpace.initialise (ceil_div max_data_size header.disk_block_size))
  ok (record {
    header = header;
    bat = bat;
    free_space_map = m;
    key_length_max = key_length_max;
    file = file;
    stream_stuck = false;
  })

-- A new store file. `uninitialised` is the header that the default constructor leaves: the file's
-- size is computed from it, before the header is made.
unfoldable pub create_new : Header → ℕ → ℕ → ℕ → DiskStorage
create_new uninitialised disk_block_size max_data_size key_length_max =
    let header = initialise_header disk_block_size max_data_size in
    record {
      header = header;
      bat = Bat.empty;
      free_space_map = FreeSpace.initialise (ceil_div max_data_size disk_block_size);
      key_length_max = key_length_max;
      file = write_header healthy header (create_store_file uninitialised);
      stream_stuck = false;
    }

-- `initialiseStorage`; `existing` is the store file that is there, if any.
unfoldable pub initialise_storage :
    Option StoreFile → Bool → Bool → Header → ℕ → ℕ → ℕ → Result DiskStorage
initialise_storage none remove_existing creates header block_size max_size key_max =
    if creates then ok (create_new header block_size max_size key_max) else throw no_store_file
initialise_storage (some file) true creates header block_size max_size key_max =
    if creates then ok (create_new header block_size max_size key_max) else throw no_store_file
initialise_storage (some file) false creates header block_size max_size key_max =
    open_existing file max_size key_max

-- ===== src/DiskStorage.antt =====
-- src/storage/disk_storage.cpp and .hpp: a storage node's blocks on disk.
-- The object's fields are a record, and a method is an action on it that may throw. The hash of
-- keys is a parameter. What the operating system answers to each use of the store file is an
-- argument `Io`.
pub mod Reading
pub mod Selection
pub mod Updating
pub mod Startup
pub mod Restart
pub mod Reopening
pub mod DeleteRestart
mod RestartExamples
pub mod Contents
pub mod Consistent
pub mod Placement
pub mod Rows
pub mod Marks
pub mod Steps
pub mod Writing
pub mod Retrieval
pub mod Deleting
pub mod WriteRead
pub mod Examples
use rackkey.Common.{
  ℕ, zero, suc, ◌+◌, ◌-◌, ◌*◌, ◌^◌, min, List, [], ◌∷◌, ◌++◌, map, Bool, true, false, ◌&&◌, ◌||◌,
  not, Option, none, some, ltb, leb, ◌==◌, if◌then◌else◌, u32, length, set, erase_at, take, drop,
}
use rackkey.Common.Results.{
  Result, ok, throw, fault, Error, no_bat_entry, no_data_blocks, no_contiguous_section, bad_copy,
  bad_read, bad_write, open_failed, wrong_block_count,
}
use rackkey.Common.Exec.{Exec, pure, raise, lift, gets, ◌>>=◌, ◌>>◌}
use rackkey.Utils.{ceil_div, fixed_size}
use rackkey.ByteBuffer.{u32_bytes, read_u32}
use rackkey.Block.{Block}
use rackkey.FreeSpace
use rackkey.FreeSpace.{FreeSpaceMap}
use rackkey.StoreFile.{StoreFile, Io, read_at, write_at}
use rackkey.Bat.{
  Header, BatEntry, Bat, c_string, new_entry, find_bat_entry, entry_bytes, size_of_header,
}

-- `stream_stuck`: a throw has left `storeFile` open. To open it again then sets the stream's fail
-- bit, `is_open()` is still true, and every transfer fails.
pub record DiskStorage : Type 0 where
  pub header : Header
  pub bat : Bat
  pub free_space_map : FreeSpaceMap
  pub key_length_max : ℕ
  pub file : StoreFile
  pub stream_stuck : Bool

abbrev pub Action : Type 0 → Type 0
Action A = Exec DiskStorage A

unfoldable pub get_disk_block_offset : DiskStorage → ℕ → ℕ
get_disk_block_offset ds disk_block_num =
    u32 (ds.header.block_store_offset + u32 (ds.header.disk_block_size * disk_block_num))

unfoldable pub get_num_disk_blocks : DiskStorage → ℕ → ℕ
get_num_disk_blocks ds num_data_bytes = ceil_div num_data_bytes ds.header.disk_block_size

sum_bytes : List BatEntry → ℕ → ℕ
sum_bytes [] used_size = used_size
sum_bytes (be ∷ table) used_size = sum_bytes table (u32 (used_size + be.num_bytes))

unfoldable pub data_used_size : DiskStorage → ℕ
unfolding sum_bytes
data_used_size ds = sum_bytes ds.bat.table 0

unfoldable pub data_total_size : DiskStorage → ℕ
data_total_size ds = ds.header.max_data_size

unfoldable pub total_file_size : Header → ℕ
total_file_size header = u32 (u32 (size_of_header + header.bat_size) + header.max_data_size)

-- `open`, `seekg`, `read`, the tests of the stream, `close`.
unfoldable pub read_file : Io → ℕ → ℕ → Action (List ℕ)
read_file io offset n ds =
    if ds.stream_stuck || io.opens
    then elim (if not ds.stream_stuck && io.transfers then read_at ds.file offset n else none) [
      | some bytes ↦ (ok bytes, ds)
      | none ↦ (throw bad_read, record ds { stream_stuck = true })
    ]
    else (throw open_failed, ds)

-- The same for a write.
unfoldable pub write_file : Io → ℕ → List ℕ → Action (Unit {0})
write_file io offset bytes ds =
    if ds.stream_stuck || io.opens
    then if not ds.stream_stuck && io.transfers
      then (ok tt, record ds { file = write_at ds.file offset bytes })
      else (throw bad_write, record ds { stream_stuck = true })
    else (throw open_failed, ds)

-- `numEntries` and the entries, right behind the header.
unfoldable pub table_bytes : List BatEntry → List ℕ
table_bytes [] = []
table_bytes (be ∷ table) = entry_bytes be ++ table_bytes table

-- `numEntries` and the entries go right behind the header. A file that cannot be opened, or a
-- transfer that fails, is not reported.
unfoldable pub write_bat : Io → Action (Unit {0})
unfolding table_bytes
write_bat io ds =
    if ds.stream_stuck || io.opens
    then (
      ok tt,
      record ds {
        file =
            if not ds.stream_stuck && io.transfers
            then write_at ds.file size_of_header
                (u32_bytes ds.bat.num_entries ++ table_bytes ds.bat.table)
            else ds.file;
        stream_stuck = false;
      },
    )
    else (ok tt, ds)

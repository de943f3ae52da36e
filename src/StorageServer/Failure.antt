-- ===== src/StorageServer/Failure.antt =====
-- A put of src/storage/storage_server.cpp that finds no room for the new blocks of a stored key.
use rackkey.Common.{ℕ, ◌≡◌, ◌≢◌, ◌≤◌, ◌<◌, refl, List, [], true, All, some, none, get_elem?}
use rackkey.Common.Results.{ok}
use rackkey.Block.{Block, serialize_all}
use rackkey.Block.RoundTrip.{IsValid, deserialize-serialize_all}
use rackkey.FreeSpace
use rackkey.FreeSpace.Ranges.{used}
use rackkey.FreeSpace.{FreeSpaceMap}
use rackkey.StoreFile.{Io}
use rackkey.Bat.{BatEntry, find_bat_entry}
use rackkey.DiskStorage.{DiskStorage}
use rackkey.DiskStorage.Consistent.{IsConsistent, end_block}
use rackkey.DiskStorage.Marks.{with_map}
use rackkey.DiskStorage.Steps.{IsWritable}
use rackkey.DiskStorage.Writing.{freed_map, section_blocks, overwrite_freed}
use package.rackkey.StorageServer.{
  Config, answered, bare, internal_error, put_handler, caught, reply,
}

-- On a consistent storage, a put of serialized valid and writable blocks for a key that has a row,
-- where no section is found after freeing the row's blocks: the client is sent an error, and the
-- handler ends with the exception of its second call of `reply`. Only the storage's map is another:
-- in it the blocks of the key's row, which stays, are free, and those of every other row are used.
pub put_handler_full :
    (sha256_32 : List ℕ → ℕ) (config : Config) (ds : DiskStorage) (key : List ℕ)
    (blocks : List Block) (data_io bat_io : Io) (i : ℕ) (be : BatEntry)
    → All IsValid blocks
    → IsConsistent ds
    → IsWritable ds key config.data_block_size blocks
    → find_bat_entry ds.bat (sha256_32 key) ≡ some (i, be)
    → FreeSpace.find_n_free_blocks
        (freed_map sha256_32 ds key config.data_block_size blocks)
        (section_blocks sha256_32 ds key config.data_block_size blocks)
      ≡ none
    → (m : FreeSpaceMap) × (put_handler sha256_32 config key
          (serialize_all blocks [])
          data_io
          bat_io
          ds
        ≡ (ok (record (answered (bare internal_error)) { threw = true }), with_map ds m))
      × ((k : ℕ) → be.starting_disk_block_num ≤ k → k < end_block ds be → used m.bit_map k ≡ 0)
      × ((j : ℕ) (e : BatEntry) (k : ℕ)
          → j ≢ i
          → get_elem? ds.bat.table j ≡ some e
          → e.starting_disk_block_num ≤ k
          → k < end_block ds e
          → used m.bit_map k ≡ 1)
unfolding put_handler caught reply
put_handler_full sha256_32 config ds key blocks data_io bat_io i be valid c w at miss =
    let (m, run, free, kept) =
      overwrite_freed sha256_32 ds key config.data_block_size blocks c w data_io bat_io i be at
        miss in
    (m, rw (deserialize-serialize_all blocks valid) (rw run refl), free, kept)

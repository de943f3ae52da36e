-- ===== src/StorageServer/FailureExamples.antt =====
-- The theorem on a put without room, at a disk of 16 blocks that stores a key, for 70 bytes more than it
-- has. The hash of a key is here its length.
use rackkey.Common.{ℕ, ◌≡◌, ◌≢◌, ◌≤◌, ◌<◌, refl, arith, [], true, All, some, get_elem?, length}
use rackkey.Common.Results.{ok}
use rackkey.Block.{serialize_all}
use rackkey.Block.RoundTrip.{IsValid}
use rackkey.FreeSpace.{FreeSpaceMap}
use rackkey.FreeSpace.Ranges.{used}
use rackkey.StoreFile.{healthy}
use rackkey.Bat.{BatEntry}
use rackkey.DiskStorage.Consistent.{end_block}
use rackkey.DiskStorage.Examples.{
  row, disk, stored_key, large_blocks, large_blocks-IsWritable, section_missed, stored_found,
  disk-IsConsistent,
}
use rackkey.DiskStorage.Marks.{with_map}
use package.rackkey.StorageServer.{Config, answered, bare, internal_error, put_handler}
use package.rackkey.StorageServer.Failure.{put_handler_full}

abbrev large_config : Config
large_config = record { data_block_size = 70; key_length_max = 50 }

large_blocks-IsValid : All IsValid large_blocks
large_blocks-IsValid = (
  record { key_fits = omega arith; num_fits = omega arith; size_fits = omega arith; sized = refl },
  tt,
)

put_handler_full_example :
    (m : FreeSpaceMap) × (put_handler length large_config stored_key
        (serialize_all large_blocks [])
        healthy
        healthy
        disk
      ≡ (ok (record (answered (bare internal_error)) { threw = true }), with_map disk m))
    × ((k : ℕ) → 0 ≤ k → k < end_block disk row → used m.bit_map k ≡ 0)
    × ((j : ℕ) (e : BatEntry) (k : ℕ)
        → j ≢ 0
        → get_elem? disk.bat.table j ≡ some e
        → e.starting_disk_block_num ≤ k
        → k < end_block disk e
        → used m.bit_map k ≡ 1)
put_handler_full_example =
    put_handler_full length large_config disk stored_key large_blocks healthy healthy 0 row
      large_blocks-IsValid disk-IsConsistent large_blocks-IsWritable stored_found section_missed

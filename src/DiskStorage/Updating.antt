-- ===== src/DiskStorage/Updating.antt =====
-- src/storage/disk_storage.cpp: writeBlocks and deleteBlocks.
use rackkey.Common.{
  ℕ, ◌+◌, ◌-◌, List, [], ◌∷◌, ◌++◌, not, Option, none, some, ◌==◌, ◌^◌, if◌then◌else◌, u32, length,
  set, erase_at,
}
use rackkey.Common.Results
use rackkey.Common.Results.{
  Result, ok, throw, fault, Error, no_bat_entry, no_data_blocks, no_contiguous_section, bad_copy,
}
use rackkey.Common.Exec.{raise, lift, gets, ◌>>=◌, ◌>>◌}
use rackkey.ByteBuffer.{u32_bytes}
use rackkey.Block.{Block}
use rackkey.FreeSpace
use rackkey.FreeSpace.{FreeSpaceMap}
use rackkey.StoreFile.{Io}
use rackkey.Bat.{BatEntry, new_entry, find_bat_entry}
use package.rackkey.DiskStorage.{
  DiskStorage, Action, get_disk_block_offset, get_num_disk_blocks, write_file, write_bat,
}

set_map : DiskStorage → Result FreeSpaceMap → Result (Unit {0}) × DiskStorage
set_map ds (ok m) = (ok tt, record ds { free_space_map = m })
set_map ds (throw e) = (throw e, ds)
set_map ds fault = (fault, ds)

unfoldable pub free_blocks : ℕ → ℕ → Action (Unit {0})
unfolding set_map
free_blocks start n ds = set_map ds (FreeSpace.free_n_blocks ds.free_space_map start n)

-- The callers drop the block number that `allocateNBlocks` returns.
unfoldable pub allocate_blocks : ℕ → ℕ → Action (Unit {0})
unfolding set_map
allocate_blocks start n ds =
    set_map ds
      (Results.◌>>=◌ (FreeSpace.allocate_n_blocks ds.free_space_map start n) λ done. ok done.0)

-- The entry that a key has, if any, as `writeBlocks` looks it up at its start.
abbrev pub Existing : Type 0
Existing = Option (ℕ × BatEntry)

-- The old blocks of a key that is overwritten are freed first.
unfoldable pub free_existing : Existing → Action (Unit {0})
free_existing none ds = (ok tt, ds)
free_existing (some (i, be)) ds =
    free_blocks be.starting_disk_block_num (get_num_disk_blocks ds be.num_bytes) ds

-- The lambda `restoreFreedBlocks`.
unfoldable pub restore_freed_blocks : Existing → Action (Unit {0})
restore_freed_blocks none ds = (ok tt, ds)
restore_freed_blocks (some (i, be)) ds =
    allocate_blocks be.starting_disk_block_num (get_num_disk_blocks ds be.num_bytes) ds

-- `restoreFreedBlocks(); throw …`
unfoldable pub restore_and_raise : Existing → Error → Action (Unit {0})
restore_and_raise entry e = do restore_freed_blocks entry; raise e

-- The outcome of the file write: what it throws comes after the restoring.
unfoldable pub restoring : Existing → Result (Unit {0}) → Action (Unit {0})
restoring entry (ok u) ds = (ok u, ds)
restoring entry (throw e) ds = restore_and_raise entry e ds
restoring entry fault ds = (fault, ds)

unfoldable pub total_bytes : List Block → ℕ → ℕ
total_bytes [] num_total_bytes = num_total_bytes
total_bytes (block ∷ blocks) num_total_bytes =
    total_bytes blocks (u32 (u32 (num_total_bytes + 4) + block.data_size))

-- The buffer that goes to disk: each block's number and data.
unfoldable pub copy_blocks : List Block → List ℕ → List ℕ
copy_blocks [] buffer = buffer
copy_blocks (block ∷ blocks) buffer =
    copy_blocks blocks (buffer ++ (u32_bytes block.block_num ++ block.bytes))

-- The table after a write: the entry is changed in place, or a new one is put at the end. A new
-- key's blocks are allocated a second time.
unfoldable pub update_bat : ℕ → List ℕ → Existing → ℕ → ℕ → ℕ → Action (Unit {0})
update_bat key_hash key (some (i, be)) start num_total_bytes n ds =
    let be' = record be { starting_disk_block_num = start; num_bytes = num_total_bytes } in
    (ok tt, record ds { bat = record (ds.bat) { table = set ds.bat.table i be' } })
update_bat key_hash key none start num_total_bytes n ds =
    (do
      allocate_blocks start n
      λ ds. (
        ok tt,
        record ds {
          bat = record {
            num_entries = u32 (ds.bat.num_entries + 1);
            table = ds.bat.table ++ (new_entry key key_hash start num_total_bytes ∷ []);
          };
        },
      ))
      ds

unfoldable pub found_section : Option ℕ → Result ℕ
found_section none = throw no_contiguous_section
found_section (some start) = ok start

module _ (sha256_32 : List ℕ → ℕ) where
  -- The second half of `writeBlocks`, from the copied buffer on.
  unfoldable pub store_buffer : List ℕ → Existing → List ℕ → ℕ → ℕ → ℕ → Io → Io → Action (Unit {0})
  store_buffer key entry buffer num_total_bytes start n data_io bat_io =
      if not (length buffer == num_total_bytes) then restore_and_raise entry bad_copy else do
        offset ← gets (λ ds. get_disk_block_offset ds start)
        written ← λ ds. let r = write_file data_io offset buffer ds in (ok r.0, r.1)
        restoring entry written
        allocate_blocks start n
        update_bat (sha256_32 key) key entry start num_total_bytes n
        write_bat bat_io

  unfoldable pub write_blocks : List ℕ → List Block → Io → Io → Action (Unit {0})
  unfolding found_section store_buffer
  write_blocks key data_blocks data_io bat_io =
      if length data_blocks == 0 then raise no_data_blocks else do
        entry ← gets (λ ds. find_bat_entry ds.bat (sha256_32 key))
        free_existing entry
        let num_total_bytes = total_bytes data_blocks 0
        n ← gets (λ ds. get_num_disk_blocks ds num_total_bytes)
        start ← λ ds. lift (found_section (FreeSpace.find_n_free_blocks ds.free_space_map n)) ds
        let buffer = copy_blocks data_blocks []
        store_buffer key entry buffer num_total_bytes start n data_io bat_io

  delete_entry : Existing → Action (Unit {0})
  delete_entry none = raise no_bat_entry
  delete_entry (some (i, be)) = do
    λ ds. free_blocks be.starting_disk_block_num (get_num_disk_blocks ds be.num_bytes) ds
    λ ds. (
      ok tt,
      record ds {
        bat = record {
          num_entries = u32 (ds.bat.num_entries + (2 ^ 32 - 1));
          table = erase_at ds.bat.table i;
        };
      },
    )

  unfoldable pub delete_blocks : List ℕ → Action (Unit {0})
  unfolding delete_entry
  delete_blocks key = do
    entry ← gets (λ ds. find_bat_entry ds.bat (sha256_32 key))
    delete_entry entry

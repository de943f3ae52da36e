-- ===== src/DiskStorage/DeleteRestart.antt =====
-- A delete and then a restart.
use rackkey.Common.{ℕ, ◌^◌, ◌≡◌, ◌<◌, refl, List, some, none, length, ◌∙◌, ==-refl}
use rackkey.Common.Results.{ok}
use rackkey.Bat.{BatEntry, find_bat_entry}
use package.rackkey.DiskStorage.{DiskStorage}
use package.rackkey.DiskStorage.Updating.{delete_blocks}
use package.rackkey.DiskStorage.Startup.{open_existing}
use package.rackkey.DiskStorage.Consistent.{IsConsistent, contents}
use package.rackkey.DiskStorage.Deleting.{delete_blocks_lem}
use package.rackkey.DiskStorage.Reopening.{IsStored, open_existing_lem}

-- On a consistent storage of fewer than 2^32 rows, whose file holds the same header and table as the
-- memory (as after a write, and not after a delete) and whose map is as large as a fresh one: deleting a key that has a row leaves nothing for the key, but
-- opening the file again brings back the contents from before the delete.
pub delete_blocks-open_existing :
    (sha256_32 : List ℕ → ℕ) (ds : DiskStorage) (key : List ℕ) (key_length_max i : ℕ)
    (be : BatEntry)
    → IsConsistent ds
    → IsStored ds
    → length ds.bat.table < 2 ^ 32
    → find_bat_entry ds.bat (sha256_32 key) ≡ some (i, be)
    → (after : DiskStorage) × (again : DiskStorage) × (delete_blocks sha256_32 key ds
        ≡ (ok tt, after))
      × (contents after (sha256_32 key) ≡ none)
      × (open_existing after.file ds.header.max_data_size key_length_max ≡ ok again)
      × ((h : ℕ) → contents again h ≡ contents ds h)
delete_blocks-open_existing sha256_32 ds key key_length_max i be c stored few at =
    let (after, run, good, change, _, file) = delete_blocks_lem sha256_32 ds key c i be few at in
    let (again, opened, _, same, _) = open_existing_lem ds c stored key_length_max in
    (
      after,
      again,
      run,
      change (sha256_32 key) ∙ rw (==-refl (sha256_32 key)) refl,
      rw file opened,
      same,
    )

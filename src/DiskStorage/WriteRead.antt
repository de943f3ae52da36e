-- ===== src/DiskStorage/WriteRead.antt =====
-- Writing a key's blocks and reading them back.
use rackkey.Common.{ℕ, ◌≡◌, refl, ◌∙◌, List, map, some, ◌==◌, ==-refl, if◌then◌else◌, length}
use rackkey.Common.Results.{ok, throw, wrong_block_count}
use rackkey.Block.{Block}
use rackkey.FreeSpace
use rackkey.StoreFile.{healthy}
use package.rackkey.DiskStorage.{DiskStorage}
use package.rackkey.DiskStorage.Reading.{read_blocks, get_block_nums, wanted}
use package.rackkey.DiskStorage.Selection.{Selects, wanted-Selects}
use package.rackkey.DiskStorage.Updating.{write_blocks}
use package.rackkey.DiskStorage.Contents.{section_bytes}
use package.rackkey.DiskStorage.Consistent.{IsConsistent, contents}
use package.rackkey.DiskStorage.Steps.{IsWritable}
use package.rackkey.DiskStorage.Writing.{freed_map, section_blocks, write_blocks_lem}
use package.rackkey.DiskStorage.Retrieval.{read_blocks_lem, get_block_nums_lem}

module _ (sha256_32 : List ℕ → ℕ) (ds : DiskStorage) (key : List ℕ) (size : ℕ) (blocks : List Block)
    (c : IsConsistent ds) (w : IsWritable ds key size blocks) (start : ℕ) where
  -- On a consistent storage whose files open and transfer, for a writable request (storable blocks
  -- of the key, a usable stream, and room for the table before the block store) for which a section
  -- is found, the write succeeds and what was written comes back: a read of the requested numbers
  -- returns exactly the written blocks whose number is one of them, in the order of the write, and
  -- throws if they are not as many as requested; the list of block numbers is that of the written
  -- blocks.
  pub read_blocks-write_blocks :
      (requested : List ℕ)
      → FreeSpace.find_n_free_blocks
          (freed_map sha256_32 ds key size blocks)
          (section_blocks sha256_32 ds key size blocks)
        ≡ some start
      → (after : DiskStorage) × (taken : List Block) × (write_blocks sha256_32 key blocks healthy
            healthy ds
          ≡ (ok tt, after))
        × Selects requested blocks taken
        × (read_blocks sha256_32 key requested size healthy after ≡ (
            if length taken == length requested
            then (ok taken, after)
            else (throw wrong_block_count, after)))
        × (get_block_nums sha256_32 key size healthy after
            ≡ (ok (map (λ (b : Block). b.block_num) blocks), after))
  read_blocks-write_blocks requested hit =
      let (after, run, good, usable, stored) =
        write_blocks_lem sha256_32 ds key size blocks c w start hit in
      let there : contents after (sha256_32 key) ≡ some (section_bytes blocks) =
        stored (sha256_32 key) ∙ rw (==-refl (sha256_32 key)) refl in
      (
        after,
        wanted requested blocks,
        run,
        wanted-Selects requested blocks,
        read_blocks_lem sha256_32 after key size blocks usable w.storable there requested,
        get_block_nums_lem sha256_32 after key size blocks usable w.storable there,
      )

-- ===== src/DiskStorage/Retrieval.antt =====
-- What the readers of a key's blocks answer, by the contents of the storage.
use rackkey.Common.{
  ℕ, ◌≡◌, refl, arith, List, map, false, Option, none, some, ◌==◌, if◌then◌else◌, length,
}
use rackkey.Common.Results.{ok, throw, wrong_block_count}
use rackkey.Block.{Block}
use rackkey.StoreFile.{healthy, read_at}
use rackkey.Bat.{BatEntry, find_bat_entry}
use package.rackkey.DiskStorage.{DiskStorage, read_file}
use package.rackkey.DiskStorage.Reading.{read_section, read_blocks, get_block_nums, wanted}
use package.rackkey.DiskStorage.Contents.{AreStorable, section_bytes, split_blocks-section_bytes}
use package.rackkey.DiskStorage.Consistent.{contents, entry_contents}

read_file-healthy :
    (offset n : ℕ) (bytes : List ℕ) (ds : DiskStorage)
    → ds.stream_stuck ≡ false
    → read_at ds.file offset n ≡ some bytes
    → read_file healthy offset n ds ≡ (ok bytes, ds)
unfolding read_file
read_file-healthy offset n bytes ds usable there = simp (usable, there)

module _ (sha256_32 : List ℕ → ℕ) (ds : DiskStorage) (key : List ℕ) where
  read_section_at :
      (bytes : List ℕ) (entry : Option (ℕ × BatEntry))
      → ds.stream_stuck ≡ false
      → find_bat_entry ds.bat (sha256_32 key) ≡ entry
      → entry_contents ds entry ≡ some bytes
      → read_section sha256_32 key healthy ds ≡ (ok bytes, ds)
  unfolding read_section
  read_section_at bytes none usable at there = absurd cc
  read_section_at bytes (some (i, be)) usable at there =
      rw at (read_file-healthy _ be.num_bytes bytes ds usable there)

  pub read_section-contents :
      (bytes : List ℕ)
      → ds.stream_stuck ≡ false
      → contents ds (sha256_32 key) ≡ some bytes
      → read_section sha256_32 key healthy ds ≡ (ok bytes, ds)
  unfolding contents
  read_section-contents bytes usable there =
      read_section_at bytes (find_bat_entry ds.bat (sha256_32 key)) usable refl there

  module _ (size : ℕ) (blocks : List Block) (usable : ds.stream_stuck ≡ false)
      (storable : AreStorable key size blocks)
      (there : contents ds (sha256_32 key) ≡ some (section_bytes blocks)) where
    -- Where the storage holds a key's blocks, `readBlocks` returns those that were asked for, in the
    -- order of the write, and throws if it does not find as many as were asked for.
    pub read_blocks_lem :
        (requested : List ℕ)
        → read_blocks sha256_32 key requested size healthy ds ≡ (
            if length (wanted requested blocks) == length requested
            then (ok (wanted requested blocks), ds)
            else (throw wrong_block_count, ds))
    unfolding read_blocks
    read_blocks_lem requested = rw (read_section-contents (section_bytes blocks) usable there) (
        rw
          (split_blocks-section_bytes (length (section_bytes blocks)) key size blocks storable
            (omega arith))
          (ground arith))

    -- Where the storage holds a key's blocks, `getBlockNums` returns the blocks' numbers in the
    -- order of the write.
    pub get_block_nums_lem :
        get_block_nums sha256_32 key size healthy ds
        ≡ (ok (map (λ (b : Block). b.block_num) blocks), ds)
    unfolding get_block_nums
    get_block_nums_lem = rw (read_section-contents (section_bytes blocks) usable there) (
        rw
          (split_blocks-section_bytes (length (section_bytes blocks)) key size blocks storable
            (omega arith))
          refl)

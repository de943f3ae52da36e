-- ===== src/DiskStorage/Reading.antt =====
-- src/storage/disk_storage.cpp: readBlocks, getBlockNums, getKeys, readRawDiskBlocks.
use rackkey.Common.{
  ℕ, zero, suc, ◌*◌, min, List, [], ◌∷◌, map, Bool, false, ◌||◌, ◌&&◌, not, Option, none, some,
  ◌==◌, if◌then◌else◌, u32, length, take, drop, replicate,
}
use rackkey.Common.Results
use rackkey.Common.Results.{
  Result, ok, throw, fault, no_bat_entry, bad_read, open_failed, wrong_block_count,
}
use rackkey.Common.Exec.{raise, lift, gets, pure, ◌>>=◌}
use rackkey.Utils.{fixed_size}
use rackkey.ByteBuffer.{read_u32}
use rackkey.Block.{Block}
use rackkey.StoreFile.{Io, read_at}
use rackkey.Bat.{BatEntry, c_string, find_bat_entry}
use package.rackkey.DiskStorage.{DiskStorage, Action, get_disk_block_offset, read_file}

-- What a round of the loop over the buffer takes: a number, then up to `data_block_size` bytes.
cut : ℕ → ℕ × List ℕ → Result (ℕ × List ℕ × List ℕ)
cut data_block_size (block_num, iter) =
    let data_size = min data_block_size (length iter) in
    ok (block_num, take data_size iter, drop data_size iter)

unfoldable pub read_numbered : ℕ → List ℕ → Result (ℕ × List ℕ × List ℕ)
unfolding cut
read_numbered data_block_size iter = Results.◌>>=◌ (read_u32 iter) (cut data_block_size)

-- The loop: every block in the buffer. A round takes four bytes at least.
unfoldable pub split_blocks : ℕ → List ℕ → ℕ → List ℕ → Result (List Block)
split_blocks fuel key data_block_size [] = ok []
split_blocks zero key data_block_size (b ∷ iter) = fault
split_blocks (suc fuel) key data_block_size (b ∷ iter) =
    Results.◌>>=◌ (read_numbered data_block_size (b ∷ iter)) λ taken.
      Results.◌>>=◌ (split_blocks fuel key data_block_size taken.2) λ blocks. ok (
        record { key = key; block_num = taken.0; data_size = length taken.1; bytes = taken.1 }
        ∷ blocks)

-- `requestedBlockNums.find(blockNum) != requestedBlockNums.end()`
unfoldable pub is_requested : List ℕ → ℕ → Bool
is_requested [] block_num = false
is_requested (n ∷ nums) block_num = n == block_num || is_requested nums block_num

-- The blocks that were asked for. The source tests each block in the loop that makes it.
unfoldable pub wanted : List ℕ → List Block → List Block
unfolding is_requested
wanted requested [] = []
wanted requested (block ∷ blocks) =
    let rest = wanted requested blocks in
    if is_requested requested block.block_num then block ∷ rest else rest

found_entry : Option (ℕ × BatEntry) → Result BatEntry
found_entry none = throw no_bat_entry
found_entry (some (i, be)) = ok be

module _ (sha256_32 : List ℕ → ℕ) where
  -- The bytes of a key's section, as both readers fetch them. The read fills the buffer that was
  -- resized to `numBytes`, so the test of its size afterwards cannot fail.
  unfoldable pub read_section : List ℕ → Io → Action (List ℕ)
  unfolding found_entry
  read_section key io = do
    be ← λ ds. lift (found_entry (find_bat_entry ds.bat (sha256_32 key))) ds
    offset ← gets (λ ds. get_disk_block_offset ds be.starting_disk_block_num)
    read_file io offset be.num_bytes

  -- `requested` is an unordered set: a list without repetitions.
  unfoldable pub read_blocks : List ℕ → List ℕ → ℕ → Io → Action (List Block)
  unfolding read_section split_blocks wanted
  read_blocks key requested data_block_size io = do
    read_buffer ← read_section key io
    all ← lift (split_blocks (length read_buffer) key data_block_size read_buffer)
    let blocks = wanted requested all
    if length blocks == length requested then pure blocks else raise wrong_block_count

  unfoldable pub get_block_nums : List ℕ → ℕ → Io → Action (List ℕ)
  unfolding read_section split_blocks
  get_block_nums key data_block_size io = do
    read_buffer ← read_section key io
    all ← lift (split_blocks (length read_buffer) key data_block_size read_buffer)
    pure (map (λ (b : Block). b.block_num) all)

-- The keys as the table holds them, padded to the fixed size.
unfoldable pub get_keys : DiskStorage → List (List ℕ)
get_keys ds = map (λ (be : BatEntry). fixed_size (c_string be.key) ds.key_length_max) ds.bat.table

-- A debugging aid: a transfer that fails is not noticed, and the buffer is then all zeros here.
unfoldable pub read_raw_disk_blocks : ℕ → ℕ → Io → Action (List ℕ)
read_raw_disk_blocks starting_disk_block_num n io ds =
    let num_bytes = u32 (n * ds.header.disk_block_size) in
    let offset = get_disk_block_offset ds starting_disk_block_num in
    if ds.stream_stuck || io.opens
    then (
      ok
          (elim (if not ds.stream_stuck && io.transfers
            then read_at ds.file offset num_bytes
            else none) [ some bytes ↦ bytes | none ↦ replicate num_bytes 0 ]),
      record ds { stream_stuck = false },
    )
    else (throw open_failed, ds)

-- ===== src/StorageServer/Requests.antt =====
-- A put and the gets that follow it, as the master sees them.
use rackkey.Common.{ℕ, ◌≡◌, refl, ◌∙◌, List, [], All, IsU32, sym, some, ==-refl, length}
use rackkey.Common.Results.{ok}
use rackkey.Block.{Block, serialize_all, deserialize}
use rackkey.Block.RoundTrip.{IsValid, deserialize-serialize_all}
use rackkey.FreeSpace
use rackkey.StoreFile.{healthy}
use rackkey.DiskStorage.{DiskStorage}
use rackkey.DiskStorage.Reading.{wanted}
use rackkey.DiskStorage.Selection.{Selects, Selects-All, Selects-unique}
use rackkey.DiskStorage.Contents.{section_bytes}
use rackkey.DiskStorage.Consistent.{IsConsistent, contents}
use rackkey.DiskStorage.Steps.{IsWritable}
use rackkey.DiskStorage.Writing.{freed_map, section_blocks, write_blocks_lem}
use rackkey.DiskStorage.Retrieval.{read_blocks_lem}
use rackkey.Payloads.{put_nums}
use package.rackkey.StorageServer.Asked.{AreDistinct, requested_nums-put_nums, wanted-same}
use package.rackkey.StorageServer.{
  Config, size_reply, status_ok, answered, reply, get_handler, put_handler, caught,
}

module _ (sha256_32 : List ℕ → ℕ) (config : Config) (ds : DiskStorage) (key : List ℕ)
    (blocks : List Block) (valid : All IsValid blocks) (c : IsConsistent ds)
    (w : IsWritable ds key config.data_block_size blocks) (start : ℕ)
    (hit : FreeSpace.find_n_free_blocks
        (freed_map sha256_32 ds key config.data_block_size blocks)
        (section_blocks sha256_32 ds key config.data_block_size blocks)
      ≡ some start) where
  -- On a consistent storage whose files open and transfer, a put of serialized valid and writable
  -- blocks (storable blocks of the key, a usable stream, and room for the table before the block
  -- store) for which a section is found is answered with the sizes and leaves a consistent storage;
  -- a get whose payload has distinct 32-bit numbers, all of written blocks (the written blocks with
  -- one of the numbers are as many as the numbers), is then answered with a body that deserializes to
  -- exactly the written blocks whose number is requested, in the order of the write, and changes
  -- nothing.
  pub get_handler-put_handler :
      (requested : List ℕ)
      → All IsU32 requested
      → AreDistinct requested
      → (taken : List Block) → Selects requested blocks taken
      → length taken ≡ length requested
      → (after : DiskStorage) × (body : List ℕ) × (put_handler sha256_32 config key
            (serialize_all blocks [])
            healthy
            healthy
            ds
          ≡ (ok (answered (size_reply after)), after))
        × (get_handler sha256_32 config key (put_nums requested []) healthy after
            ≡ (ok (answered (record { status = status_ok; body = body })), after))
        × (deserialize body ≡ ok taken)
        × IsConsistent after
  unfolding get_handler put_handler caught reply
  get_handler-put_handler requested fit distinct taken selects all =
      let (after, run, good, usable, stored) =
        write_blocks_lem sha256_32 ds key config.data_block_size blocks c w start hit in
      let there : contents after (sha256_32 key) ≡ some (section_bytes blocks) =
        stored (sha256_32 key) ∙ rw (==-refl (sha256_32 key)) refl in
      let (asked, run_nums, count, members) = requested_nums-put_nums requested fit distinct in
      let same : taken ≡ wanted asked blocks =
        Selects-unique requested blocks taken selects
        ∙ sym (wanted-same asked requested blocks members) in
      let enough : length taken ≡ length asked = all ∙ sym count in
      let read =
        read_blocks_lem sha256_32 after key config.data_block_size blocks usable w.storable there
          asked in
      (
        after,
        serialize_all taken [],
        rw (deserialize-serialize_all blocks valid) (rw run refl),
        rw run_nums (rw (read, ← same) (rw enough (rw (==-refl (length asked)) refl))),
        deserialize-serialize_all taken (Selects-All IsValid requested blocks taken selects valid),
        good,
      )

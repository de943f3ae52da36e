-- ===== src/DiskStorage/Steps.antt =====
-- What a write request must satisfy, and the second half of `writeBlocks` from its steps.
use rackkey.Common.{
  ℕ, ◌+◌, ◌^◌, ◌≤◌, ◌<◌, ◌≡◌, refl, arith, List, [], ◌∷◌, ◌++◌, false, length, ==-refl,
}
use rackkey.Common.Results.{ok}
use rackkey.Utils.{ceil_div}
use rackkey.Utils.Laws.{ceil_div_bounds}
use rackkey.ByteBuffer.{u32_bytes}
use rackkey.Block.{Block}
use rackkey.StoreFile.{healthy, write_at}
use rackkey.Bat.{size_of_header, size_of_entry}
use package.rackkey.DiskStorage.{
  DiskStorage, get_disk_block_offset, write_file, write_bat, table_bytes,
}
use package.rackkey.DiskStorage.Updating.{
  Existing, restoring, allocate_blocks, update_bat, store_buffer,
}
use package.rackkey.DiskStorage.Contents.{AreStorable, section_bytes}

-- What a request and the storage must satisfy: the stream is usable, there are blocks, of the
-- key, all full but the last, their section is small enough to be counted, and the table area has
-- room for one row more.
pub record IsWritable (ds : DiskStorage) (key : List ℕ) (size : ℕ) (blocks : List Block)
    : Type 0 where
  pub usable : ds.stream_stuck ≡ false
  pub some_block : 0 < length blocks
  pub storable : AreStorable key size blocks
  pub countable : length (section_bytes blocks) + ds.header.disk_block_size ≤ 2 ^ 32
  pub table_room :
      size_of_header + 4 + length (table_bytes ds.bat.table) + size_of_entry
      ≤ ds.header.block_store_offset

pub section_pos : (blocks : List Block) → 0 < length blocks → 0 < length (section_bytes blocks)
unfolding u32_bytes
section_pos [] h = absurd (omega arith)
section_pos (block ∷ blocks) h = omega arith

pub ceil-lt : (n d : ℕ) → 0 < d → n + d ≤ 2 ^ 32 → ceil_div n d < 2 ^ 32
ceil-lt n d pos small = grind (arith, (ceil_div_bounds n d pos small).1)

write_file-healthy :
    (ds : DiskStorage) (offset : ℕ) (bytes : List ℕ)
    → ds.stream_stuck ≡ false
    → write_file healthy offset bytes ds
      ≡ (ok tt, record ds { file = write_at ds.file offset bytes })
unfolding write_file
write_file-healthy ds offset bytes usable = rw usable refl

pub write_bat-healthy :
    (ds : DiskStorage)
    → ds.stream_stuck ≡ false
    → write_bat healthy ds ≡ (
      ok tt,
      record ds {
        file =
            write_at ds.file size_of_header
              (u32_bytes ds.bat.num_entries ++ table_bytes ds.bat.table);
        stream_stuck = false;
      },
    )
unfolding write_bat
write_bat-healthy ds usable = rw usable refl

-- The second half of `writeBlocks`, where each of its steps succeeds.
pub store_buffer_run :
    (sha256_32 : List ℕ → ℕ) (key : List ℕ) (entry : Existing) (buffer : List ℕ)
    (start n offset : ℕ) (ds allocated updated : DiskStorage)
    → ds.stream_stuck ≡ false
    → get_disk_block_offset ds start ≡ offset
    → allocate_blocks start n (record ds { file = write_at ds.file offset buffer })
      ≡ (ok tt, allocated)
    → update_bat (sha256_32 key) key entry start (length buffer) n allocated ≡ (ok tt, updated)
    → updated.stream_stuck ≡ false
    → store_buffer sha256_32 key entry buffer (length buffer) start n healthy healthy ds ≡ (
      ok tt,
      record updated {
        file =
            write_at updated.file size_of_header
              (u32_bytes updated.bat.num_entries ++ table_bytes updated.bat.table);
        stream_stuck = false;
      },
    )
unfolding store_buffer restoring
store_buffer_run sha256_32 key entry buffer start n offset ds allocated updated usable at alloc
      update usable' =
    rw (==-refl (length buffer), at)
      (rw (write_file-healthy ds offset buffer usable)
        (rw alloc (rw update (write_bat-healthy updated usable'))))

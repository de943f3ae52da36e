-- ===== src/DiskStorage/Writing.antt =====
-- A whole `writeBlocks` on a consistent storage: the success path is a placed section.
use rackkey.Common.{
  ℕ, ◌+◌, ◌^◌, ◌≤◌, ◌<◌, ◌≡◌, ◌≢◌, refl, sym, ap, subst, ◌∙◌, arith, List, ◌++◌, false, Option,
  none, some, ◌==◌, if◌then◌else◌, length, get_elem?, length-append,
}
use rackkey.Common.Results.{Result, ok, throw, no_contiguous_section}
use rackkey.Utils.{ceil_div}
use rackkey.ByteBuffer.{u32_bytes, length-u32_bytes}
use rackkey.Block.{Block}
use rackkey.FreeSpace
use rackkey.FreeSpace.{FreeSpaceMap}
use rackkey.FreeSpace.Ranges.{used}
use rackkey.FreeSpace.Search.{FirstFree}
use rackkey.FreeSpace.Laws.{find_n_free_blocks_first}
use rackkey.StoreFile.{Io, healthy, write_at}
use rackkey.Bat.{BatEntry, Bat, find_bat_entry}
use rackkey.Bat.Laws.{find_bat_entry-FoundAt}
use package.rackkey.DiskStorage.{
  DiskStorage, get_disk_block_offset, get_num_disk_blocks, table_bytes,
}
use package.rackkey.DiskStorage.Updating.{
  Existing, free_existing, allocate_blocks, update_bat, found_section, store_buffer, write_blocks,
  total_bytes,
}
use package.rackkey.DiskStorage.Steps.{IsWritable, section_pos, ceil-lt, store_buffer_run}
use package.rackkey.DiskStorage.Contents.{section_bytes, copy_blocks_lem, total_bytes_lem}
use package.rackkey.DiskStorage.Consistent.{
  IsConsistent, end_block, place, contents, offset-place, blocks_pos, free_used_apart,
}
use package.rackkey.DiskStorage.Placement.{Places, placed, placed-IsConsistent, contents-placed}
use package.rackkey.DiskStorage.Rows.{
  slot, new_row, new_bat, LookedUp, new_bat_row, new_bat_counted, new_row_hash, new_row_start,
  other_rows, slot_row, row_found, new_bat_bytes, rows-le-bytes,
}
use package.rackkey.DiskStorage.Marks.{
  with_map, with_bat, Freed, free_existing_lem, Marked, allocate-update_bat,
}

module _ (sha256_32 : List ℕ → ℕ) (ds : DiskStorage) (key : List ℕ) (size : ℕ)
    (blocks : List Block) where
  abbrev entry : Existing
  entry = find_bat_entry ds.bat (sha256_32 key)

  -- The map that `writeBlocks` searches: the storage's, without the key's old blocks.
  abbrev pub freed_map : FreeSpaceMap
  freed_map = (free_existing entry ds).1.free_space_map

  abbrev pub section_blocks : ℕ
  section_blocks = get_num_disk_blocks ds (length (section_bytes blocks))

  module _ (c : IsConsistent ds) (w : IsWritable ds key size blocks) where
    abbrev n_bytes : ℕ
    n_bytes = length (section_bytes blocks)

    found : LookedUp ds.bat (sha256_32 key) entry
    found = find_bat_entry-FoundAt ds.bat (sha256_32 key)

    n_pos : 0 < n_bytes
    n_pos = section_pos blocks w.some_block

    blocks_n_pos : 0 < section_blocks
    unfolding get_num_disk_blocks
    blocks_n_pos = blocks_pos n_bytes ds.header.disk_block_size c.block_size n_pos w.countable

    n_narrow : section_blocks < 2 ^ 32
    unfolding get_num_disk_blocks
    n_narrow = ceil-lt n_bytes ds.header.disk_block_size c.block_size w.countable

    total : total_bytes blocks 0 ≡ n_bytes
    total = total_bytes_lem key size blocks w.storable (omega (arith, w.countable, c.block_size))

    few_rows : length ds.bat.table + 1 < 2 ^ 32
    few_rows = omega (arith, rows-le-bytes ds.bat.table, w.table_room, c.addresses)

    -- The storage when the section's bytes are written and before the table is.
    abbrev data_written : ℕ → FreeSpaceMap → DiskStorage
    data_written start m = record (with_map ds m) {
      file = write_at ds.file (place ds start) (section_bytes blocks);
    }

    module _ (start : ℕ) (m : FreeSpaceMap) (freed : Freed ds (slot ds.bat entry) m)
        (hit : FirstFree m.bit_map section_blocks (some start)) (m' : FreeSpaceMap)
        (marked : Marked m start section_blocks m') where
      abbrev new : BatEntry
      new = new_row (sha256_32 key) key entry start n_bytes

      abbrev bat' : Bat
      bat' = new_bat ds.bat entry new

      abbrev dir : List ℕ
      dir = u32_bytes bat'.num_entries ++ table_bytes bat'.table

      at_start : new.starting_disk_block_num ≡ start
      at_start = (new_row_start (sha256_32 key) key entry start n_bytes).0

      of_size : new.num_bytes ≡ n_bytes
      of_size = (new_row_start (sha256_32 key) key entry start n_bytes).1

      hash : new.key_hash ≡ sha256_32 key
      hash = new_row_hash ds.bat (sha256_32 key) key entry start n_bytes found

      ends : end_block ds new ≡ start + section_blocks
      unfolding get_num_disk_blocks
      ends = rw (at_start, of_size) refl

      wrote : Places ds bat' m' (slot ds.bat entry) new (section_bytes blocks) dir
      wrote = record {
        map_size = marked.size ∙ freed.size;
        row = λ j. new_bat_row ds.bat (sha256_32 key) entry new j found;
        counted = new_bat_counted ds.bat entry new c.counted few_rows;
        not_empty = omega (arith, n_pos, of_size);
        countable = omega (arith, w.countable, of_size);
        inside = omega (arith, ends, hit.before, freed.size);
        new_marked = λ k l g. marked.new k (omega (arith, at_start)) (omega (arith, ends));
        other_hash = λ j e other at.
            rw hash (other_rows ds.bat (sha256_32 key) entry j e found c.distinct other at);
        same_hash = λ e at. slot_row ds.bat (sha256_32 key) entry e found at ∙ sym hash;
        old_marked = λ j e k other at l g. marked.old k (freed.kept j e k other at l g);
        apart = λ j e other at.
            let old = c.held j e at in
            rw (ends, at_start)
              (free_used_apart (used m.bit_map) start section_blocks e.starting_disk_block_num
                (ceil_div e.num_bytes ds.header.disk_block_size) blocks_n_pos
                (blocks_pos e.num_bytes ds.header.disk_block_size c.block_size old.not_empty
                  old.countable)
                hit.free (λ k. freed.kept j e k other at));
        sized = sym of_size;
        dir_room = omega (
          arith,
          w.table_room,
          length-append (u32_bytes bat'.num_entries) (table_bytes bat'.table),
          length-u32_bytes bat'.num_entries,
          new_bat_bytes ds.bat (sha256_32 key) key entry start n_bytes found,
        );
      }

      abbrev written : DiskStorage
      written = placed ds bat' m' (slot ds.bat entry) new (section_bytes blocks) dir

      stored :
          (mid : FreeSpaceMap)
          → allocate_blocks start section_blocks (data_written start m)
            ≡ (ok tt, with_map (data_written start m) mid)
          → update_bat
              (sha256_32 key)
              key
              entry
              start
              n_bytes
              section_blocks
              (with_map (data_written start m) mid)
            ≡ (ok tt, with_bat (data_written start m) m' bat')
          → store_buffer sha256_32 key entry
              (section_bytes blocks)
              n_bytes
              start
              section_blocks
              healthy
              healthy
              (with_map ds m)
            ≡ (ok tt, written)
      unfolding get_disk_block_offset
      stored mid alloc update =
          let offset =
            offset-place ds start c (omega (arith, hit.before, blocks_n_pos, freed.size)) in
          store_buffer_run sha256_32 key entry (section_bytes blocks) start section_blocks
            (place ds start) (with_map ds m) (with_map (data_written start m) mid)
            (with_bat (data_written start m) m' bat') w.usable offset alloc update w.usable
          ∙ rw at_start refl

      written-contents :
          (h : ℕ)
          → contents written h
            ≡ (if sha256_32 key == h then some (section_bytes blocks) else contents ds h)
      written-contents h =
          contents-placed ds bat' m' (slot ds.bat entry) new (section_bytes blocks) dir c wrote h
          ∙ ap (λ (k : ℕ). if k == h then some (section_bytes blocks) else contents ds h) hash

    -- `writeBlocks` up to the copied buffer, where a section was found.
    first_half :
        (start : ℕ) (m : FreeSpaceMap) (data_io bat_io : Io)
        → free_existing entry ds ≡ (ok tt, with_map ds m)
        → FreeSpace.find_n_free_blocks m section_blocks ≡ some start
        → write_blocks sha256_32 key blocks data_io bat_io ds
          ≡ store_buffer sha256_32 key entry
              (section_bytes blocks)
              n_bytes
              start
              section_blocks
              data_io
              bat_io
              (with_map ds m)
    unfolding write_blocks found_section get_num_disk_blocks
    first_half start m data_io bat_io freed hit =
        let full : (length blocks == 0) ≡ false = ground (arith, w.some_block) in
        rw full (rw freed (rw total (rw hit (rw (copy_blocks_lem blocks) refl))))

    first_half_full :
        (m : FreeSpaceMap) (data_io bat_io : Io)
        → free_existing entry ds ≡ (ok tt, with_map ds m)
        → FreeSpace.find_n_free_blocks m section_blocks ≡ none
        → write_blocks sha256_32 key blocks data_io bat_io ds
          ≡ (throw no_contiguous_section, with_map ds m)
    unfolding write_blocks found_section get_num_disk_blocks
    first_half_full m data_io bat_io freed miss =
        let full : (length blocks == 0) ≡ false = ground (arith, w.some_block) in
        rw full (rw freed (rw total (rw miss refl)))

    found_in :
        {o : Option ℕ} (m : FreeSpaceMap)
        → free_existing entry ds ≡ (ok tt, with_map ds m)
        → FreeSpace.find_n_free_blocks freed_map section_blocks ≡ o
        → FreeSpace.find_n_free_blocks m section_blocks ≡ o
    found_in m freeing hit =
        ap
          (λ (r : Result (Unit {0}) × DiskStorage).
            FreeSpace.find_n_free_blocks r.1.free_space_map section_blocks)
          (sym freeing)
        ∙ hit

    first_free :
        (start : ℕ) (m : FreeSpaceMap)
        → Freed ds (slot ds.bat entry) m
        → FreeSpace.find_n_free_blocks m section_blocks ≡ some start
        → FirstFree m.bit_map section_blocks (some start)
    first_free start m freed hit = subst (FirstFree m.bit_map section_blocks) hit (
        find_n_free_blocks_first m section_blocks (omega (arith, freed.size, c.small)) blocks_n_pos
          n_narrow)

    -- On a consistent storage whose files open and transfer, for a writable request (storable blocks
    -- of the key, a usable stream, and room for the table before the block store), where a section is
    -- found after freeing the key's old blocks: the write succeeds; the storage stays consistent and usable; and its contents
    -- change at the key's hash only, to the section of the new blocks.
    pub write_blocks_lem :
        (start : ℕ)
        → FreeSpace.find_n_free_blocks freed_map section_blocks ≡ some start
        → (after : DiskStorage) × (write_blocks sha256_32 key blocks healthy healthy ds
            ≡ (ok tt, after))
          × IsConsistent after
          × (after.stream_stuck ≡ false)
          × ((h : ℕ)
              → contents after h
                ≡ (if sha256_32 key == h then some (section_bytes blocks) else contents ds h))
    write_blocks_lem start hit =
        let (m, freeing, freed) = free_existing_lem ds (sha256_32 key) entry c found in
        let hit' : FreeSpace.find_n_free_blocks m section_blocks ≡ some start =
          found_in m freeing hit in
        let first = first_free start m freed hit' in
        let (mid, m', alloc, update, marked) =
          allocate-update_bat (data_written start m) (sha256_32 key) key entry start n_bytes
            section_blocks (omega (arith, freed.size, c.small)) blocks_n_pos first.before in
        (
          written start m freed first m' marked,
          first_half start m healthy healthy freeing hit'
              ∙ stored start m freed first m' marked mid alloc update,
          placed-IsConsistent ds _ m' (slot ds.bat entry) _ (section_bytes blocks) _ c
              (wrote start m freed first m' marked),
          refl,
          written-contents start m freed first m' marked,
        )

    -- On a consistent storage, for a writable request of a key that has a row, where no section is
    -- found after freeing its old blocks: the write throws, only the map is another, and in it the
    -- blocks of the row are free and those of every other row used.
    pub overwrite_freed :
        (data_io bat_io : Io) (i : ℕ) (be : BatEntry)
        → entry ≡ some (i, be)
        → FreeSpace.find_n_free_blocks freed_map section_blocks ≡ none
        → (m : FreeSpaceMap) × (write_blocks sha256_32 key blocks data_io bat_io ds
            ≡ (throw no_contiguous_section, with_map ds m))
          × ((k : ℕ) → be.starting_disk_block_num ≤ k → k < end_block ds be → used m.bit_map k ≡ 0)
          × ((j : ℕ) (e : BatEntry) (k : ℕ)
              → j ≢ i
              → get_elem? ds.bat.table j ≡ some e
              → e.starting_disk_block_num ≤ k
              → k < end_block ds e
              → used m.bit_map k ≡ 1)
    overwrite_freed data_io bat_io i be at miss =
        let (m, freeing, freed) = free_existing_lem ds (sha256_32 key) entry c found in
        let (here, hash) = row_found ds.bat (sha256_32 key) i be (rw at at found) in
        let slot_is : slot ds.bat entry ≡ i = rw at refl in
        let slot_here : get_elem? ds.bat.table (slot ds.bat entry) ≡ some be = rw at here in
        (
          m,
          first_half_full m data_io bat_io freeing (found_in m freeing miss),
          λ k. freed.gone be k slot_here,
          λ j e k other. freed.kept j e k (λ same. other (same ∙ slot_is)),
        )

    -- On a consistent storage, for a writable request of a key that has a row, where no section is
    -- found after freeing its old blocks: the write leaves an inconsistent storage.
    pub overwrite_unrestored :
        (data_io bat_io : Io) (i : ℕ) (be : BatEntry)
        → entry ≡ some (i, be)
        → FreeSpace.find_n_free_blocks freed_map section_blocks ≡ none
        → ¬ IsConsistent (write_blocks sha256_32 key blocks data_io bat_io ds).1
    overwrite_unrestored data_io bat_io i be at miss bad =
        let (m, freeing, freed) = free_existing_lem ds (sha256_32 key) entry c found in
        let run = first_half_full m data_io bat_io freeing (found_in m freeing miss) in
        let bad' : IsConsistent (with_map ds m) =
          subst IsConsistent (ap (λ (r : Result (Unit {0}) × DiskStorage). r.1) run) bad in
        let (here, hash) = row_found ds.bat (sha256_32 key) i be (rw at at found) in
        let held = bad'.held i be here in
        let pos =
          blocks_pos be.num_bytes ds.header.disk_block_size c.block_size held.not_empty
            held.countable in
        let first = be.starting_disk_block_num in
        let slot_here : get_elem? ds.bat.table (slot ds.bat entry) ≡ some be = rw at here in
        absurd (
          omega (
            arith,
            held.marked first (omega arith) (omega (arith, pos)),
            freed.gone be first slot_here (omega arith) (omega (arith, pos)),
          ))

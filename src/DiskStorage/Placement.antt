-- ===== src/DiskStorage/Placement.antt =====
-- One section placed in the store: what a successful `writeBlocks` amounts to, told apart from how
-- the code gets there. It keeps the storage consistent, and it is an update of the abstract map.
use native.Mathlib.Decide.{ℕ_discrete}
use rackkey.Common.{
  ℕ, ◌+◌, ◌^◌, ◌≤◌, ◌<◌, ◌≡◌, ◌≢◌, sym, ap, ◌∙◌, arith, List, ◌⊎◌, inl, inr, false, Option, none,
  some, ◌==◌, ==_iff, ==-refl, if◌then◌else◌, length, get_elem?,
}
use rackkey.FreeSpace.{FreeSpaceMap}
use rackkey.FreeSpace.Ranges.{used}
use rackkey.FreeSpace.Laws.{num_blocks}
use rackkey.StoreFile.{StoreFile, read_at, write_at}
use rackkey.StoreFile.Laws.{read_at-write_at, read_at-write_at_ne}
use rackkey.Bat.{BatEntry, Bat, find_bat_entry, size_of_header}
use rackkey.Bat.Laws.{DistinctHashes, FoundAt, find_bat_entry-FoundAt}
use package.rackkey.DiskStorage.{DiskStorage}
use package.rackkey.DiskStorage.Consistent.{
  IsConsistent, IsHeld, end_block, place, contents, bytes-le-blocks, mul_mono, contents_row,
  contents-none,
}

-- Row `p` of the table is now `new`, whose section was free; the other rows, with other hashes,
-- still have their blocks; the section's bytes and then the table were written.
pub record Places (ds : DiskStorage) (bat : Bat) (m : FreeSpaceMap) (p : ℕ) (new : BatEntry)
    (bytes dir : List ℕ) : Type 0 where
  pub map_size : num_blocks m ≡ num_blocks ds.free_space_map
  pub row :
      (j : ℕ) → get_elem? bat.table j ≡ (if j == p then some new else get_elem? ds.bat.table j)
  pub counted : bat.num_entries ≡ length bat.table
  pub not_empty : 0 < new.num_bytes
  pub countable : new.num_bytes + ds.header.disk_block_size ≤ 2 ^ 32
  pub inside : end_block ds new ≤ num_blocks ds.free_space_map
  pub new_marked :
      (k : ℕ) → new.starting_disk_block_num ≤ k → k < end_block ds new → used m.bit_map k ≡ 1
  pub other_hash :
      (j : ℕ) (e : BatEntry) → j ≢ p → get_elem? ds.bat.table j ≡ some e → e.key_hash ≢ new.key_hash
  pub same_hash : (e : BatEntry) → get_elem? ds.bat.table p ≡ some e → e.key_hash ≡ new.key_hash
  pub old_marked :
      (j : ℕ) (e : BatEntry) (k : ℕ)
      → j ≢ p
      → get_elem? ds.bat.table j ≡ some e
      → e.starting_disk_block_num ≤ k
      → k < end_block ds e
      → used m.bit_map k ≡ 1
  pub apart :
      (j : ℕ) (e : BatEntry)
      → j ≢ p
      → get_elem? ds.bat.table j ≡ some e
      → (end_block ds new ≤ e.starting_disk_block_num)
        ⊎ (end_block ds e ≤ new.starting_disk_block_num)
  pub sized : length bytes ≡ new.num_bytes
  pub dir_room : size_of_header + length dir ≤ ds.header.block_store_offset

module _ (ds : DiskStorage) (bat : Bat) (m : FreeSpaceMap) (p : ℕ) (new : BatEntry)
    (bytes dir : List ℕ) where
  abbrev middle : StoreFile
  middle = write_at ds.file (place ds new.starting_disk_block_num) bytes

  abbrev pub placed : DiskStorage
  placed = record ds {
    bat = bat;
    free_space_map = m;
    file = write_at middle size_of_header dir;
    stream_stuck = false;
  }

  module _ (c : IsConsistent ds) (w : Places ds bat m p new bytes dir) where
    -- The two kinds of row in the new table.
    row_cases :
        {ρ : Type 0} (j : ℕ) (e : BatEntry)
        → get_elem? bat.table j ≡ some e
        → (j ≡ p → new ≡ e → ρ)
        → (j ≢ p → get_elem? ds.bat.table j ≡ some e → ρ)
        → ρ
    row_cases j e h is_new is_old = elim (ℕ_discrete j p) [
      | yes at ↦ is_new at (ground (arith, w.row j))
      | no other ↦ is_old other (ground (arith, w.row j))
    ]

    size_grows : (f : StoreFile) (at : ℕ) (bs : List ℕ) → f.size ≤ (write_at f at bs).size
    unfolding write_at
    size_grows f at bs = ground arith

    end_written : place ds new.starting_disk_block_num + new.num_bytes ≤ middle.size
    unfolding write_at
    end_written = ground (arith, w.sized, w.not_empty)

    placed-IsHeld : (j : ℕ) (e : BatEntry) → get_elem? bat.table j ≡ some e → IsHeld placed e
    placed-IsHeld j e h =
        row_cases j e h
          (λ at same. rw (← same) (record {
            not_empty = w.not_empty;
            countable = w.countable;
            inside = omega (arith, w.inside, w.map_size);
            marked = w.new_marked;
            in_file = omega (arith, end_written, size_grows middle size_of_header dir);
          }))
          (λ other at.
            let old = c.held j e at in
            record {
              not_empty = old.not_empty;
              countable = old.countable;
              inside = omega (arith, old.inside, w.map_size);
              marked = λ k. w.old_marked j e k other at;
              in_file = omega (
                arith,
                old.in_file,
                size_grows ds.file (place ds new.starting_disk_block_num) bytes,
                size_grows middle size_of_header dir,
              );
            })

    placed-distinct : DistinctHashes bat.table
    placed-distinct i j e e' h h' same =
        row_cases i e h
          (λ at is_e.
            row_cases j e' h' (λ at' _. at ∙ sym at')
              (λ other g. absurd (
                w.other_hash j e' other g
                  (sym same ∙ sym (ap (λ (x : BatEntry). x.key_hash) is_e)))))
          (λ other g.
            row_cases j e' h'
              (λ _ is_e'.
                absurd
                  (w.other_hash i e other g (same ∙ sym (ap (λ (x : BatEntry). x.key_hash) is_e'))))
              (λ other' g'. c.distinct i j e e' g g' same))

    abbrev Apart : BatEntry → BatEntry → Type 0
    Apart e e' =
        (end_block ds e ≤ e'.starting_disk_block_num)
        ⊎ (end_block ds e' ≤ e.starting_disk_block_num)

    Apart-symm : (e e' : BatEntry) → Apart e e' → Apart e' e
    Apart-symm e e' (inl l) = inr l
    Apart-symm e e' (inr l) = inl l

    placed-Apart :
        (i j : ℕ) (e e' : BatEntry)
        → i ≢ j
        → get_elem? bat.table i ≡ some e
        → get_elem? bat.table j ≡ some e'
        → Apart e e'
    placed-Apart i j e e' differ h h' =
        row_cases i e h
          (λ at is_e.
            row_cases j e' h' (λ at' _. absurd (differ (at ∙ sym at')))
              (λ other g. rw (← is_e) (w.apart j e' other g)))
          (λ other g.
            row_cases j e' h' (λ _ is_e'. rw (← is_e') (Apart-symm new e (w.apart i e other g)))
              (λ other' g'. c.apart i j e e' differ g g'))

    -- A placed section keeps the storage consistent.
    pub placed-IsConsistent : IsConsistent placed
    placed-IsConsistent = record {
      small = omega (arith, w.map_size, c.small);
      block_size = c.block_size;
      addresses = rw w.map_size c.addresses;
      counted = w.counted;
      distinct = placed-distinct;
      held = placed-IsHeld;
      apart = placed-Apart;
    }

    -- The new section reads back, behind the write of the table.
    read_new : read_at placed.file (place ds new.starting_disk_block_num) new.num_bytes ≡ some bytes
    read_new =
        read_at-write_at_ne middle size_of_header dir (place ds new.starting_disk_block_num)
          new.num_bytes end_written (inr (omega (arith, w.dir_room)))
        ∙ rw (← w.sized) (read_at-write_at ds.file (place ds new.starting_disk_block_num) bytes)

    -- The places of two sections that lie apart, in bytes.
    places_apart :
        (e e' : BatEntry)
        → e.num_bytes + ds.header.disk_block_size ≤ 2 ^ 32
        → end_block ds e ≤ e'.starting_disk_block_num
        → place ds e.starting_disk_block_num + e.num_bytes ≤ place ds e'.starting_disk_block_num
    places_apart e e' small l = omega (
      arith,
      bytes-le-blocks ds e.starting_disk_block_num e.num_bytes c small,
      mul_mono ds.header.disk_block_size (end_block ds e) e'.starting_disk_block_num l,
    )

    read_old :
        (j : ℕ) (e : BatEntry)
        → j ≢ p
        → get_elem? ds.bat.table j ≡ some e
        → read_at placed.file (place ds e.starting_disk_block_num) e.num_bytes
          ≡ read_at ds.file (place ds e.starting_disk_block_num) e.num_bytes
    read_old j e other at =
        let old = c.held j e at in
        read_at-write_at_ne middle size_of_header dir (place ds e.starting_disk_block_num)
          e.num_bytes
          (omega
            (arith, old.in_file, size_grows ds.file (place ds new.starting_disk_block_num) bytes))
          (inr (omega (arith, w.dir_room)))
        ∙ read_at-write_at_ne ds.file (place ds new.starting_disk_block_num) bytes
            (place ds e.starting_disk_block_num) e.num_bytes old.in_file
            (elim (w.apart j e other at) [
              | inl l ↦ inr (omega (arith, w.sized, places_apart new e w.countable l))
              | inr l ↦ inl (places_apart e new old.countable l)
            ])

    new_at : get_elem? bat.table p ≡ some new
    new_at = w.row p ∙ rw (==-refl p)

    old_at :
        (j : ℕ) (e : BatEntry)
        → j ≢ p
        → get_elem? ds.bat.table j ≡ some e
        → get_elem? bat.table j ≡ some e
    old_at j e other at = ground (arith, w.row j)

    -- The abstract map after it: the new bytes at the new entry's hash, all else as before.
    pub contents-placed :
        (h : ℕ) → contents placed h ≡ (if new.key_hash == h then some bytes else contents ds h)
    contents-placed h = elim (ℕ_discrete new.key_hash h) [
      | yes hit ↦
          rw ((==_iff new.key_hash h).1 hit)
            (rw (← hit) (contents_row placed p new placed-IsConsistent new_at ∙ read_new))
      | no miss ↦
          let t : (new.key_hash == h) ≡ false = ground arith in
          rw t (go miss (find_bat_entry ds.bat h) (find_bat_entry-FoundAt ds.bat h))
    ]
      where
        go :
            new.key_hash ≢ h
            → (r : Option (ℕ × BatEntry)) → FoundAt ds.bat.table 0 h r
            → contents placed h ≡ contents ds h
        go miss none f =
            contents-none placed h
              (λ i e g. row_cases i e g (λ _ is_e. rw (← is_e) miss) (λ _ g'. f i e g'))
            ∙ sym (contents-none ds h f)
        go miss (some (_, e)) (j, _, at, hash) =
            let other : j ≢ p = λ is_p. miss (sym (w.same_hash e (rw is_p at at)) ∙ hash) in
            rw (← hash) (
              contents_row placed j e placed-IsConsistent (old_at j e other at)
              ∙ read_old j e other at
              ∙ sym (contents_row ds j e c at))

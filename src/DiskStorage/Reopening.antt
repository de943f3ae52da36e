-- ===== src/DiskStorage/Reopening.antt =====
-- A node that is started again on its store file.
use rackkey.Common.{
  ℕ, zero, suc, ◌+◌, ◌*◌, ◌^◌, ◌≤◌, ◌<◌, ◌≡◌, refl, ap, ◌∙◌, arith, List, [], ◌∷◌, some, false,
  ==-refl, get_elem?, ◌⊎◌, inl, inr, Bool-cases, ◌↔◌,
}
use rackkey.Common.Results.{ok}
use rackkey.Utils.{ceil_div}
use rackkey.FreeSpace
use rackkey.FreeSpace.{FreeSpaceMap}
use rackkey.FreeSpace.Bytes.{in_section}
use rackkey.FreeSpace.Ranges.{used}
use rackkey.FreeSpace.Laws.{num_blocks, IsSmall, Changed, initialise_free, allocate_n_blocks_lem}
use rackkey.StoreFile.{StoreFile}
use rackkey.Bat.{Header, BatEntry, Bat}
use package.rackkey.DiskStorage.{DiskStorage, get_disk_block_offset}
use package.rackkey.DiskStorage.Consistent.{IsConsistent, IsHeld, contents, blocks_pos}
use package.rackkey.DiskStorage.Startup.{
  read_header, read_bat, allocate_entries, populate_free_space_map, open_existing,
}

-- Block `k` is in the section of row `i`.
abbrev pub Inside : ℕ → List BatEntry → ℕ → ℕ → Type 0
Inside size table k i =
    (e : BatEntry) × (get_elem? table i ≡ some e)
    × (e.starting_disk_block_num ≤ k)
    × (k < e.starting_disk_block_num + ceil_div e.num_bytes size)

-- The used blocks of `after` are those of `m` and those of the rows' sections.
pub record Populated (size : ℕ) (table : List BatEntry) (m after : FreeSpaceMap) : Type 0 where
  pub map_size : num_blocks after ≡ num_blocks m
  pub kept : (k : ℕ) → used m.bit_map k ≡ 1 → used after.bit_map k ≡ 1
  pub marked : (k i : ℕ) → Inside size table k i → used after.bit_map k ≡ 1
  pub only :
      (k : ℕ)
      → used after.bit_map k ≡ 1
      → (used m.bit_map k ≡ 1) ⊎ ((i : ℕ) × Inside size table k i)

-- One row more.
Populated-cons :
    (size : ℕ) (be : BatEntry) (table : List BatEntry) (m mid after : FreeSpaceMap)
    → Changed 1 m be.starting_disk_block_num (ceil_div be.num_bytes size) mid
    → Populated size table mid after
    → Populated size (be ∷ table) m after
Populated-cons size be table m mid after change rest = record {
  map_size = rest.map_size ∙ ap (λ (t : ℕ). t * 8) change.size;
  kept = λ k h. rest.kept k (ground (arith, change.blocks k));
  marked = marked;
  only = λ k h. only k (rest.only k h);
}
  where
    first : ℕ
    first = be.starting_disk_block_num

    n : ℕ
    n = ceil_div be.num_bytes size

    marked : (k i : ℕ) → Inside size (be ∷ table) k i → used after.bit_map k ≡ 1
    marked k zero (e, at, l, g) =
        let same : be ≡ e = ground (arith, at) in
        let l' : first ≤ k = ground (arith, same, l) in
        let g' : k < first + n = rw same g in rest.kept k (ground (arith, change.blocks k))
    marked k (suc i) (e, at, l, g) = rest.marked k i (e, at, l, g)

    only :
        (k : ℕ)
        → (used mid.bit_map k ≡ 1) ⊎ ((i : ℕ) × Inside size table k i)
        → (used m.bit_map k ≡ 1) ⊎ ((i : ℕ) × Inside size (be ∷ table) k i)
    only k (inr (i, (e, at, l, g))) = inr (suc i, (e, at, l, g))
    only k (inl h) = elim (Bool-cases (in_section first n k)) [
      | inl t ↦ inr (0, (be, refl, ground (arith, t), ground (arith, t)))
      | inr t ↦ inl (ground (arith, change.blocks k, t))
    ]

pub allocate_entries_lem :
    (size : ℕ) (table : List BatEntry) (m : FreeSpaceMap)
    → IsSmall m
    → ((i : ℕ) (e : BatEntry)
        → get_elem? table i ≡ some e
        → (0 < ceil_div e.num_bytes size)
          × (e.starting_disk_block_num + ceil_div e.num_bytes size ≤ num_blocks m))
    → (after : FreeSpaceMap) × (allocate_entries size table m ≡ ok after)
      × Populated size table m after
unfolding allocate_entries
allocate_entries_lem size [] m small rows = (
  m,
  refl,
  record {
    map_size = refl;
    kept = λ k h. h;
    marked = λ k i (e, at, _, _). absurd (ground (arith, at));
    only = λ k h. inl h;
  },
)
allocate_entries_lem size (be ∷ table) m small rows =
    let (pos, room) = rows 0 be refl in
    let first = be.starting_disk_block_num in
    let n = ceil_div be.num_bytes size in
    let (mid, run, change) = allocate_n_blocks_lem m first n small pos room in
    let same : num_blocks mid ≡ num_blocks m = ap (λ (t : ℕ). t * 8) change.size in
    let (after, run', rest) =
      allocate_entries_lem size table mid (omega (arith, same, small))
        (λ i e at. ((rows (suc i) e at).0, omega (arith, (rows (suc i) e at).1, same))) in
    (after, rw run run', Populated-cons size be table m mid after change rest)

-- What a restart finds: the file holds the header and the table of the storage, and a fresh map for
-- the header's sizes is as large as the storage's map.
pub record IsStored (ds : DiskStorage) : Type 0 where
  pub header_read : read_header ds.file ≡ ok ds.header
  pub table_read : read_bat ds.file [] ≡ ok ds.bat
  pub capacity_fits : ceil_div ds.header.max_data_size ds.header.disk_block_size + 8 ≤ 2 ^ 32
  pub map_size :
      num_blocks (FreeSpace.initialise (ceil_div ds.header.max_data_size ds.header.disk_block_size))
      ≡ num_blocks ds.free_space_map

open_run :
    (file : StoreFile) (max_data_size key_length_max : ℕ) (header : Header) (bat : Bat)
    (m : FreeSpaceMap)
    → read_header file ≡ ok header
    → read_bat file [] ≡ ok bat
    → populate_free_space_map header bat
        (FreeSpace.initialise (ceil_div max_data_size header.disk_block_size))
      ≡ ok m
    → open_existing file max_data_size key_length_max
      ≡ ok (record {
        header = header;
        bat = bat;
        free_space_map = m;
        key_length_max = key_length_max;
        file = file;
        stream_stuck = false;
      })
unfolding open_existing
open_run file max_data_size key_length_max header bat m h b p = rw (h, b, p) refl

populate_run :
    (header : Header) (bat : Bat) (m : FreeSpaceMap)
    → allocate_entries header.disk_block_size bat.table
        (FreeSpace.initialise (ceil_div header.max_data_size header.disk_block_size))
      ≡ ok m
    → populate_free_space_map header bat
        (FreeSpace.initialise (ceil_div header.max_data_size header.disk_block_size))
      ≡ ok m
unfolding populate_free_space_map FreeSpace.initialise
populate_run header bat m run =
    rw (==-refl (ceil_div header.max_data_size header.disk_block_size)) run

module _ (ds : DiskStorage) (c : IsConsistent ds) (stored : IsStored ds) (key_length_max : ℕ) where
  abbrev fresh : FreeSpaceMap
  fresh = FreeSpace.initialise (ceil_div ds.header.max_data_size ds.header.disk_block_size)

  abbrev reopened : FreeSpaceMap → DiskStorage
  reopened m = record {
    header = ds.header;
    bat = ds.bat;
    free_space_map = m;
    key_length_max = key_length_max;
    file = ds.file;
    stream_stuck = false;
  }

  reopened-IsHeld :
      (m : FreeSpaceMap)
      → Populated ds.header.disk_block_size ds.bat.table fresh m
      → (i : ℕ) (e : BatEntry) → get_elem? ds.bat.table i ≡ some e
      → IsHeld (reopened m) e
  reopened-IsHeld m p i e at =
      let old = c.held i e at in
      record {
        not_empty = old.not_empty;
        countable = old.countable;
        inside = omega (arith, old.inside, p.map_size, stored.map_size);
        marked = λ k l g. p.marked k i (e, at, l, g);
        in_file = old.in_file;
      }

  reopened-IsConsistent :
      (m : FreeSpaceMap)
      → Populated ds.header.disk_block_size ds.bat.table fresh m
      → IsConsistent (reopened m)
  reopened-IsConsistent m p =
      let e : num_blocks m ≡ num_blocks ds.free_space_map = p.map_size ∙ stored.map_size in
      record {
        small = omega (arith, e, c.small);
        block_size = c.block_size;
        addresses = rw e c.addresses;
        counted = c.counted;
        distinct = c.distinct;
        held = reopened-IsHeld m p;
        apart = c.apart;
      }

  reopened-contents : (m : FreeSpaceMap) (h : ℕ) → contents (reopened m) h ≡ contents ds h
  unfolding contents get_disk_block_offset
  reopened-contents m h = refl

  by_row :
      (m : FreeSpaceMap)
      → Populated ds.header.disk_block_size ds.bat.table fresh m
      → (k : ℕ)
      → (used fresh.bit_map k ≡ 1) ⊎ ((i : ℕ) × Inside ds.header.disk_block_size ds.bat.table k i)
      → (i : ℕ) × Inside ds.header.disk_block_size ds.bat.table k i
  by_row m p k (inr inside) = inside
  by_row m p k (inl h) = absurd (
      omega (
        arith,
        h,
        (initialise_free (ceil_div ds.header.max_data_size ds.header.disk_block_size)
              stored.capacity_fits).2
            k,
      ))

  -- On a consistent storage whose file holds the same header and table as the memory (as after a
  -- write, and not after a delete), and whose map is as large as a fresh one: opening the file again gives a consistent storage with the same contents, in which a
  -- block is used exactly if it is in the section of a row.
  pub open_existing_lem :
      (after : DiskStorage) × (open_existing ds.file ds.header.max_data_size key_length_max
        ≡ ok after)
      × IsConsistent after
      × ((h : ℕ) → contents after h ≡ contents ds h)
      × ((k : ℕ)
          → (used after.free_space_map.bit_map k ≡ 1)
            ↔ ((i : ℕ) × Inside ds.header.disk_block_size ds.bat.table k i))
  open_existing_lem =
      let (m, run, p) =
        allocate_entries_lem ds.header.disk_block_size ds.bat.table fresh
          (omega (arith, stored.map_size, c.small))
          (λ i e at.
            let held = c.held i e at in
            (
              blocks_pos e.num_bytes ds.header.disk_block_size c.block_size held.not_empty
                  held.countable,
              omega (arith, held.inside, stored.map_size),
            )) in
      (
        reopened m,
        open_run ds.file ds.header.max_data_size key_length_max ds.header ds.bat m
            stored.header_read stored.table_read (populate_run ds.header ds.bat m run),
        reopened-IsConsistent m p,
        reopened-contents m,
        λ k. (λ h. by_row m p k (p.only k h), λ (i, inside). p.marked k i inside),
      )

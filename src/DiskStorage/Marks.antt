-- ===== src/DiskStorage/Marks.antt =====
-- What freeing and allocating do to the marks of the rows' sections.
use rackkey.Common.{
  ℕ, ◌+◌, ◌*◌, ◌≤◌, ◌<◌, ◌≡◌, ◌≢◌, refl, sym, ap, ◌∙◌, arith, List, true, false, none, some, length,
  get_elem?, get_elem?-lt,
}
use rackkey.Common.Results.{ok}
use rackkey.Utils.{ceil_div}
use rackkey.FreeSpace.{FreeSpaceMap}
use rackkey.FreeSpace.Bytes.{in_section}
use rackkey.FreeSpace.Ranges.{used}
use rackkey.FreeSpace.Laws.{num_blocks, IsSmall, allocate_n_blocks_lem, free_n_blocks_lem}
use rackkey.Bat.{BatEntry, Bat}
use package.rackkey.DiskStorage.{DiskStorage, get_num_disk_blocks}
use package.rackkey.DiskStorage.Updating.{
  Existing, free_blocks, allocate_blocks, free_existing, update_bat,
}
use package.rackkey.DiskStorage.Consistent.{IsConsistent, end_block, blocks_pos}
use package.rackkey.DiskStorage.Rows.{slot, new_row, new_bat, LookedUp, row_found}

abbrev pub with_map : DiskStorage → FreeSpaceMap → DiskStorage
with_map ds m = record ds { free_space_map = m }

-- `m` has the storage's blocks, and only those of the row at `p` may have been freed.
pub record Freed (ds : DiskStorage) (p : ℕ) (m : FreeSpaceMap) : Type 0 where
  pub size : num_blocks m ≡ num_blocks ds.free_space_map
  pub kept :
      (j : ℕ) (e : BatEntry) (k : ℕ)
      → j ≢ p
      → get_elem? ds.bat.table j ≡ some e
      → e.starting_disk_block_num ≤ k
      → k < end_block ds e
      → used m.bit_map k ≡ 1
  pub gone :
      (e : BatEntry) (k : ℕ)
      → get_elem? ds.bat.table p ≡ some e
      → e.starting_disk_block_num ≤ k
      → k < end_block ds e
      → used m.bit_map k ≡ 0

-- The old blocks of a key are freed, and no others.
pub free_existing_lem :
    (ds : DiskStorage) (h : ℕ) (entry : Existing)
    → IsConsistent ds
    → LookedUp ds.bat h entry
    → (m : FreeSpaceMap) × (free_existing entry ds ≡ (ok tt, with_map ds m))
      × Freed ds (slot ds.bat entry) m
unfolding free_existing free_blocks get_num_disk_blocks
free_existing_lem ds h none c found = (
  ds.free_space_map,
  refl,
  record {
    size = refl;
    kept = λ j e k _ at. (c.held j e at).marked k;
    gone = λ e k at. absurd (omega (arith, get_elem?-lt ds.bat.table (length ds.bat.table) at));
  },
)
free_existing_lem ds h (some (i, be)) c found =
    let (here, hash) = row_found ds.bat h i be found in
    let held = c.held i be here in
    let n = ceil_div be.num_bytes ds.header.disk_block_size in
    let (m, run, change) =
      free_n_blocks_lem ds.free_space_map be.starting_disk_block_num n c.small
        (blocks_pos be.num_bytes ds.header.disk_block_size c.block_size held.not_empty
          held.countable)
        held.inside in
    (
      m,
      rw run refl,
      record {
        size = ap (λ (t : ℕ). t * 8) change.size;
        kept = λ j e k other at l g.
            let old = (c.held j e at).marked k l g in
            let t : in_section be.starting_disk_block_num n k ≡ false =
              ground (arith, c.apart j i e be other at here) in
            change.blocks k ∙ rw t old;
        gone = λ e k at l g.
            let same : some e ≡ some be = sym at ∙ here in
            let t : in_section be.starting_disk_block_num n k ≡ true = ground (arith, same, l, g) in
            change.blocks k ∙ rw t refl;
      },
    )

-- The section is marked, and what was marked still is.
pub record Marked (m : FreeSpaceMap) (start n : ℕ) (after : FreeSpaceMap) : Type 0 where
  pub size : num_blocks after ≡ num_blocks m
  pub new : (k : ℕ) → start ≤ k → k < start + n → used after.bit_map k ≡ 1
  pub old : (k : ℕ) → used m.bit_map k ≡ 1 → used after.bit_map k ≡ 1

pub allocate_blocks_lem :
    (ds : DiskStorage) (start n : ℕ)
    → IsSmall ds.free_space_map
    → 0 < n
    → start + n ≤ num_blocks ds.free_space_map
    → (m : FreeSpaceMap) × (allocate_blocks start n ds ≡ (ok tt, with_map ds m))
      × Marked ds.free_space_map start n m
unfolding allocate_blocks
allocate_blocks_lem ds start n small pos room =
    let (m, run, change) = allocate_n_blocks_lem ds.free_space_map start n small pos room in
    (
      m,
      rw run refl,
      record {
        size = ap (λ (t : ℕ). t * 8) change.size;
        new = λ k l g. ground (arith, change.blocks k);
        old = λ k h. ground (arith, change.blocks k);
      },
    )

Marked-trans :
    (m m' m'' : FreeSpaceMap) (start n : ℕ)
    → Marked m start n m'
    → Marked m' start n m''
    → Marked m start n m''
Marked-trans m m' m'' start n f g = record {
  size = g.size ∙ f.size;
  new = g.new;
  old = λ k h. g.old k (f.old k h);
}

abbrev pub with_bat : DiskStorage → FreeSpaceMap → Bat → DiskStorage
with_bat ds m bat = record ds { free_space_map = m; bat = bat }

-- The blocks of the new section are allocated and the table gets its row.
pub allocate-update_bat :
    (ds : DiskStorage) (h : ℕ) (key : List ℕ) (entry : Existing) (start size n : ℕ)
    → IsSmall ds.free_space_map
    → 0 < n
    → start + n ≤ num_blocks ds.free_space_map
    → (mid : FreeSpaceMap) × (m : FreeSpaceMap) × (allocate_blocks start n ds
        ≡ (ok tt, with_map ds mid))
      × (update_bat h key entry start size n (with_map ds mid)
          ≡ (ok tt, with_bat ds m (new_bat ds.bat entry (new_row h key entry start size))))
      × Marked ds.free_space_map start n m
unfolding update_bat
allocate-update_bat ds h key none start size n small pos room =
    let (mid, run, marked) = allocate_blocks_lem ds start n small pos room in
    let (m, run', marked') =
      allocate_blocks_lem (with_map ds mid) start n (omega (arith, marked.size, small)) pos
        (omega (arith, marked.size, room)) in
    (mid, m, run, rw run' refl, Marked-trans ds.free_space_map mid m start n marked marked')
allocate-update_bat ds h key (some (i, be)) start size n small pos room =
    let (mid, run, marked) = allocate_blocks_lem ds start n small pos room in
    (mid, mid, run, refl, marked)

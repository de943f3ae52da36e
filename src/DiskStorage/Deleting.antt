-- ===== src/DiskStorage/Deleting.antt =====
-- `deleteBlocks` on a consistent storage: the row goes, its blocks are free, the file stays.
use native.Mathlib.Decide.{ℕ_discrete}
use rackkey.Common.{
  ℕ, suc, ◌+◌, ◌-◌, ◌^◌, ◌≤◌, ◌<◌, ◌≡◌, ◌≢◌, refl, sym, ap, subst, ◌∙◌, arith, List, false, Option,
  none, some, ◌==◌, ==_iff, if◌then◌else◌, u32, length, get_elem?, get_elem?-lt, get_elem?-erase_at,
  length-erase_at, erase_at, ltb,
}
use rackkey.Common.Results.{ok, throw, no_bat_entry}
use rackkey.FreeSpace.{FreeSpaceMap}
use rackkey.FreeSpace.Ranges.{used}
use rackkey.Bat.{BatEntry, find_bat_entry}
use rackkey.Bat.Laws.{FoundAt, find_bat_entry-FoundAt}
use package.rackkey.DiskStorage.{DiskStorage}
use package.rackkey.DiskStorage.Updating.{Existing, free_existing, delete_blocks}
use package.rackkey.DiskStorage.Consistent.{
  IsConsistent, IsHeld, end_block, contents, contents_row, contents-none,
}
use package.rackkey.DiskStorage.Rows.{LookedUp, row_found}
use package.rackkey.DiskStorage.Marks.{Freed, free_existing_lem}

abbrev hash_of : Option BatEntry → ℕ
hash_of none = 0
hash_of (some e) = e.key_hash

-- Where the rows behind an erased one come from.
abbrev origin : ℕ → ℕ → ℕ
origin i j = if ltb j i then j else suc j

module _ (ds : DiskStorage) (i : ℕ) (be : BatEntry) (m : FreeSpaceMap) where
  abbrev pub deleted : DiskStorage
  deleted = record ds {
    bat = record {
      num_entries = u32 (ds.bat.num_entries + (2 ^ 32 - 1));
      table = erase_at ds.bat.table i;
    };
    free_space_map = m;
  }

  module _ (c : IsConsistent ds) (few : length ds.bat.table < 2 ^ 32)
      (here : get_elem? ds.bat.table i ≡ some be) (freed : Freed ds i m) where
    from :
        (j : ℕ) (e : BatEntry)
        → get_elem? deleted.bat.table j ≡ some e
        → get_elem? ds.bat.table (origin i j) ≡ some e
    from j e at = sym (get_elem?-erase_at ds.bat.table i j) ∙ at

    elsewhere : (j : ℕ) → origin i j ≢ i
    elsewhere j e = ground arith

    origin_inj : (j k : ℕ) → origin i j ≡ origin i k → j ≡ k
    origin_inj j k e = ground arith

    deleted-IsHeld :
        (j : ℕ) (e : BatEntry) → get_elem? deleted.bat.table j ≡ some e → IsHeld deleted e
    deleted-IsHeld j e at =
        let at' = from j e at in
        let old = c.held (origin i j) e at' in
        record {
          not_empty = old.not_empty;
          countable = old.countable;
          inside = omega (arith, old.inside, freed.size);
          marked = λ k. freed.kept (origin i j) e k (elsewhere j) at';
          in_file = old.in_file;
        }

    pub deleted-IsConsistent : IsConsistent deleted
    deleted-IsConsistent = record {
      small = omega (arith, freed.size, c.small);
      block_size = c.block_size;
      addresses = rw freed.size c.addresses;
      counted = omega (
        arith,
        c.counted,
        few,
        length-erase_at ds.bat.table i (get_elem?-lt ds.bat.table i here),
        get_elem?-lt ds.bat.table i here,
      );
      distinct = λ j k e e' at at' same.
          origin_inj j k
            (c.distinct (origin i j) (origin i k) e e' (from j e at) (from k e' at') same);
      held = deleted-IsHeld;
      apart = λ j k e e' differ at at'.
          c.apart (origin i j) (origin i k) e e' (λ s. differ (origin_inj j k s)) (from j e at)
            (from k e' at');
    }

    -- Every other row is still there.
    still :
        (k : ℕ) (e : BatEntry)
        → k ≢ i
        → get_elem? ds.bat.table k ≡ some e
        → (j : ℕ) × (get_elem? deleted.bat.table j ≡ some e)
    still k e other at =
        let j = if ltb k i then k else k - 1 in
        let back : origin i j ≡ k = ground arith in
        (j, get_elem?-erase_at ds.bat.table i j ∙ ap (get_elem? ds.bat.table) back ∙ at)

    pub contents-deleted :
        (h : ℕ) → contents deleted h ≡ (if be.key_hash == h then none else contents ds h)
    contents-deleted h = elim (ℕ_discrete be.key_hash h) [
      | yes hit ↦ rw ((==_iff be.key_hash h).1 hit) (
          contents-none deleted h (λ j e at same.
            elsewhere j (c.distinct (origin i j) i e be (from j e at) here (same ∙ sym hit))))
      | no miss ↦
          let t : (be.key_hash == h) ≡ false = ground arith in
          rw t (other miss (find_bat_entry ds.bat h) (find_bat_entry-FoundAt ds.bat h))
    ]
      where
        other :
            be.key_hash ≢ h
            → (r : Existing) → FoundAt ds.bat.table 0 h r
            → contents deleted h ≡ contents ds h
        other miss none f =
            contents-none deleted h (λ j e at. f (origin i j) e (from j e at))
            ∙ sym (contents-none ds h f)
        other miss (some (_, e)) (k, _, at, hash) =
            let apart : k ≢ i = λ is_i.
              let same : some e ≡ some be = sym at ∙ ap (get_elem? ds.bat.table) is_i ∙ here in
              miss (sym (ap (λ (o : Option BatEntry). hash_of o) same) ∙ hash) in
            let (j, at') = still k e apart at in
            rw (← hash)
              (contents_row deleted j e deleted-IsConsistent at' ∙ sym (contents_row ds k e c at))

module _ (sha256_32 : List ℕ → ℕ) (ds : DiskStorage) (key : List ℕ) (c : IsConsistent ds) where
  -- On a consistent storage of fewer than 2^32 rows, deleting a key that has a row succeeds; the
  -- storage stays consistent; its contents change at the key's hash only, to none; the blocks of the
  -- row's section are free; and the file keeps every byte, the table's included.
  pub delete_blocks_lem :
      (i : ℕ) (be : BatEntry)
      → length ds.bat.table < 2 ^ 32
      → find_bat_entry ds.bat (sha256_32 key) ≡ some (i, be)
      → (after : DiskStorage) × (delete_blocks sha256_32 key ds ≡ (ok tt, after))
        × IsConsistent after
        × ((h : ℕ) → contents after h ≡ (if sha256_32 key == h then none else contents ds h))
        × ((k : ℕ)
            → be.starting_disk_block_num ≤ k
            → k < end_block ds be
            → used after.free_space_map.bit_map k ≡ 0)
        × (after.file ≡ ds.file)
  unfolding delete_blocks free_existing
  delete_blocks_lem i be few at =
      let looked =
        subst (LookedUp ds.bat (sha256_32 key)) at
          (find_bat_entry-FoundAt ds.bat (sha256_32 key)) in
      let (here, hash) = row_found ds.bat (sha256_32 key) i be looked in
      let (m, run, freed) = free_existing_lem ds (sha256_32 key) (some (i, be)) c looked in
      (
        deleted ds i be m,
        rw at (rw run refl),
        deleted-IsConsistent ds i be m c few here freed,
        λ h.
            contents-deleted ds i be m c few here freed h
            ∙ ap (λ (k : ℕ). if k == h then none else contents ds h) hash,
        λ k. freed.gone be k here,
        refl,
      )

  -- Deleting a key that is not stored throws and changes nothing.
  pub delete_blocks_missing :
      find_bat_entry ds.bat (sha256_32 key) ≡ none
      → delete_blocks sha256_32 key ds ≡ (throw no_bat_entry, ds)
  unfolding delete_blocks
  delete_blocks_missing at = rw at refl

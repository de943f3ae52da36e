-- ===== src/DiskStorage/Rows.antt =====
-- The row that `writeBlocks` changes or adds, and the table afterwards.
use native.Mathlib.Decide.{ℕ_discrete}
use rackkey.Common.{
  ℕ, zero, suc, ◌+◌, ◌^◌, ◌≤◌, ◌<◌, ◌≡◌, ◌≢◌, refl, sym, ◌∙◌, arith, List, [], ◌∷◌, ◌++◌, none,
  some, false, ◌==◌, ==-refl, if◌then◌else◌, u32, length, set, get_elem?, length-append, length-set,
  get_elem?-lt, get_elem?-append_last, get_elem?-append_ne, get_elem?-set_self, get_elem?-set_ne,
}
use rackkey.ByteBuffer.{u32_bytes}
use rackkey.Utils.Laws.{length-fixed_size}
use rackkey.Bat.{BatEntry, Bat, new_entry, entry_bytes, key_array_size, size_of_entry}
use rackkey.Bat.Laws.{DistinctHashes, FoundAt}
use package.rackkey.DiskStorage.{table_bytes}
use package.rackkey.DiskStorage.Updating.{Existing}

-- The row's position: the one that was found, or the end.
abbrev pub slot : Bat → Existing → ℕ
slot bat none = length bat.table
slot bat (some (i, be)) = i

abbrev pub new_row : ℕ → List ℕ → Existing → ℕ → ℕ → BatEntry
new_row key_hash key none start n = new_entry key key_hash start n
new_row key_hash key (some (i, be)) start n = record be {
  starting_disk_block_num = start;
  num_bytes = n;
}

abbrev pub new_bat : Bat → Existing → BatEntry → Bat
new_bat bat none new = record {
  num_entries = u32 (bat.num_entries + 1);
  table = bat.table ++ (new ∷ []);
}
new_bat bat (some (i, be)) new = record bat { table = set bat.table i new }

-- What the look-up at the start of `writeBlocks` tells of an entry.
abbrev pub LookedUp : Bat → ℕ → Existing → Type 0
LookedUp bat h entry = FoundAt bat.table 0 h entry

pub row_found :
    (bat : Bat) (h i : ℕ) (be : BatEntry)
    → LookedUp bat h (some (i, be))
    → (get_elem? bat.table i ≡ some be) × (be.key_hash ≡ h)
row_found bat h i be (k, at, here, hash) = let e : i ≡ k = omega (arith, at) in (rw e here, hash)

pub new_bat_row :
    (bat : Bat) (h : ℕ) (entry : Existing) (new : BatEntry) (j : ℕ)
    → LookedUp bat h entry
    → get_elem? (new_bat bat entry new).table j
      ≡ (if j == slot bat entry then some new else get_elem? bat.table j)
new_bat_row bat h none new j found = elim (ℕ_discrete j (length bat.table)) [
  | yes e ↦ rw e (rw (==-refl (length bat.table)) (get_elem?-append_last bat.table new))
  | no e ↦
      let t : (j == length bat.table) ≡ false = ground arith in
      rw t (get_elem?-append_ne bat.table new j e)
]
new_bat_row bat h (some (i, be)) new j found = elim (ℕ_discrete j i) [
  | yes e ↦ rw e (
      rw (==-refl i) (
        get_elem?-set_self bat.table i new
          (get_elem?-lt bat.table i (row_found bat h i be found).0)))
  | no e ↦
      let t : (j == i) ≡ false = ground arith in
      rw t (get_elem?-set_ne bat.table i j new (λ s. e (sym s)))
]

pub new_bat_counted :
    (bat : Bat) (entry : Existing) (new : BatEntry)
    → bat.num_entries ≡ length bat.table
    → length bat.table + 1 < 2 ^ 32
    → (new_bat bat entry new).num_entries ≡ length (new_bat bat entry new).table
new_bat_counted bat none new c l = omega (arith, c, length-append bat.table (new ∷ []))
new_bat_counted bat (some (i, be)) new c l = omega (arith, c, length-set bat.table i new)

pub new_row_hash :
    (bat : Bat) (h : ℕ) (key : List ℕ) (entry : Existing) (start n : ℕ)
    → LookedUp bat h entry
    → (new_row h key entry start n).key_hash ≡ h
unfolding new_entry
new_row_hash bat h key none start n found = refl
new_row_hash bat h key (some (i, be)) start n found = (row_found bat h i be found).1

pub new_row_start :
    (h : ℕ) (key : List ℕ) (entry : Existing) (start n : ℕ)
    → ((new_row h key entry start n).starting_disk_block_num ≡ start)
      × ((new_row h key entry start n).num_bytes ≡ n)
unfolding new_entry
new_row_start h key none start n = (refl, refl)
new_row_start h key (some e) start n = (refl, refl)

pub other_rows :
    (bat : Bat) (h : ℕ) (entry : Existing) (j : ℕ) (e : BatEntry)
    → LookedUp bat h entry
    → DistinctHashes bat.table
    → j ≢ slot bat entry
    → get_elem? bat.table j ≡ some e
    → e.key_hash ≢ h
other_rows bat h none j e found distinct other at = found j e at
other_rows bat h (some (i, be)) j e found distinct other at = λ same.
    let (here, hash) = row_found bat h i be found in
    other (sym (distinct i j be e here at (hash ∙ sym same)))

pub slot_row :
    (bat : Bat) (h : ℕ) (entry : Existing) (e : BatEntry)
    → LookedUp bat h entry
    → get_elem? bat.table (slot bat entry) ≡ some e
    → e.key_hash ≡ h
slot_row bat h none e found at =
    absurd (omega (arith, get_elem?-lt bat.table (length bat.table) at))
slot_row bat h (some (i, be)) e found at =
    let (here, hash) = row_found bat h i be found in
    let s : some e ≡ some be = sym at ∙ here in ground (arith, s, hash)

-- The table's bytes.
table-append :
    (table : List BatEntry) (new : BatEntry)
    → length (table_bytes (table ++ (new ∷ [])))
      ≡ length (table_bytes table) + length (entry_bytes new)
unfolding table_bytes
table-append [] new = omega (arith, length-append (entry_bytes new) [])
table-append (e ∷ table) new = omega (
  arith,
  table-append table new,
  length-append (entry_bytes e) (table_bytes (table ++ (new ∷ []))),
  length-append (entry_bytes e) (table_bytes table),
)

pub length-entry_bytes : (e : BatEntry) → length (entry_bytes e) ≡ length e.key + 12
unfolding entry_bytes u32_bytes
length-entry_bytes e = omega (
  arith,
  length-append e.key
      (u32_bytes e.key_hash ++ (u32_bytes e.starting_disk_block_num ++ u32_bytes e.num_bytes)),
)

table-set :
    (table : List BatEntry) (i : ℕ) (old new : BatEntry)
    → get_elem? table i ≡ some old
    → length new.key ≡ length old.key
    → length (table_bytes (set table i new)) ≡ length (table_bytes table)
unfolding table_bytes
table-set [] i old new at same = refl
table-set (e ∷ table) zero old new at same =
    let k : length e.key ≡ length new.key = let s : e ≡ old = ground arith in rw s (sym same) in
    omega (
      arith,
      k,
      length-append (entry_bytes e) (table_bytes table),
      length-append (entry_bytes new) (table_bytes table),
      length-entry_bytes e,
      length-entry_bytes new,
    )
table-set (e ∷ table) (suc i) old new at same = omega (
  arith,
  table-set table i old new at same,
  length-append (entry_bytes e) (table_bytes (set table i new)),
  length-append (entry_bytes e) (table_bytes table),
)

-- A new row takes 62 bytes, a changed one none.
pub new_bat_bytes :
    (bat : Bat) (h : ℕ) (key : List ℕ) (entry : Existing) (start n : ℕ)
    → LookedUp bat h entry
    → length (table_bytes (new_bat bat entry (new_row h key entry start n)).table)
      ≤ length (table_bytes bat.table) + size_of_entry
unfolding new_entry
new_bat_bytes bat h key none start n found = omega (
  arith,
  table-append bat.table (new_row h key none start n),
  length-entry_bytes (new_row h key none start n),
  length-fixed_size _ key_array_size,
)
new_bat_bytes bat h key (some (i, be)) start n found = omega (
  arith,
  table-set bat.table i be (new_row h key (some (i, be)) start n) (row_found bat h i be found).0
      refl,
)

pub rows-le-bytes : (table : List BatEntry) → length table ≤ length (table_bytes table)
unfolding table_bytes
rows-le-bytes [] = omega arith
rows-le-bytes (e ∷ table) = omega (
  arith,
  rows-le-bytes table,
  length-append (entry_bytes e) (table_bytes table),
  length-entry_bytes e,
)

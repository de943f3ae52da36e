-- ===== src/DiskStorage/Restart.antt =====
-- The header and the table in the store file, as a node finds them when it is started again.
use rackkey.Common.{
  ℕ, suc, ◌+◌, ◌≤◌, ◌≡◌, refl, sym, ap, subst, ◌∙◌, arith, List, [], ◌∷◌, ◌++◌, append-nil,
  append_assoc, All, some, false, IsU32, length, length-append,
}
use rackkey.Common.Results.{Result, ok}
use rackkey.ByteBuffer.{
  u32_bytes, read_u32, read_range, length-u32_bytes, read_u32-u32_bytes, read_range-append,
}
use rackkey.StoreFile.{StoreFile, healthy, read_at, write_at}
use rackkey.StoreFile.Laws.{read_at-write_at, read_at-write_at_part}
use rackkey.Bat.{
  Header, BatEntry, header_bytes, header_of_bytes, entry_bytes, entry_of_bytes, key_array_size,
  size_of_header, size_of_entry,
}
use package.rackkey.DiskStorage.{DiskStorage, table_bytes, write_bat}
use package.rackkey.DiskStorage.Rows.{length-entry_bytes}
use package.rackkey.DiskStorage.Startup.{
  read_table, read_bat, put_entry, bytes_or_fault, read_header, write_header,
}
use package.rackkey.DiskStorage.Steps.{write_bat-healthy}

-- An entry as the code makes them: an array of 50 characters, and fields of 32 bits.
pub record IsRow (e : BatEntry) : Type 0 where
  pub key_array : length e.key ≡ key_array_size
  pub hash_fits : IsU32 e.key_hash
  pub start_fits : IsU32 e.starting_disk_block_num
  pub num_fits : IsU32 e.num_bytes

entry_of_bytes-entry_bytes : (e : BatEntry) → IsRow e → entry_of_bytes (entry_bytes e) ≡ ok (e, [])
unfolding entry_of_bytes entry_bytes
entry_of_bytes-entry_bytes e r =
    let tail =
      u32_bytes e.key_hash ++ (u32_bytes e.starting_disk_block_num ++ u32_bytes e.num_bytes) in
    let key : read_range key_array_size (e.key ++ tail) ≡ ok (e.key, tail) =
      rw (← r.key_array) (read_range-append e.key tail) in
    rw key (
      rw (read_u32-u32_bytes e.key_hash _ r.hash_fits) (
        rw (read_u32-u32_bytes e.starting_disk_block_num _ r.start_fits) (
          rw (← append-nil (u32_bytes e.num_bytes))
            (rw (read_u32-u32_bytes e.num_bytes [] r.num_fits) refl))))

put_last :
    (table : List BatEntry) (e : BatEntry) → put_entry table (length table) e ≡ table ++ (e ∷ [])
unfolding put_entry
put_last table e = ground arith

-- The rows that are left come back from behind what was read of the file.
read_table-table_bytes :
    (f : StoreFile) (at : ℕ) (pre : List ℕ) (done left : List BatEntry)
    → All IsRow left
    → read_table
        (length left)
        (length done)
        (write_at f at (pre ++ table_bytes left))
        (at + length pre)
        done
      ≡ ok (done ++ left)
unfolding read_table table_bytes bytes_or_fault
read_table-table_bytes f at pre done [] r = ap ok (sym (append-nil done))
read_table-table_bytes f at pre done (e ∷ left) r =
    let size : length (entry_bytes e) ≡ size_of_entry =
      omega (arith, length-entry_bytes e, r.0.key_array) in
    let here : read_at (write_at f at (pre ++ (entry_bytes e ++ table_bytes left)))
          (at + length pre) size_of_entry
        ≡ some (entry_bytes e) =
      rw (← size) (read_at-write_at_part f at pre (entry_bytes e) (table_bytes left)) in
    let next : at + length pre + size_of_entry ≡ at + length (pre ++ entry_bytes e) =
      omega (arith, length-append pre (entry_bytes e), size) in
    let more : suc (length done) ≡ length (done ++ (e ∷ [])) =
      omega (arith, length-append done (e ∷ [])) in
    let shape : pre ++ (entry_bytes e ++ table_bytes left)
        ≡ (pre ++ entry_bytes e) ++ table_bytes left =
      sym (append_assoc pre (entry_bytes e) (table_bytes left)) in
    let rest = read_table-table_bytes f at (pre ++ entry_bytes e) (done ++ (e ∷ [])) left r.1 in
    rw (here, entry_of_bytes-entry_bytes e r.0)
      (rw (put_last done e, next, more, shape) (rest ∙ ap ok (append_assoc done (e ∷ []) left)))

read_count_bytes :
    (f : StoreFile) (n : ℕ) (rest : List ℕ)
    → read_at (write_at f size_of_header (u32_bytes n ++ rest)) size_of_header 4
      ≡ some (u32_bytes n)
unfolding u32_bytes
read_count_bytes f n rest = read_at-write_at_part f size_of_header [] (u32_bytes n) rest

read_rows :
    (f : StoreFile) (nums : List ℕ) (table : List BatEntry) (n : ℕ)
    → All IsRow table
    → n ≡ length table
    → length nums ≡ 4
    → read_table n 0 (write_at f size_of_header (nums ++ table_bytes table)) (size_of_header + 4) []
      ≡ ok table
read_rows f nums table n rows counted four =
    let e : size_of_header + 4 ≡ size_of_header + length nums = omega (arith, four) in
    rw (counted, e) (read_table-table_bytes f size_of_header nums [] table rows)

-- On a storage whose stream is usable, and whose table has rows as the code makes them, counted right
-- and by a number of 32 bits: what `writeBAT` wrote, `readBAT` reads from the file.
pub read_bat-write_bat :
    (ds : DiskStorage)
    → ds.stream_stuck ≡ false
    → All IsRow ds.bat.table
    → ds.bat.num_entries ≡ length ds.bat.table
    → IsU32 ds.bat.num_entries
    → read_bat (write_bat healthy ds).1.file [] ≡ ok ds.bat
unfolding read_bat bytes_or_fault
read_bat-write_bat ds usable rows counted few =
    let n = ds.bat.num_entries in
    let table = ds.bat.table in
    let e : (write_bat healthy ds).1.file
        ≡ write_at ds.file size_of_header (u32_bytes n ++ table_bytes table) =
      ap (λ (r : Result (Unit {0}) × DiskStorage). r.1.file) (write_bat-healthy ds usable) in
    let count : read_u32 (u32_bytes n) ≡ ok (n, []) =
      subst (λ (b : List ℕ). read_u32 b ≡ ok (n, [])) (append-nil (u32_bytes n))
        (read_u32-u32_bytes n [] few) in
    rw e (
      rw (read_count_bytes ds.file n (table_bytes table), count)
        (rw (read_rows ds.file (u32_bytes n) table n rows counted (length-u32_bytes n)) refl))

-- The fields fit their 32 bits.
pub record IsHeader (h : Header) : Type 0 where
  pub magic_fits : IsU32 h.magic_number
  pub offset_fits : IsU32 h.bat_offset
  pub size_fits : IsU32 h.bat_size
  pub block_fits : IsU32 h.disk_block_size
  pub max_fits : IsU32 h.max_data_size
  pub store_fits : IsU32 h.block_store_offset

header_of_bytes-header_bytes : (h : Header) → IsHeader h → header_of_bytes (header_bytes h) ≡ ok h
unfolding header_of_bytes header_bytes
header_of_bytes-header_bytes h fits = rw (read_u32-u32_bytes h.magic_number _ fits.magic_fits) (
    rw (read_u32-u32_bytes h.bat_offset _ fits.offset_fits) (
      rw (read_u32-u32_bytes h.bat_size _ fits.size_fits) (
        rw (read_u32-u32_bytes h.disk_block_size _ fits.block_fits) (
          rw (read_u32-u32_bytes h.max_data_size _ fits.max_fits) (
            rw (← append-nil (u32_bytes h.block_store_offset))
              (rw (read_u32-u32_bytes h.block_store_offset [] fits.store_fits) refl))))))

header_read :
    (file : StoreFile) (h : Header)
    → read_at (write_at file 0 (header_bytes h)) 0 size_of_header ≡ some (header_bytes h)
unfolding header_bytes u32_bytes
header_read file h = read_at-write_at file 0 (header_bytes h)

unwritten :
    (file : StoreFile) (h : Header) (i : ℕ)
    → size_of_header ≤ i
    → (write_at file 0 (header_bytes h)).byte_at i ≡ file.byte_at i
unfolding write_at header_bytes u32_bytes
unwritten file h i l = ground arith

-- A header whose fields fit 32 bits is what `readHeader` reads from the file that `writeHeader`
-- wrote it to, where this opens and takes the write and whatever it held; no byte behind the header
-- changes.
pub read_header-write_header :
    (file : StoreFile) (h : Header)
    → IsHeader h
    → (read_header (write_header healthy h file) ≡ ok h)
      × ((i : ℕ) → size_of_header ≤ i → (write_header healthy h file).byte_at i ≡ file.byte_at i)
unfolding read_header write_header bytes_or_fault
read_header-write_header file h fits =
    (rw (header_read file h) (header_of_bytes-header_bytes h fits), λ i l. unwritten file h i l)

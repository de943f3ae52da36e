-- ===== src/Bat.antt =====
-- src/storage/disk_storage.hpp and .cpp: the file header and the block allocation table (BAT), with
-- the bytes that they have in the store file.
pub mod Laws
mod Examples
use rackkey.Common.{
  ℕ, zero, suc, ◌+◌, ◌-◌, List, [], ◌∷◌, ◌++◌, Bool, true, false, ◌&&◌, Option, none, some, ◌==◌,
  list_beq, ltb, if◌then◌else◌, length, take, get_elem?, set,
}
use rackkey.Common.Results.{Result, ok, fault, ◌>>=◌}
use rackkey.ByteBuffer.{u32_bytes, read_u32, read_range}
use rackkey.Utils.{fixed_size}

pub record Header : Type 0 where
  pub magic_number : ℕ
  pub bat_offset : ℕ
  pub bat_size : ℕ
  pub disk_block_size : ℕ
  pub max_data_size : ℕ
  pub block_store_offset : ℕ

abbrev pub size_of_header : ℕ
size_of_header = 24

unfoldable pub equals_header : Header → Header → Bool
equals_header header other =
    header.magic_number == other.magic_number
    && header.bat_offset == other.bat_offset
    && header.bat_size == other.bat_size
    && header.disk_block_size == other.disk_block_size
    && header.max_data_size == other.max_data_size
    && header.block_store_offset == other.block_store_offset

-- The object's bytes: it is packed, so its six fields follow one another.
unfoldable pub header_bytes : Header → List ℕ
header_bytes h =
    u32_bytes h.magic_number
    ++ (u32_bytes h.bat_offset
        ++ (u32_bytes h.bat_size
            ++ (u32_bytes h.disk_block_size
                ++ (u32_bytes h.max_data_size ++ u32_bytes h.block_store_offset))))

unfoldable pub header_of_bytes : List ℕ → Result Header
header_of_bytes it = do
  (magic_number, it) ← read_u32 it
  (bat_offset, it) ← read_u32 it
  (bat_size, it) ← read_u32 it
  (disk_block_size, it) ← read_u32 it
  (max_data_size, it) ← read_u32 it
  (block_store_offset, it) ← read_u32 it
  ok (record {
    magic_number = magic_number;
    bat_offset = bat_offset;
    bat_size = bat_size;
    disk_block_size = disk_block_size;
    max_data_size = max_data_size;
    block_store_offset = block_store_offset;
  })

-- `key` is the array of 50 characters.
pub record BatEntry : Type 0 where
  pub key : List ℕ
  pub key_hash : ℕ
  pub starting_disk_block_num : ℕ
  pub num_bytes : ℕ

abbrev pub key_array_size : ℕ
key_array_size = 50

abbrev pub size_of_entry : ℕ
size_of_entry = 62

-- The C string at the start of the bytes: up to the first null byte.
unfoldable pub c_string : List ℕ → List ℕ
c_string [] = []
c_string (c ∷ s) = let rest = c_string s in if c == 0 then [] else c ∷ rest

-- `strncpy` copies at most 49 characters of the C string and pads with null bytes; the last
-- character is null.
unfoldable pub new_entry : List ℕ → ℕ → ℕ → ℕ → BatEntry
unfolding c_string fixed_size
new_entry key key_hash starting_disk_block_num num_bytes = record {
  key = fixed_size (take (key_array_size - 1) (c_string key)) key_array_size;
  key_hash = key_hash;
  starting_disk_block_num = starting_disk_block_num;
  num_bytes = num_bytes;
}

unfoldable pub equals_entry : BatEntry → BatEntry → Bool
equals_entry be other =
    list_beq (c_string be.key) (c_string other.key)
    && be.key_hash == other.key_hash
    && be.starting_disk_block_num == other.starting_disk_block_num
    && be.num_bytes == other.num_bytes

unfoldable pub entry_bytes : BatEntry → List ℕ
entry_bytes be =
    be.key
    ++ (u32_bytes be.key_hash ++ (u32_bytes be.starting_disk_block_num ++ u32_bytes be.num_bytes))

unfoldable pub entry_of_bytes : List ℕ → Result (BatEntry × List ℕ)
entry_of_bytes it = do
  (key, it) ← read_range key_array_size it
  (key_hash, it) ← read_u32 it
  (starting_disk_block_num, it) ← read_u32 it
  (num_bytes, it) ← read_u32 it
  ok (
    record {
      key = key;
      key_hash = key_hash;
      starting_disk_block_num = starting_disk_block_num;
      num_bytes = num_bytes;
    },
    it,
  )

pub record Bat : Type 0 where
  pub num_entries : ℕ
  pub table : List BatEntry

abbrev pub empty : Bat
empty = record { num_entries = 0; table = [] }

-- The search from position `i` on.
unfoldable pub find_from : List BatEntry → ℕ → ℕ → Option (ℕ × BatEntry)
find_from [] i key_hash = none
find_from (be ∷ table) i key_hash =
    if be.key_hash == key_hash then some (i, be) else find_from table (suc i) key_hash

-- The iterator is the entry's position, with the entry that it points to.
unfoldable pub find_bat_entry : Bat → ℕ → Option (ℕ × BatEntry)
unfolding find_from
find_bat_entry bat key_hash = find_from bat.table 0 key_hash

-- `numEntries` rounds; to index a table that is shorter is undefined.
equals_tables : ℕ → List BatEntry → List BatEntry → Result Bool
equals_tables zero table other = ok true
equals_tables (suc n) (be ∷ table) (be' ∷ other) =
    let rest = equals_tables n table other in if equals_entry be be' then rest else ok false
equals_tables (suc n) _ _ = fault

unfoldable pub equals_bat : Bat → Bat → Result Bool
unfolding equals_tables equals_entry
equals_bat bat other =
    if bat.num_entries == other.num_entries
    then equals_tables bat.num_entries bat.table other.table
    else ok false

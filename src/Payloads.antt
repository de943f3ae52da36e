-- ===== src/Payloads.antt =====
-- src/shared/payloads.cpp and payloads.hpp: what the servers send beside blocks.
pub mod Numbers
pub mod Sync
mod Examples
use rackkey.Common.{
  ℕ, zero, suc, ◌+◌, ◌-◌, ◌<◌, List, [], ◌∷◌, ◌++◌, Bool, true, false, ◌&&◌, Option, none, some,
  ltb, leb, ◌==◌, list_beq, if◌then◌else◌, length, u32,
}
use rackkey.Common.Results.{Result, ok, fault, ◌>>=◌, require}
use rackkey.ByteBuffer.{u32_bytes, read_u32, read_range}
use rackkey.OrderedMap
use rackkey.OrderedMap.{OrderedMap}
use rackkey.OrderedMap.Order.{key_ord}

-- `for (auto &bn : blockNums)`: each number's four bytes.
unfoldable pub put_nums : List ℕ → List ℕ → List ℕ
put_nums [] buffer = buffer
put_nums (bn ∷ block_nums) buffer = put_nums block_nums (buffer ++ u32_bytes bn)

pub record BlockNumList : Type 0 where
  pub block_nums : List ℕ

unfoldable pub serialize_nums : BlockNumList → List ℕ → List ℕ
unfolding put_nums
serialize_nums bnl buffer = put_nums bnl.block_nums buffer

-- `while (it < buffer.end())`; a round takes four bytes.
unfoldable pub read_nums : ℕ → List ℕ → Result (List ℕ)
read_nums fuel [] = ok []
read_nums zero (b ∷ it) = fault
read_nums (suc fuel) (b ∷ it) = do
  (block_num, it) ← read_u32 (b ∷ it)
  block_nums ← read_nums fuel it
  ok (block_num ∷ block_nums)

unfoldable pub deserialize_nums : List ℕ → Result BlockNumList
unfolding read_nums
deserialize_nums buffer = do
  block_nums ← read_nums (length buffer) buffer
  ok (record { block_nums = block_nums })

unfoldable pub equals_nums : BlockNumList → BlockNumList → Bool
equals_nums bnl other = list_beq bnl.block_nums other.block_nums

pub record SizeInfo : Type 0 where
  pub data_used_size : ℕ
  pub data_total_size : ℕ

abbrev pub size_of_size_info : ℕ
size_of_size_info = 8

unfoldable pub serialize_size : SizeInfo → List ℕ → List ℕ
serialize_size info buffer =
    (buffer ++ u32_bytes info.data_used_size) ++ u32_bytes info.data_total_size

-- Both overloads: two fields, and then the end of the buffer.
unfoldable pub deserialize_size : List ℕ → Result SizeInfo
deserialize_size it = do
  (data_used_size, it) ← read_u32 it
  (data_total_size, it) ← read_u32 it
  require (length it == 0)
      (ok (record { data_used_size = data_used_size; data_total_size = data_total_size }))

unfoldable pub equals_size : SizeInfo → SizeInfo → Bool
equals_size info other =
    info.data_used_size == other.data_used_size && info.data_total_size == other.data_total_size

pub record SyncInfo : Type 0 where
  pub key_block_num_map : OrderedMap (List ℕ) (List ℕ)
  pub size_info : SizeInfo

-- The map's entries in key order: the key with no size before it, the number of blocks, the
-- blocks' numbers.
unfoldable pub serialize_entries : OrderedMap (List ℕ) (List ℕ) → List ℕ → List ℕ
unfolding put_nums
serialize_entries [] buffer = buffer
serialize_entries ((key, block_nums) ∷ m) buffer =
    serialize_entries m
      (put_nums block_nums ((buffer ++ key) ++ u32_bytes (u32 (length block_nums))))

unfoldable pub serialize_sync : SyncInfo → List ℕ → List ℕ
unfolding serialize_entries serialize_size
serialize_sync info buffer =
    serialize_size info.size_info (serialize_entries info.key_block_num_map buffer)

-- `for (int i = 0; i < numBlocks; i++)`
unfoldable pub read_count : ℕ → List ℕ → Result (List ℕ × List ℕ)
read_count zero it = ok ([], it)
read_count (suc n) it = do
  (block_num, it) ← read_u32 it
  (block_nums, it) ← read_count n it
  ok (block_num ∷ block_nums, it)

-- The key length that `deserialize` is written for.
abbrev pub sync_key_length : ℕ
sync_key_length = 50

-- The loop `while (it < (buffer.end() - sizeof(SizeInfo)))`, which leaves the map and the rest.
-- A buffer shorter than a SizeInfo is read out of range. A round takes 54 bytes at least.
unfoldable pub read_entries :
    ℕ → OrderedMap (List ℕ) (List ℕ) → List ℕ → Result (OrderedMap (List ℕ) (List ℕ) × List ℕ)
unfolding read_count
read_entries zero m it = fault
read_entries (suc fuel) m it = elim (ltb size_of_size_info (length it)) [
  | true ↦ (do
    (key, it) ← read_range sync_key_length it
    (num_blocks, it) ← read_u32 it
    (block_nums, it) ← read_count num_blocks it
    read_entries fuel (OrderedMap.insert key block_nums m) it)
  | false ↦ ok (m, it)
]

unfoldable pub deserialize_sync : List ℕ → Result SyncInfo
unfolding read_entries deserialize_size
deserialize_sync buffer = do
  (m, it) ← read_entries (length buffer + 1) [] buffer
  require (length it == size_of_size_info) (do
    size_info ← deserialize_size it
    ok (record { key_block_num_map = m; size_info = size_info }))

-- `other.keyBlockNumMap[key]`: a missing key is inserted with an empty list.
value_or_empty : Option (List ℕ) → List ℕ
value_or_empty none = []
value_or_empty (some nums) = nums

equals_entries : OrderedMap (List ℕ) (List ℕ) → OrderedMap (List ℕ) (List ℕ) → Bool
unfolding value_or_empty
equals_entries [] other = true
equals_entries ((key, block_nums) ∷ m) other =
    list_beq block_nums (value_or_empty (OrderedMap.find key other)) && equals_entries m other

unfoldable pub equals_sync : SyncInfo → SyncInfo → Bool
unfolding equals_entries equals_size
equals_sync info other =
    length info.key_block_num_map == length other.key_block_num_map
    && equals_entries info.key_block_num_map other.key_block_num_map
    && equals_size info.size_info other.size_info

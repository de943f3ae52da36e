-- ===== src/Payloads/Sync.antt =====
-- Sync infos survive the buffer, provided that every key has the length that the reader is
-- written for.
use rackkey.Common.{
  ℕ, zero, suc, ◌+◌, ◌≤◌, ◌<◌, ◌≡◌, refl, sym, ap, ◌∙◌, arith, List, [], ◌∷◌, ◌++◌, append-nil,
  append_assoc, true, false, ltb, ==_iff, u32, IsU32, length, length-append, All,
}
use rackkey.Common.Results.{ok}
use rackkey.ByteBuffer.{
  u32_bytes, read_range, length-u32_bytes, read_u32-u32_bytes, read_range-append,
}
use rackkey.OrderedMap.{OrderedMap}
use rackkey.OrderedMap.Order.{key_ord}
use rackkey.OrderedMap.Laws.{IsSorted, insert_last}
use package.rackkey.Payloads.{
  SyncInfo, serialize_entries, serialize_sync, read_entries, deserialize_sync, sync_key_length,
  size_of_size_info,
}
use package.rackkey.Payloads.Numbers.{
  num_bytes, put_nums_lem, deserialize_size-encoded, read_count-num_bytes,
}

abbrev pub KeyMap : Type 0
KeyMap = OrderedMap (List ℕ) (List ℕ)

-- An entry that the reader can read: a key of 50 bytes, numbers and their count in 32 bits.
pub record FitsEntry (entry : List ℕ × List ℕ) : Type 0 where
  pub key_length : length entry.0 ≡ sync_key_length
  pub count : IsU32 (length entry.1)
  pub nums : All IsU32 entry.1

abbrev entry_bytes : List ℕ × List ℕ → List ℕ
entry_bytes (key, nums) = key ++ (u32_bytes (length nums) ++ num_bytes nums)

abbrev map_bytes : KeyMap → List ℕ
map_bytes [] = []
map_bytes (e ∷ m) = entry_bytes e ++ map_bytes m

serialize_entries_lem :
    (m : KeyMap) (buffer : List ℕ)
    → All FitsEntry m
    → serialize_entries m buffer ≡ buffer ++ map_bytes m
unfolding serialize_entries
serialize_entries_lem [] buffer f = sym (append-nil buffer)
serialize_entries_lem ((key, nums) ∷ m) buffer f =
    let u : u32 (length nums) ≡ length nums = omega (arith, f.0.count) in
    serialize_entries_lem m _ f.1 ∙ rw (put_nums_lem, u) (simp append_assoc)

read_entry :
    (fuel : ℕ) (acc m : KeyMap) (key nums rest : List ℕ)
    → FitsEntry (key, nums)
    → IsSorted (acc ++ (key, nums) ∷ m)
    → size_of_size_info ≤ length rest
    → read_entries (suc fuel) acc (entry_bytes (key, nums) ++ rest)
      ≡ read_entries fuel (acc ++ (key, nums) ∷ []) rest
unfolding read_entries
read_entry fuel acc m key nums rest f s h = simp append_assoc (
    rw (
      long,
      read_entries,
      range,
      read_u32-u32_bytes (length nums) (num_bytes nums ++ rest) f.count,
      read_count-num_bytes nums rest f.nums,
      insert_last key nums acc m s,
    ))
  where
    tail : List ℕ
    tail = u32_bytes (length nums) ++ (num_bytes nums ++ rest)

    range : read_range 50 (key ++ tail) ≡ ok (key, tail)
    range = ap (λ n. read_range n (key ++ tail)) (sym f.key_length) ∙ read_range-append key tail

    long : ltb size_of_size_info (length (key ++ tail)) ≡ true
    long = ground (arith, f.key_length, length-append key tail)

read_entries-map_bytes :
    (fuel : ℕ) (acc m : KeyMap) (rest : List ℕ)
    → All FitsEntry m
    → IsSorted (acc ++ m)
    → length rest ≡ size_of_size_info
    → length m < fuel
    → read_entries fuel acc (map_bytes m ++ rest) ≡ ok (acc ++ m, rest)
unfolding read_entries
read_entries-map_bytes zero acc m rest f s h l = absurd (omega arith)
read_entries-map_bytes (suc fuel) acc [] rest f s h l =
    rw (stop, read_entries) (ap (λ t. ok (t, rest)) (sym (append-nil acc)))
  where
    stop : ltb size_of_size_info (length rest) ≡ false
    stop = ground arith
read_entries-map_bytes (suc fuel) acc ((key, nums) ∷ m) rest f s h l = rw append_assoc (
    read_entry fuel acc m key nums (map_bytes m ++ rest) f.0 s
      (omega (arith, length-append (map_bytes m) rest))
    ∙ read_entries-map_bytes fuel (acc ++ (key, nums) ∷ []) m rest f.1
        (rw (append_assoc acc ((key, nums) ∷ []) m) s) h (omega arith)
    ∙ ap (λ t. ok (t, rest)) (append_assoc acc ((key, nums) ∷ []) m))

length-map_bytes : (m : KeyMap) → length m ≤ length (map_bytes m)
length-map_bytes [] = omega arith
length-map_bytes ((key, nums) ∷ m) = omega (
  arith,
  length-map_bytes m,
  length-append (entry_bytes (key, nums)) (map_bytes m),
  length-append key (u32_bytes (length nums) ++ num_bytes nums),
  length-append (u32_bytes (length nums)) (num_bytes nums),
  length-u32_bytes (length nums),
)

-- A sync info comes back from its payload, map and sizes, when its map is in key order, its keys
-- have 50 bytes, and its numbers and sizes fit 32 bits.
pub deserialize_sync-serialize_sync :
    (info : SyncInfo)
    → IsSorted info.key_block_num_map
    → All FitsEntry info.key_block_num_map
    → IsU32 info.size_info.data_used_size
    → IsU32 info.size_info.data_total_size
    → deserialize_sync (serialize_sync info []) ≡ ok info
unfolding serialize_sync deserialize_sync
deserialize_sync-serialize_sync info s f u t = rw whole (
    rw (
      read_entries-map_bytes (length (map_bytes m ++ sizes) + 1) [] m sizes f s eight enough,
      (==_iff (length sizes) size_of_size_info).1 eight,
      deserialize_size-encoded info.size_info u t,
    ))
  where
    m : KeyMap
    m = info.key_block_num_map

    sizes : List ℕ
    sizes = u32_bytes info.size_info.data_used_size ++ u32_bytes info.size_info.data_total_size

    eight : length sizes ≡ size_of_size_info
    eight = unfold u32_bytes in refl

    whole : serialize_sync info [] ≡ map_bytes m ++ sizes
    whole = rw (serialize_entries_lem m [] f) (append_assoc (map_bytes m) _ _)

    enough : length m < length (map_bytes m ++ sizes) + 1
    enough = omega (arith, length-append (map_bytes m) sizes, length-map_bytes m)

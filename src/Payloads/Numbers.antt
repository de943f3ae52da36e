-- ===== src/Payloads/Numbers.antt =====
-- Lists of block numbers and size infos survive the buffer.
use rackkey.Common.{
  ℕ, zero, suc, ◌+◌, ◌≤◌, ◌≡◌, refl, sym, ◌∙◌, arith, List, [], ◌∷◌, ◌++◌, append-nil, append_assoc,
  IsU32, length, All,
}
use rackkey.Common.Results.{ok}
use rackkey.ByteBuffer.{u32_bytes, read_u32-u32_bytes}
use package.rackkey.Payloads.{
  BlockNumList, put_nums, serialize_nums, read_nums, deserialize_nums, SizeInfo, serialize_size,
  deserialize_size, read_count,
}

-- The four bytes of each number.
abbrev pub num_bytes : List ℕ → List ℕ
num_bytes [] = []
num_bytes (n ∷ nums) = u32_bytes n ++ num_bytes nums

pub put_nums_lem : (nums buffer : List ℕ) → put_nums nums buffer ≡ buffer ++ num_bytes nums
unfolding put_nums
put_nums_lem [] buffer = sym (append-nil buffer)
put_nums_lem (n ∷ nums) buffer =
    put_nums_lem nums (buffer ++ u32_bytes n) ∙ append_assoc buffer (u32_bytes n) (num_bytes nums)

pub length-num_bytes :
    (nums : List ℕ)
    → length (num_bytes nums) ≡ length nums + length nums + length nums + length nums
unfolding u32_bytes
length-num_bytes [] = refl
length-num_bytes (n ∷ nums) = omega (arith, length-num_bytes nums)

pub read_nums-num_bytes :
    (fuel : ℕ) (nums : List ℕ)
    → All IsU32 nums
    → length nums ≤ fuel
    → read_nums fuel (num_bytes nums) ≡ ok nums
unfolding read_nums u32_bytes
read_nums-num_bytes fuel [] v h = refl
read_nums-num_bytes zero (n ∷ nums) v h = absurd (omega arith)
read_nums-num_bytes (suc fuel) (n ∷ nums) v h =
    rw (read_u32-u32_bytes n (num_bytes nums) v.0, read_nums-num_bytes fuel nums v.1 (omega arith))

-- Any list of 32-bit block numbers comes back from its payload.
pub deserialize_nums-serialize_nums :
    (bnl : BlockNumList)
    → All IsU32 bnl.block_nums
    → deserialize_nums (serialize_nums bnl []) ≡ ok bnl
unfolding serialize_nums deserialize_nums
deserialize_nums-serialize_nums bnl v = rw (
  put_nums_lem,
  read_nums-num_bytes (length (num_bytes bnl.block_nums)) bnl.block_nums v
      (omega (arith, length-num_bytes bnl.block_nums)),
)

pub deserialize_size-encoded :
    (info : SizeInfo)
    → IsU32 info.data_used_size
    → IsU32 info.data_total_size
    → deserialize_size (u32_bytes info.data_used_size ++ u32_bytes info.data_total_size) ≡ ok info
unfolding deserialize_size
deserialize_size-encoded info u t = rw (read_u32-u32_bytes info.data_used_size _ u) (
    rw (← append-nil (u32_bytes info.data_total_size))
      (rw (read_u32-u32_bytes info.data_total_size [] t)))

-- A size info whose sizes fit 32 bits comes back from its payload.
pub deserialize_size-serialize_size :
    (info : SizeInfo)
    → IsU32 info.data_used_size
    → IsU32 info.data_total_size
    → deserialize_size (serialize_size info []) ≡ ok info
unfolding serialize_size
deserialize_size-serialize_size = deserialize_size-encoded

pub read_count-num_bytes :
    (nums rest : List ℕ)
    → All IsU32 nums
    → read_count (length nums) (num_bytes nums ++ rest) ≡ ok (nums, rest)
unfolding read_count
read_count-num_bytes [] rest v = refl
read_count-num_bytes (n ∷ nums) rest v =
    rw append_assoc
      (rw (read_u32-u32_bytes n (num_bytes nums ++ rest) v.0, read_count-num_bytes nums rest v.1))

-- ===== src/DiskStorage/Contents.antt =====
-- The bytes of a key's section: what `writeBlocks` lays down, `readBlocks` and `getBlockNums` take
-- apart again.
use rackkey.Common.{
  ℕ, zero, suc, ◌+◌, ◌^◌, ◌≤◌, ◌<◌, ◌≡◌, refl, sym, ◌∙◌, arith, min, List, [], ◌∷◌, ◌++◌,
  append-nil, append_assoc, u32, IsU32, length, length-append, take-append_self, drop-append_self,
  take_all, drop_all,
}
use rackkey.Common.Results.{ok}
use rackkey.ByteBuffer.{u32_bytes, read_u32-u32_bytes}
use rackkey.Block.{Block}
use package.rackkey.DiskStorage.Reading.{read_numbered, split_blocks}
use package.rackkey.DiskStorage.Updating.{total_bytes, copy_blocks}

-- A block as the storage node is given it: of this key, sized right, numbered in 32 bits.
pub record IsStorable (key : List ℕ) (block : Block) : Type 0 where
  pub of_key : block.key ≡ key
  pub sized : block.data_size ≡ length block.bytes
  pub num_fits : IsU32 block.block_num

-- Every block is storable, every block but the last is full, and the last is no longer.
abbrev pub AreStorable : List ℕ → ℕ → List Block → Type 0
AreStorable key size [] = Unit {0}
AreStorable key size (block ∷ []) = IsStorable key block × (length block.bytes ≤ size)
AreStorable key size (block ∷ next ∷ blocks) =
    IsStorable key block × (length block.bytes ≡ size) × AreStorable key size (next ∷ blocks)

abbrev pub section_bytes : List Block → List ℕ
section_bytes [] = []
section_bytes (block ∷ blocks) = u32_bytes block.block_num ++ (block.bytes ++ section_bytes blocks)

copy_blocks_from :
    (blocks : List Block) (buffer : List ℕ)
    → copy_blocks blocks buffer ≡ buffer ++ section_bytes blocks
unfolding copy_blocks
copy_blocks_from [] buffer = sym (append-nil buffer)
copy_blocks_from (block ∷ blocks) buffer = copy_blocks_from blocks _ ∙ simp append_assoc

pub copy_blocks_lem : (blocks : List Block) → copy_blocks blocks [] ≡ section_bytes blocks
copy_blocks_lem blocks = copy_blocks_from blocks []

head_sized :
    (key : List ℕ) (size : ℕ) (block : Block) (blocks : List Block)
    → AreStorable key size (block ∷ blocks)
    → IsStorable key block × AreStorable key size blocks
head_sized key size block [] s = (s.0, tt)
head_sized key size block (next ∷ blocks) s = (s.0, s.2)

length_section :
    (block : Block) (blocks : List Block)
    → length (section_bytes (block ∷ blocks))
      ≡ length block.bytes + length (section_bytes blocks) + 4
unfolding u32_bytes
length_section block blocks = omega (arith, length-append block.bytes (section_bytes blocks))

total_bytes_from :
    (key : List ℕ) (size : ℕ) (blocks : List Block) (total : ℕ)
    → AreStorable key size blocks
    → total + length (section_bytes blocks) < 2 ^ 32
    → total_bytes blocks total ≡ total + length (section_bytes blocks)
unfolding total_bytes
total_bytes_from key size [] total s h = omega arith
total_bytes_from key size (block ∷ blocks) total s h =
    let p = head_sized key size block blocks s in
    let len = length_section block blocks in
    let e : u32 (u32 (total + 4) + block.data_size) ≡ total + 4 + length block.bytes =
      omega (arith, len, p.0.sized) in
    rw e (
      total_bytes_from key size blocks (total + 4 + length block.bytes) p.1 (omega (arith, len))
      ∙ omega (arith, len))

-- The number of bytes that `writeBlocks` counts is that of the buffer it copies.
pub total_bytes_lem :
    (key : List ℕ) (size : ℕ) (blocks : List Block)
    → AreStorable key size blocks
    → length (section_bytes blocks) < 2 ^ 32
    → total_bytes blocks 0 ≡ length (section_bytes blocks)
total_bytes_lem key size blocks s h =
    total_bytes_from key size blocks 0 s (omega arith) ∙ omega arith

-- What a round takes from a section: the block's number and data, and the rest.
read_numbered_lem :
    (key : List ℕ) (size : ℕ) (block : Block) (blocks : List Block)
    → AreStorable key size (block ∷ blocks)
    → read_numbered size (section_bytes (block ∷ blocks))
      ≡ ok (block.block_num, block.bytes, section_bytes blocks)
unfolding read_numbered
read_numbered_lem key size block [] s =
    let e : min size (length block.bytes) ≡ length block.bytes = omega (arith, s.1) in
    rw (read_u32-u32_bytes block.block_num (block.bytes ++ []) s.0.num_fits, append-nil block.bytes)
      (rw (e, take_all (length block.bytes) block.bytes (omega arith), drop_all block.bytes))
read_numbered_lem key size block (next ∷ blocks) s =
    let rest = section_bytes (next ∷ blocks) in
    let e : min size (length (block.bytes ++ rest)) ≡ length block.bytes =
      omega (arith, s.1, length-append block.bytes rest) in
    rw (read_u32-u32_bytes block.block_num (block.bytes ++ rest) s.0.num_fits)
      (rw (e, take-append_self block.bytes rest, drop-append_self block.bytes rest))

pub split_blocks-section_bytes :
    (fuel : ℕ) (key : List ℕ) (size : ℕ) (blocks : List Block)
    → AreStorable key size blocks
    → length (section_bytes blocks) ≤ fuel
    → split_blocks fuel key size (section_bytes blocks) ≡ ok blocks
unfolding split_blocks u32_bytes
split_blocks-section_bytes fuel key size [] s h = refl
split_blocks-section_bytes zero key size (block ∷ blocks) s h =
    absurd (omega (arith, length_section block blocks))
split_blocks-section_bytes (suc fuel) key size (block ∷ blocks) s h =
    let p = head_sized key size block blocks s in
    rw (read_numbered_lem key size block blocks s) (
      rw
        (split_blocks-section_bytes fuel key size blocks p.1
          (omega (arith, length_section block blocks)))
        (cc (p.0.of_key, p.0.sized)))

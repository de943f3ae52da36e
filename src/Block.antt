-- ===== src/Block.antt =====
-- src/shared/block.cpp and block.hpp: the blocks that master and storage nodes exchange.
-- A block's data range [dataStart, dataEnd) is the list of the bytes in it.
pub mod RoundTrip
mod Examples
use rackkey.Common.{
  ℕ, zero, suc, ◌+◌, ◌-◌, ◌<◌, List, [], ◌∷◌, ◌++◌, Bool, true, false, ◌&&◌, ltb, ◌==◌, list_beq,
  if◌then◌else◌, u32, length, take, drop, min,
}
use rackkey.Common.Results.{Result, ok, fault, ◌>>=◌}
use rackkey.ByteBuffer.{u32_bytes, read_u32, read_range}

pub record Block : Type 0 where
  pub key : List ℕ
  pub block_num : ℕ
  pub data_size : ℕ
  pub bytes : List ℕ

-- The block's fields behind what the output buffer holds: the key with its size, the block's
-- number, the size of its data, the data.
unfoldable pub serialize : Block → List ℕ → List ℕ
serialize block output_buffer =
    output_buffer
    ++ (u32_bytes (u32 (length block.key))
        ++ (block.key ++ (u32_bytes block.block_num ++ (u32_bytes block.data_size ++ block.bytes))))

-- One round of the loop in `deserialize`: a block, and the rest of the buffer.
unfoldable pub read_block : List ℕ → Result (Block × List ℕ)
read_block it = do
  (key_size, it) ← read_u32 it
  (key, it) ← read_range key_size it
  (block_num, it) ← read_u32 it
  (data_size, it) ← read_u32 it
  (bytes, it) ← read_range data_size it
  ok (record { key = key; block_num = block_num; data_size = data_size; bytes = bytes }, it)

-- A round takes 12 bytes at least, so the buffer's size bounds the rounds.
unfoldable pub read_blocks : ℕ → List ℕ → Result (List Block)
read_blocks fuel [] = ok []
read_blocks zero (b ∷ it) = fault
read_blocks (suc fuel) (b ∷ it) = do
  (block, it) ← read_block (b ∷ it)
  blocks ← read_blocks fuel it
  ok (block ∷ blocks)

unfoldable pub deserialize : List ℕ → Result (List Block)
deserialize input_buffer = read_blocks (length input_buffer) input_buffer

unfoldable pub equals : Block → Block → Bool
equals block other =
    if list_beq block.key other.key
      && block.block_num == other.block_num
      && block.data_size == other.data_size
    then (if length block.bytes == length other.bytes
        then list_beq block.bytes other.bytes
        else false)
    else false

-- `for (auto block : blocks) block.serialize(payloadBuffer);`, as both servers do.
unfoldable pub serialize_all : List Block → List ℕ → List ℕ
serialize_all [] output_buffer = output_buffer
serialize_all (block ∷ blocks) output_buffer = serialize_all blocks (serialize block output_buffer)

-- ===== src/Block/RoundTrip.antt =====
-- Blocks survive the buffer, and a block equals only itself.
use rackkey.Common.{
  ℕ, zero, suc, ◌+◌, ◌≤◌, ◌<◌, ◌≡◌, refl, sym, ap, ◌∙◌, arith, List, [], ◌∷◌, ◌++◌, append-nil,
  append_assoc, true, list_beq_sound, list_beq_refl, u32, IsU32, length, length-append, All, ◌↔◌,
}
use rackkey.Common.Results.{ok, ◌>>=◌}
use rackkey.ByteBuffer.{u32_bytes, read_range, read_u32-u32_bytes, read_range-append}
use package.rackkey.Block.{
  Block, serialize, read_block, read_blocks, deserialize, equals, serialize_all,
}

-- The sizes fit their fields, and the declared size is that of the data.
pub record IsValid (block : Block) : Type 0 where
  pub key_fits : IsU32 (length block.key)
  pub num_fits : IsU32 block.block_num
  pub size_fits : IsU32 block.data_size
  pub sized : block.data_size ≡ length block.bytes

-- A block's own bytes.
abbrev pub encoding : Block → List ℕ
encoding block = serialize block []

serialize-append :
    (block : Block) (buffer : List ℕ) → serialize block buffer ≡ buffer ++ encoding block
unfolding serialize
serialize-append block buffer = refl

read_block-encoding :
    (block : Block) (rest : List ℕ)
    → IsValid block
    → read_block (encoding block ++ rest) ≡ ok (block, rest)
unfolding serialize read_block
read_block-encoding block rest v =
    simp (append_assoc, u_key)
      (rw (
        read_u32-u32_bytes (length block.key) _ v.key_fits,
        read_range-append block.key _,
        read_u32-u32_bytes block.block_num _ v.num_fits,
        read_u32-u32_bytes block.data_size _ v.size_fits,
        range,
      ))
  where
    u_key : u32 (length block.key) ≡ length block.key
    u_key = omega (arith, v.key_fits)

    range : read_range block.data_size (block.bytes ++ rest) ≡ ok (block.bytes, rest)
    range =
        ap (λ n. read_range n (block.bytes ++ rest)) v.sized ∙ read_range-append block.bytes rest

-- A block's encoding has 12 bytes and the key and the data.
pub length-encoding :
    (block : Block) → length (encoding block) ≡ length block.key + length block.bytes + 12
unfolding serialize u32_bytes
length-encoding block = omega (
  arith,
  length-append block.key (u32_bytes block.block_num ++ (u32_bytes block.data_size ++ block.bytes)),
)

abbrev pub encodings : List Block → List ℕ
encodings [] = []
encodings (block ∷ blocks) = encoding block ++ encodings blocks

pub serialize_all_lem :
    (blocks : List Block) (buffer : List ℕ)
    → serialize_all blocks buffer ≡ buffer ++ encodings blocks
unfolding serialize_all
serialize_all_lem [] buffer = sym (append-nil buffer)
serialize_all_lem (block ∷ blocks) buffer =
    serialize_all_lem blocks (serialize block buffer)
    ∙ ap (λ t. t ++ encodings blocks) (serialize-append block buffer)
    ∙ append_assoc buffer (encoding block) (encodings blocks)

long :
    (block : Block) (blocks : List Block)
    → length (encodings blocks) + 12 ≤ length (encoding block ++ encodings blocks)
long block blocks =
    omega (arith, length-append (encoding block) (encodings blocks), length-encoding block)

read_blocks_step :
    (fuel : ℕ) (buffer : List ℕ) {block : Block} {rest : List ℕ}
    → 0 < length buffer
    → read_block buffer ≡ ok (block, rest)
    → read_blocks (suc fuel) buffer ≡ (read_blocks fuel rest >>= λ blocks. ok (block ∷ blocks))
unfolding read_blocks
read_blocks_step fuel [] h e = absurd (omega arith)
read_blocks_step fuel (b ∷ buffer) h e = rw e

read_blocks-encodings :
    (fuel : ℕ) (blocks : List Block)
    → All IsValid blocks
    → length (encodings blocks) ≤ fuel
    → read_blocks fuel (encodings blocks) ≡ ok blocks
unfolding read_blocks
read_blocks-encodings fuel [] v h = refl
read_blocks-encodings zero (block ∷ blocks) v h = absurd (omega (arith, long block blocks))
read_blocks-encodings (suc fuel) (block ∷ blocks) v h =
    read_blocks_step fuel (encoding block ++ encodings blocks) (omega (arith, long block blocks))
      (read_block-encoding block (encodings blocks) v.0)
    ∙ rw (read_blocks-encodings fuel blocks v.1 (omega (arith, long block blocks)))

-- Any blocks whose sizes fit come back from the buffer that they were serialized into, in order
-- and whole.
pub deserialize-serialize_all :
    (blocks : List Block) → All IsValid blocks → deserialize (serialize_all blocks []) ≡ ok blocks
unfolding deserialize
deserialize-serialize_all blocks v =
    rw serialize_all_lem (read_blocks-encodings (length (encodings blocks)) blocks v (omega arith))

-- `equals` holds of two blocks exactly when they agree in every field and every byte.
pub equals_iff : (block other : Block) → (equals block other ≡ true) ↔ (block ≡ other)
unfolding equals
equals_iff block other = (
  λ h. ground (arith, list_beq_sound block.key other.key, list_beq_sound block.bytes other.bytes),
  λ e. rw e (ground (arith, list_beq_refl other.key, list_beq_refl other.bytes)),
)

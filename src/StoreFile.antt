-- ===== src/StoreFile.antt =====
-- The store file as `std::fstream` shows it: a size, a byte at every offset, reads that fail past
-- the end, writes that extend the file. Bytes that were never written are zero.
pub mod Laws
use rackkey.Common.{
  ℕ, zero, suc, ◌+◌, ◌-◌, max, List, [], ◌∷◌, Bool, ◌==◌, true, false, ◌&&◌, ◌||◌, not, Option,
  none, some, ltb, leb, if◌then◌else◌, length, get_or,
}

pub record StoreFile : Type 0 where
  pub size : ℕ
  pub byte_at : ℕ → ℕ

-- A file of `size` null bytes.
abbrev pub blank : ℕ → StoreFile
blank size = record { size = size; byte_at = λ _. 0 }

abbrev pub range : (ℕ → ℕ) → ℕ → ℕ → List ℕ
range byte_at offset zero = []
range byte_at offset (suc n) = byte_at offset ∷ range byte_at (suc offset) n

-- `seekg(offset); read(buffer, n)`, with the stream's state afterwards: `none` if it failed.
unfoldable pub read_at : StoreFile → ℕ → ℕ → Option (List ℕ)
read_at f offset n =
    if n == 0 || leb (offset + n) f.size then some (range f.byte_at offset n) else none

-- `seekp(offset); write(bytes)`
unfoldable pub write_at : StoreFile → ℕ → List ℕ → StoreFile
write_at f offset bytes = record {
  size = if ltb 0 (length bytes) then max f.size (offset + length bytes) else f.size;
  byte_at = λ i.
      if leb offset i && ltb i (offset + length bytes)
      then get_or bytes (i - offset) 0
      else f.byte_at i;
}

-- What the operating system answers to one use of the stream: whether the file can be opened, and
-- whether the device carries the transfer out.
pub record Io : Type 0 where
  pub opens : Bool
  pub transfers : Bool

abbrev pub healthy : Io
healthy = record { opens = true; transfers = true }

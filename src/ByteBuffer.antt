-- ===== src/ByteBuffer.antt =====
-- Fields in a byte buffer, as the program copies them by `memcpy` and by iterator ranges. A
-- `uint32_t` is four bytes, the lowest first (the byte order of the machines it is built for).
-- To read past the end of the buffer is a `fault`.
use rackkey.Common.{
  ℕ, ◌+◌, ◌*◌, ◌/◌, ◌%◌, ◌≡◌, refl, arith, List, [], ◌∷◌, ◌++◌, true, leb, IsU32, length, take,
  drop, take-append_self, drop-append_self, length-append, if◌then◌else◌,
}
use rackkey.Common.Results.{Result, ok, fault}

unfoldable pub u32_bytes : ℕ → List ℕ
u32_bytes x = x % 256 ∷ x / 256 % 256 ∷ x / 65536 % 256 ∷ x / 16777216 % 256 ∷ []

unfoldable pub read_u32 : List ℕ → Result (ℕ × List ℕ)
read_u32 (a ∷ b ∷ c ∷ d ∷ rest) = ok (a + b * 256 + c * 65536 + d * 16777216, rest)
read_u32 _ = fault

-- The range `[it, it + n)`, and the buffer behind it.
unfoldable pub read_range : ℕ → List ℕ → Result (List ℕ × List ℕ)
read_range n buffer = if leb n (length buffer) then ok (take n buffer, drop n buffer) else fault

pub length-u32_bytes : (x : ℕ) → length (u32_bytes x) ≡ 4
unfolding u32_bytes
length-u32_bytes x = refl

pub read_u32-u32_bytes :
    (x : ℕ) (rest : List ℕ) → IsU32 x → read_u32 (u32_bytes x ++ rest) ≡ ok (x, rest)
unfolding u32_bytes read_u32
read_u32-u32_bytes x rest h = ground arith

pub read_range-append : (xs rest : List ℕ) → read_range (length xs) (xs ++ rest) ≡ ok (xs, rest)
unfolding read_range
read_range-append xs rest =
    let t : leb (length xs) (length (xs ++ rest)) ≡ true = ground (arith, length-append xs rest) in
    rw (t, take-append_self xs rest, drop-append_self xs rest)

-- What a read leaves is shorter by what it took.
pub read_u32_rest :
    (buffer : List ℕ) {x : ℕ} {rest : List ℕ}
    → read_u32 buffer ≡ ok (x, rest)
    → length buffer ≡ length rest + 4
unfolding read_u32
read_u32_rest (a ∷ b ∷ c ∷ d ∷ r) h = ground arith
read_u32_rest [] h = ground arith
read_u32_rest (a ∷ []) h = ground arith
read_u32_rest (a ∷ b ∷ []) h = ground arith
read_u32_rest (a ∷ b ∷ c ∷ []) h = ground arith

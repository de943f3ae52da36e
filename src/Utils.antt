-- ===== src/Utils.antt =====
-- src/shared/utils.cpp: arithmetic, fixed-size keys and request paths and printed text.
pub mod Laws
pub mod NumBytes
mod Examples
use rackkey.Common.{
  ℕ, zero, suc, ◌+◌, ◌-◌, ◌/◌, ◌%◌, ◌^◌, List, [], ◌∷◌, ◌++◌, Bool, true, false, Option, none, some,
  ltb, leb, ◌==◌, if◌then◌else◌, u32, length, take, drop, replicate,
}

-- `(numerator + denominator - 1) / denominator` on `uint32_t`. A denominator of 0 is undefined in
-- C++; the theorems suppose that it is positive.
unfoldable pub ceil_div : ℕ → ℕ → ℕ
ceil_div numerator denominator = u32 (u32 (numerator + denominator) + (2 ^ 32 - 1)) / denominator

-- `s.resize(size, '\0')`
unfoldable pub fixed_size : List ℕ → ℕ → List ℕ
fixed_size s size = take size s ++ replicate (size - length s) 0

-- The erase-remove idiom: each null byte goes, the others keep their order.
unfoldable pub remove_null_chars : List ℕ → List ℕ
remove_null_chars [] = []
remove_null_chars (c ∷ s) = let rest = remove_null_chars s in if c == 0 then rest else c ∷ rest

unfoldable pub flatten : List (List ℕ) → List ℕ
flatten [] = []
flatten (v ∷ vs) = v ++ flatten vs

abbrev pub slash : ℕ
slash = b'/'

-- `find_last_of('/')`; `pos` is the index of the first byte of the list.
find_last_slash : List ℕ → ℕ → Option ℕ → Option ℕ
find_last_slash [] pos found = found
find_last_slash (c ∷ s) pos found =
    find_last_slash s (pos + 1) (if c == slash then some pos else found)

-- `cleanUri[cleanUri.size() - 1] == '/'`. On an empty uri the source reads a byte before the
-- text; a request's path is never empty, and here the test fails.
ends_with_slash : List ℕ → Bool
ends_with_slash [] = false
ends_with_slash (c ∷ []) = c == slash
ends_with_slash (c ∷ d ∷ s) = ends_with_slash (d ∷ s)

strip_slash : List ℕ → List ℕ
unfolding ends_with_slash
strip_slash uri = if ends_with_slash uri then take (length uri - 1) uri else uri

split_at : List ℕ → Option ℕ → List ℕ × List ℕ
split_at uri none = (uri, [])
split_at uri (some zero) = (uri, [])
split_at uri (some (suc pos)) = (take (suc pos) uri, drop (suc pos + 1) uri)

-- The `{path, param}` pair of a uri. The prefix before a slash at a positive index is never empty,
-- so the source's test `prefix.empty()` does not show here.
unfoldable pub parse_path : List ℕ → List ℕ × List ℕ
unfolding strip_slash find_last_slash split_at
parse_path uri =
    let clean_uri = strip_slash uri in split_at clean_uri (find_last_slash clean_uri 0 none)

-- `text` centred in a field of `width` bytes; a longer text is cut.
unfoldable pub center_text : List ℕ → ℕ → List ℕ
center_text text width =
    let size = length text in
    if ltb width size
    then take width text
    else let padding = (width - size) / 2 in
      let extra = (width - size) % 2 in
      replicate padding b' ' ++ (text ++ replicate (padding + extra) b' ')

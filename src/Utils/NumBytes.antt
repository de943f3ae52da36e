-- ===== src/Utils/NumBytes.antt =====
-- `PrintUtils::formatNumBytes` of src/shared/utils.cpp.
use rackkey.Common.{
  ℕ, zero, suc, ◌+◌, ◌*◌, ◌/◌, ◌%◌, List, [], ◌∷◌, ◌++◌, ltb, leb, if◌then◌else◌, to_string, codes,
}

suffix : ℕ → List ℕ
suffix zero = codes "bytes"
suffix (suc zero) = codes "KB"
suffix (suc (suc zero)) = codes "MB"
suffix (suc (suc (suc zero))) = codes "GB"
suffix (suc (suc (suc (suc zero)))) = codes "TB"
suffix (suc (suc (suc (suc (suc i))))) = codes "PB"

-- The loop `while (size >= 1024 && suffixIndex < 5)`, with `left` rounds before the index is 5. The
-- double `size` is the fraction `bytes / divisor`: below 2 ^ 53 bytes it is exact. The divisor and the
-- index come back.
unfoldable pub scale : ℕ → ℕ → ℕ → ℕ → ℕ × ℕ
scale zero bytes divisor index = (divisor, index)
scale (suc left) bytes divisor index =
    let larger = scale left bytes (divisor * 1024) (index + 1) in
    if leb (divisor * 1024) bytes then larger else (divisor, index)

-- The nearest whole number to `n / d`, and of two equally near ones the even one.
unfoldable pub round_half_even : ℕ → ℕ → ℕ
round_half_even n d =
    let q = n / d in if ltb (n % d * 2) d then q else if ltb d (n % d * 2) then q + 1 else q + q % 2

-- `std::fixed` with a precision of 2, from the number of hundredths.
hundredths_text : ℕ → List ℕ
unfolding to_string
hundredths_text n = to_string (n / 100) ++ (b'.' ∷ (b'0' + n / 10 % 10) ∷ (b'0' + n % 10) ∷ [])

num_bytes_text : ℕ → ℕ × ℕ → List ℕ
unfolding round_half_even hundredths_text suffix
num_bytes_text bytes (divisor, index) =
    hundredths_text (round_half_even (bytes * 100) divisor) ++ (b' ' ∷ suffix index)

unfoldable pub format_num_bytes : ℕ → List ℕ
unfolding scale num_bytes_text
format_num_bytes bytes = num_bytes_text bytes (scale 5 bytes 1 0)

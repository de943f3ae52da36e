-- ===== src/Common/Text.antt =====
-- Texts as byte strings: a literal, which is ASCII here, and a printed number.
use Prim.Native.Nat.{ℕ, zero, suc, ◌+◌, ◌/◌, ◌%◌}
use Prim.Native.Char.{code}
use Prim.Native.String.{String}
use mathlib.Core.List.{List, [], ◌∷◌, ◌++◌}
use package.rackkey.Common.Tests.{ltb, if◌then◌else◌}

abbrev pub codes : String → List ℕ
codes String.[] = []
codes (String.◌∷◌ c s) = code c ∷ codes s

-- `std::to_string` of a number of at most `fuel` decimal digits.
unfoldable pub digits : ℕ → ℕ → List ℕ
digits zero n = []
digits (suc fuel) n =
    let last = (b'0' + n % 10) ∷ [] in
    let front = digits fuel (n / 10) in if ltb n 10 then last else front ++ last

-- A 64-bit number has at most 20 digits.
unfoldable pub to_string : ℕ → List ℕ
unfolding digits
to_string n = digits 20 n

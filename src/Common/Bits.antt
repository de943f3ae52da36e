-- ===== src/Common/Bits.antt =====
-- The binary digits of a number, and what `|`, `&`, `~` and `<<` do to them.
use Prim.Native.Nat.{bit_and, bit_or, digits, bit_and-bitwise, bit_or-bitwise}
use Prim.Native.Nat.{ℕ, zero, suc, ◌+◌, ◌-◌, ◌*◌, ◌/◌, ◌%◌, ◌^◌, ◌≤◌, ◌<◌, min, max}
use mathlib.Core.Path.{◌≡◌, refl, ap, ◌∙◌}
use native.Mathlib.Omega.{arith}
use native.Mathlib.Nat.{pow-suc, one-le-pow, div-div-eq-div-mul, mul_comm}

-- Digit `j` of `x`: 0 or 1.
unfoldable pub bit : ℕ → ℕ → ℕ
bit x zero = x % 2
bit x (suc j) = bit (x / 2) j

pub bit-le-one : (x j : ℕ) → bit x j ≤ 1
unfolding bit
bit-le-one x zero = omega arith
bit-le-one x (suc j) = bit-le-one (x / 2) j

pub zero-bit : (j : ℕ) → bit 0 j ≡ 0
unfolding bit
zero-bit zero = refl
zero-bit (suc j) = zero-bit j

-- The digit recursion that the native operations stand for does not depend on its fuel.
module _ (rest : ℕ → ℕ) (op : ℕ → ℕ → ℕ) where
  more_fuel : (m n a b : ℕ) → a ≤ m → a ≤ n → digits rest op m a b ≡ digits rest op n a b
  more_fuel zero zero a b p q = refl
  more_fuel zero (suc n) zero b p q = refl
  more_fuel zero (suc n) (suc a) b p q = absurd (omega arith)
  more_fuel (suc m) zero zero b p q = refl
  more_fuel (suc m) zero (suc a) b p q = absurd (omega arith)
  more_fuel (suc m) (suc n) zero b p q = refl
  more_fuel (suc m) (suc n) (suc a) b p q =
      ap (λ t. t * 2 + op (suc a % 2) (b % 2))
        (more_fuel m n (suc a / 2) (b / 2) (omega arith) (omega arith))

bit_or_unfold : (a b : ℕ) → bit_or a b ≡ bit_or (a / 2) (b / 2) * 2 + max (a % 2) (b % 2)
bit_or_unfold zero b = omega (arith, bit_or-bitwise 0 b, bit_or-bitwise 0 (b / 2))
bit_or_unfold (suc a) b = omega (
  arith,
  bit_or-bitwise (suc a) b,
  bit_or-bitwise (suc a / 2) (b / 2),
  more_fuel (λ y. y) max a (suc a / 2) (suc a / 2) (b / 2) (omega arith) (omega arith),
)

bit_and_unfold : (a b : ℕ) → bit_and a b ≡ bit_and (a / 2) (b / 2) * 2 + min (a % 2) (b % 2)
bit_and_unfold zero b = omega (arith, bit_and-bitwise 0 b, bit_and-bitwise 0 (b / 2))
bit_and_unfold (suc a) b = omega (
  arith,
  bit_and-bitwise (suc a) b,
  bit_and-bitwise (suc a / 2) (b / 2),
  more_fuel (λ y. 0) min a (suc a / 2) (suc a / 2) (b / 2) (omega arith) (omega arith),
)

bit_and-zero : (n a : ℕ) → a ≤ n → bit_and a 0 ≡ 0
bit_and-zero n zero h = refl
bit_and-zero zero (suc a) h = absurd (omega arith)
bit_and-zero (suc n) (suc a) h =
    omega (arith, bit_and_unfold (suc a) 0, bit_and-zero n (suc a / 2) (omega arith))

bit_and_one : (a : ℕ) → bit_and a 1 ≡ a % 2
bit_and_one a = omega (arith, bit_and_unfold a 1, bit_and-zero a (a / 2) (omega arith))

halves_or : (a b : ℕ) → bit_or a b / 2 ≡ bit_or (a / 2) (b / 2)
halves_or a b = omega (arith, bit_or_unfold a b)

halves_and : (a b : ℕ) → bit_and a b / 2 ≡ bit_and (a / 2) (b / 2)
halves_and a b = omega (arith, bit_and_unfold a b)

pub bit-bit_or : (j a b : ℕ) → bit (bit_or a b) j ≡ max (bit a j) (bit b j)
unfolding bit
bit-bit_or zero a b = omega (arith, bit_or_unfold a b)
bit-bit_or (suc j) a b = ap (λ t. bit t j) (halves_or a b) ∙ bit-bit_or j (a / 2) (b / 2)

pub bit-bit_and : (j a b : ℕ) → bit (bit_and a b) j ≡ min (bit a j) (bit b j)
unfolding bit
bit-bit_and zero a b = omega (arith, bit_and_unfold a b)
bit-bit_and (suc j) a b = ap (λ t. bit t j) (halves_and a b) ∙ bit-bit_and j (a / 2) (b / 2)

mul-pow-suc : (x k : ℕ) → x * 2 ^ suc k ≡ x * 2 ^ k * 2
mul-pow-suc x k = omega (arith, ap (λ (t : ℕ). x * t) (pow-suc 2 k))

-- `x << k` has zeros below place `k`, and the digits of `x` from there on.
pub bit-shl_low : (k x j : ℕ) → j < k → bit (x * 2 ^ k) j ≡ 0
unfolding bit
bit-shl_low zero x j h = absurd (omega arith)
bit-shl_low (suc k) x zero h = omega (arith, mul-pow-suc x k)
bit-shl_low (suc k) x (suc j) h =
    let e : x * 2 ^ suc k / 2 ≡ x * 2 ^ k = omega (arith, mul-pow-suc x k) in
    ap (λ t. bit t j) e ∙ bit-shl_low k x j (omega arith)

pub bit-shl_high : (k x j : ℕ) → bit (x * 2 ^ k) (k + j) ≡ bit x j
unfolding bit
bit-shl_high zero x j =
    let e : x * 1 ≡ x = omega arith in let f : 0 + j ≡ j = omega arith in rw (e, f)
bit-shl_high (suc k) x j =
    let e : x * 2 ^ suc k / 2 ≡ x * 2 ^ k = omega (arith, mul-pow-suc x k) in
    let f : suc k + j ≡ suc (k + j) = omega arith in
    rw f (ap (λ t. bit t (k + j)) e ∙ bit-shl_high k x j)

-- `(1 << c) - 1` has ones below place `c`, and zeros from there on.
pub bit-ones_low : (c j : ℕ) → j < c → bit (2 ^ c - 1) j ≡ 1
unfolding bit
bit-ones_low zero j h = absurd (omega arith)
bit-ones_low (suc c) zero h = omega (arith, pow-suc 2 c, one-le-pow c 2)
bit-ones_low (suc c) (suc j) h =
    let e : (2 ^ suc c - 1) / 2 ≡ 2 ^ c - 1 = omega (arith, pow-suc 2 c, one-le-pow c 2) in
    ap (λ t. bit t j) e ∙ bit-ones_low c j (omega arith)

pub bit-ones_high : (c j : ℕ) → c ≤ j → bit (2 ^ c - 1) j ≡ 0
unfolding bit
bit-ones_high zero j h = zero-bit j
bit-ones_high (suc c) zero h = absurd (omega arith)
bit-ones_high (suc c) (suc j) h =
    let e : (2 ^ suc c - 1) / 2 ≡ 2 ^ c - 1 = omega (arith, pow-suc 2 c, one-le-pow c 2) in
    ap (λ t. bit t j) e ∙ bit-ones_high c j (omega arith)

-- `~x` on `k` digits.
pub bit-not : (k x j : ℕ) → x < 2 ^ k → j < k → bit (2 ^ k - 1 - x) j ≡ 1 - bit x j
unfolding bit
bit-not zero x j h l = absurd (omega arith)
bit-not (suc k) x zero h l = omega (arith, pow-suc 2 k)
bit-not (suc k) x (suc j) h l =
    let e : (2 ^ suc k - 1 - x) / 2 ≡ 2 ^ k - 1 - x / 2 = omega (arith, pow-suc 2 k) in
    ap (λ t. bit t j) e ∙ bit-not k (x / 2) j (omega (arith, pow-suc 2 k)) (omega arith)

-- The digits below 8 do not see a cut to one byte.
pub bit-byte : (x j : ℕ) → j < 8 → bit (x % 256) j ≡ bit x j
unfolding bit
bit-byte x zero h = omega arith
bit-byte x (suc zero) h = omega arith
bit-byte x (suc (suc zero)) h = omega arith
bit-byte x (suc (suc (suc zero))) h = omega arith
bit-byte x (suc (suc (suc (suc zero)))) h = omega arith
bit-byte x (suc (suc (suc (suc (suc zero))))) h = omega arith
bit-byte x (suc (suc (suc (suc (suc (suc zero)))))) h = omega arith
bit-byte x (suc (suc (suc (suc (suc (suc (suc zero))))))) h = omega arith
bit-byte x (suc (suc (suc (suc (suc (suc (suc (suc j)))))))) h = absurd (omega arith)

-- `x >> j & 1`
pub bit_and-shr : (x j : ℕ) → bit_and (x / 2 ^ j) 1 ≡ bit x j
unfolding bit
bit_and-shr x zero = let e : x / 1 ≡ x = omega arith in rw e (bit_and_one x)
bit_and-shr x (suc j) =
    let e : x / 2 ^ suc j ≡ x / 2 / 2 ^ j =
      omega (
        arith,
        div-div-eq-div-mul x 2 (2 ^ j),
        ap (λ t. x / t) (pow-suc 2 j ∙ mul_comm (2 ^ j) 2),
      ) in
    ap (λ t. bit_and t 1) e ∙ bit_and-shr (x / 2) j

-- `x & (1 << j)`
pub bit_and-pow : (j x : ℕ) → bit_and x (2 ^ j) ≡ bit x j * 2 ^ j
unfolding bit
bit_and-pow zero x = omega (arith, bit_and_one x)
bit_and-pow (suc j) x =
    let e : 2 ^ suc j / 2 ≡ 2 ^ j = omega (arith, pow-suc 2 j) in
    let f = bit_and-pow j (x / 2) in
    let g = mul-pow-suc (bit (x / 2) j) j in
    let u = ap (λ t. bit_and (x / 2) t) e in
    omega (arith, bit_and_unfold x (2 ^ suc j), f, g, u, pow-suc 2 j)

-- ===== src/FreeSpace/Bytes.antt =====
-- One byte of the bitmap: which digits the byte operations set and clear.
use Prim.Native.Nat.{bit_and, bit_or}
use native.Mathlib.Nat.{pow-suc, pow-le-pow_right, one-le-pow}
use rackkey.Common.{
  ℕ, zero, suc, ◌+◌, ◌-◌, ◌*◌, ◌^◌, ◌≤◌, ◌<◌, ◌≡◌, ap, arith, ◌&&◌, ltb, leb, if◌then◌else◌, Bool,
}
use native.Mathlib.Decide.{dec_lt}
use rackkey.Common.Bits.{
  bit, bit-le-one, bit-bit_or, bit-bit_and, bit-shl_low, bit-shl_high, bit-ones_low, bit-ones_high,
  bit-not, bit-byte,
}
use package.rackkey.FreeSpace.{mask, allocate_bits, free_bits}

abbrev pub in_section : ℕ → ℕ → ℕ → Bool
in_section start count j = leb start j && ltb j (start + count)

shl-lt_pow : (s c x : ℕ) → x < 2 ^ c → x * 2 ^ s < 2 ^ (s + c)
shl-lt_pow zero c x h = let e : 0 + c ≡ c = omega arith in rw e (omega arith)
shl-lt_pow (suc s) c x h =
    let e : suc s + c ≡ suc (s + c) = omega arith in
    rw e (omega (arith, shl-lt_pow s c x h, pow-suc 2 (s + c), ap (λ (t : ℕ). x * t) (pow-suc 2 s)))

pub mask-lt : (s c : ℕ) → s + c ≤ 8 → (2 ^ c - 1) * 2 ^ s < 256
mask-lt s c h = omega (
  arith,
  shl-lt_pow s c (2 ^ c - 1) (omega (arith, one-le-pow c 2)),
  pow-le-pow_right {n = 2} (omega arith) {i = s + c} {j = 8} h,
)

bit-mask : (s c j : ℕ) → s + c ≤ 8 → bit (mask s c) j ≡ (if in_section s c j then 1 else 0)
bit-mask s c j h = elim (dec_lt j s) [
  | yes below ↦ ground (arith, whole, bit-shl_low s (2 ^ c - 1) j below)
  | no above ↦ elim (dec_lt j (s + c)) [
    | yes l ↦ ground (arith, whole, shifted above, bit-ones_low c (j - s) (omega arith))
    | no l ↦ ground (arith, whole, shifted above, bit-ones_high c (j - s) (omega arith))
  ]
]
  where
    whole : bit (mask s c) j ≡ bit ((2 ^ c - 1) * 2 ^ s) j
    whole = ap (λ t. bit t j) (omega (arith, mask-lt s c h))

    shifted : ¬ (j < s) → bit ((2 ^ c - 1) * 2 ^ s) j ≡ bit (2 ^ c - 1) (j - s)
    shifted above =
        let e : s + (j - s) ≡ j = omega arith in rw e at (bit-shl_high s (2 ^ c - 1) (j - s))

pub bit-allocate_bits :
    (s c byte j : ℕ)
    → s + c ≤ 8
    → j < 8
    → bit (allocate_bits s c byte) j ≡ (if in_section s c j then 1 else bit byte j)
unfolding allocate_bits
bit-allocate_bits s c byte j h l = ground (
  arith,
  bit-byte (bit_or byte (mask s c)) j l,
  bit-bit_or j byte (mask s c),
  bit-mask s c j h,
  bit-le-one byte j,
)

pub bit-free_bits :
    (s c byte j : ℕ)
    → s + c ≤ 8
    → j < 8
    → bit (free_bits s c byte) j ≡ (if in_section s c j then 0 else bit byte j)
unfolding free_bits
bit-free_bits s c byte j h l = ground (
  arith,
  bit-byte (bit_and byte (2 ^ 32 - 1 - mask s c)) j l,
  bit-bit_and j byte (2 ^ 32 - 1 - mask s c),
  bit-not 32 (mask s c) j (omega arith) (omega arith),
  bit-mask s c j h,
  bit-le-one byte j,
)

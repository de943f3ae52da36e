-- ===== src/Utils/Laws.antt =====
-- What the helpers of src/shared/utils.cpp compute.
use rackkey.Common.{
  ℕ, zero, suc, ◌+◌, ◌-◌, ◌*◌, ◌/◌, ◌%◌, ◌^◌, ◌≤◌, ◌<◌, ◌≡◌, ◌≢◌, refl, ap, arith, List, [], ◌∷◌,
  ◌++◌, false, ltb, ◌==◌, Bool-cases, u32, inl, inr, length, take, replicate, All, length-append,
  length-replicate, length-take, take_all,
}
use native.Mathlib.Nat.{div-add-mod, mod-lt, mul_comm}
use package.rackkey.Utils.{ceil_div, fixed_size, remove_null_chars, center_text}

times_div : (x d : ℕ) → 0 < d → (x / d * d ≤ x) × (x < x / d * d + d)
times_div x d h = (
  omega (arith, div-add-mod x d, mul_comm d (x / d)),
  omega (arith, div-add-mod x d, mul_comm d (x / d), mod-lt x h),
)

-- Without overflow, `ceilDiv` is the least number of parts of size `d` that hold `n`.
pub ceil_div_bounds :
    (n d : ℕ) → 0 < d → n + d ≤ 2 ^ 32 → (n ≤ ceil_div n d * d) × (ceil_div n d * d < n + d)
unfolding ceil_div
ceil_div_bounds n d pos small =
    let e : u32 (u32 (n + d) + (2 ^ 32 - 1)) ≡ n + d - 1 = omega arith in
    rw e (
      omega (arith, (times_div (n + d - 1) d pos).1),
      omega (arith, (times_div (n + d - 1) d pos).0),
    )

-- Where the sum overflows, the parts that `ceilDiv` counts do not hold `n`.
pub ceil_div_overflow :
    (n d : ℕ) → 0 < d → n < 2 ^ 32 → d < 2 ^ 32 → 2 ^ 32 < n + d → ceil_div n d * d < n
unfolding ceil_div
ceil_div_overflow n d pos n_fits d_fits over =
    let e : u32 (u32 (n + d) + (2 ^ 32 - 1)) ≡ n + d - 1 - 2 ^ 32 = omega arith in
    rw e (omega (arith, (times_div (n + d - 1 - 2 ^ 32) d pos).0))

-- A fixed-size text has the size.
pub length-fixed_size : (s : List ℕ) (size : ℕ) → length (fixed_size s size) ≡ size
unfolding fixed_size
length-fixed_size s size = omega (
  arith,
  length-append (take size s) (replicate (size - length s) 0),
  length-take size s,
  length-replicate {A = ℕ} (size - length s) 0,
)

abbrev pub NoNulls : List ℕ → Type 0
NoNulls = All (λ c. c ≢ 0)

remove_null_chars-zeros : (n : ℕ) → remove_null_chars (replicate n 0) ≡ []
unfolding remove_null_chars
remove_null_chars-zeros zero = refl
remove_null_chars-zeros (suc n) = remove_null_chars-zeros n

remove_null_chars-append :
    (s : List ℕ) (n : ℕ) → NoNulls s → remove_null_chars (s ++ replicate n 0) ≡ s
unfolding remove_null_chars
remove_null_chars-append [] n h = remove_null_chars-zeros n
remove_null_chars-append (c ∷ s) n h =
    let t : (c == 0) ≡ false = ground (arith, h.0) in
    rw t (ap (λ r. c ∷ r) (remove_null_chars-append s n h.1))

-- A key without null bytes comes back from its fixed-size form, if that is long enough.
pub remove_null_chars-fixed_size :
    (s : List ℕ) (size : ℕ)
    → NoNulls s
    → length s ≤ size
    → remove_null_chars (fixed_size s size) ≡ s
unfolding fixed_size
remove_null_chars-fixed_size s size h l =
    rw (take_all size s l) (remove_null_chars-append s (size - length s) h)

-- A text no wider than the field is padded to its width, one that is wider is cut to it.
pub length-center_text : (text : List ℕ) (width : ℕ) → length (center_text text width) ≡ width
unfolding center_text
length-center_text text width = elim (Bool-cases (ltb width (length text))) [
  | inl wide ↦ rw wide (ground (arith, length-take width text))
  | inr fits ↦ rw fits (
      ground (
        arith,
        length-append (replicate pad b' ') (text ++ replicate (pad + extra) b' '),
        length-append text (replicate (pad + extra) b' '),
        length-replicate {A = ℕ} pad b' ',
        length-replicate {A = ℕ} (pad + extra) b' ',
      ))
]
  where
    pad : ℕ
    pad = (width - length text) / 2

    extra : ℕ
    extra = (width - length text) % 2

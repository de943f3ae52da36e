-- ===== src/FreeSpace/Ranges.antt =====
-- The loop over whole bytes and the two partial bytes change exactly one section of blocks.
use native.Mathlib.Decide.{dec_lt, ℕ_discrete}
use rackkey.Common.{
  ℕ, zero, suc, ◌+◌, ◌-◌, ◌*◌, ◌/◌, ◌%◌, ◌^◌, ◌≤◌, ◌<◌, ◌≡◌, ◌≢◌, refl, ap, arith, List, ltb, ◌==◌,
  ==_iff, false, if◌then◌else◌, min, u32, length, get_or, set, length-set, get_or-set_self,
  get_or-set_ne,
}
use rackkey.Common.Bits.{bit}
use rackkey.Common.Results.{Result, ok, ◌>>=◌}
use package.rackkey.FreeSpace.{update_byte, fill_bytes, cover}
use package.rackkey.FreeSpace.Bytes.{in_section}

-- 1 when block `n` is used, 0 when it is free.
abbrev pub used : List ℕ → ℕ → ℕ
used bit_map n = bit (get_or bit_map (n / 8) 0) (n % 8)

used-set :
    (bit_map : List ℕ) (i w n : ℕ)
    → i < length bit_map
    → used (set bit_map i w) n ≡ (if n / 8 == i then bit w (n % 8) else used bit_map n)
used-set bit_map i w n h = elim (ℕ_discrete i (n / 8)) [
  | yes e ↦ rw (← e) (ground (arith, ap (λ t. bit t (n % 8)) (get_or-set_self bit_map i w 0 h)))
  | no e ↦ ground (arith, ap (λ t. bit t (n % 8)) (get_or-set_ne bit_map i (n / 8) w 0 e))
]

-- The result is a bitmap of the same size, where the section's blocks have the digit `v` and the
-- others are as they were.
abbrev pub Covers : ℕ → List ℕ → ℕ → ℕ → Result (List ℕ) → Type 0
Covers v bit_map start n r =
    (after : List ℕ) × (r ≡ ok after)
    × (length after ≡ length bit_map)
    × ((k : ℕ) → used after k ≡ (if in_section start n k then v else used bit_map k))

module _ (f : ℕ → ℕ → ℕ → ℕ) (value v : ℕ)
    (part : (s c byte j : ℕ)
      → s + c ≤ 8
      → j < 8
      → bit (f s c byte) j ≡ (if in_section s c j then v else bit byte j))
    (whole : (j : ℕ) → j < 8 → bit value j ≡ v) where
  fills :
      (fuel : ℕ) (bit_map : List ℕ) (i n : ℕ)
      → n / 8 < fuel
      → i * 8 + n ≤ length bit_map * 8
      → length bit_map * 8 ≤ 2 ^ 32
      → (after : List ℕ) × (fill_bytes fuel value bit_map i n ≡ ok (after, i + n / 8, n % 8))
        × (length after ≡ length bit_map)
        × ((k : ℕ)
            → used after k ≡ (if in_section (i * 8) (n / 8 * 8) k then v else used bit_map k))
  unfolding fill_bytes
  fills zero bit_map i n h room size = absurd (omega arith)
  fills (suc fuel) bit_map i n h room size = elim (dec_lt n 8) [
    | yes small ↦ (bit_map, ground arith, refl, λ k. ground arith)
    | no big ↦
        let next = set bit_map i value in
        let len = length-set bit_map i value in
        let u : u32 (i + 1) ≡ i + 1 = omega arith in
        let (after, run, keep, change) =
          fills fuel next (i + 1) (n - 8) (omega arith) (omega (arith, len)) (omega (arith, len)) in
        (
          after,
          ground (arith, run, u),
          omega (arith, keep, len),
          λ k. ground (
            arith,
            change k,
            used-set bit_map i value k (omega arith),
            whole (k % 8) (omega arith),
          ),
        )
  ]

  -- A write to one byte.
  writes :
      (bit_map : List ℕ) (i s c : ℕ)
      → i < length bit_map
      → s + c ≤ 8
      → Covers v bit_map (i * 8 + s) c (update_byte (f s c) bit_map i)
  writes bit_map i s c h fits = (
    set bit_map i (f s c (get_or bit_map i 0)),
    ground arith,
    length-set bit_map i (f s c (get_or bit_map i 0)),
    λ k. ground (
      arith,
      used-set bit_map i (f s c (get_or bit_map i 0)) k h,
      part s c (get_or bit_map i 0) (k % 8) fits (omega arith),
    ),
  )

  -- From a byte boundary on: whole bytes, then a part of the last.
  abbrev tail_of : List ℕ → ℕ → ℕ → Result (List ℕ)
  tail_of bit_map i n = do
    (body, i, n) ← fill_bytes (n / 8 + 1) value bit_map i n
    if ltb 0 n then update_byte (f 0 n) body i else ok body

  tails :
      (bit_map : List ℕ) (i n : ℕ)
      → i * 8 + n ≤ length bit_map * 8
      → length bit_map * 8 ≤ 2 ^ 32
      → Covers v bit_map (i * 8) n (tail_of bit_map i n)
  tails bit_map i n room size =
      let (body, run, keep, change) = fills (n / 8 + 1) bit_map i n (omega arith) room size in
      elim (ℕ_discrete (n % 8) 0) [
        | yes none_left ↦ (body, rw run (ground arith), keep, λ k. ground (arith, change k))
        | no some_left ↦
            let (after, run', keep', change') =
              writes body (i + n / 8) 0 (n % 8) (omega (arith, keep)) (omega arith) in
            (
              after,
              rw run (ground (arith, run')),
              omega (arith, keep, keep'),
              λ k. ground (arith, change k, change' k),
            )
      ]

  cover_inside :
      (bit_map : List ℕ) (start n : ℕ) (head after : List ℕ)
      → start % 8 ≢ 0
      → start / 8 + 1 < 2 ^ 32
      → update_byte (f (start % 8) (min n (8 - start % 8))) bit_map (start / 8) ≡ ok head
      → tail_of head (start / 8 + 1) (n - min n (8 - start % 8)) ≡ ok after
      → cover (λ b i s c. update_byte (f s c) b i) value bit_map start n ≡ ok after
  unfolding cover
  cover_inside bit_map start n head after inside small run run' =
      let t : (start % 8 == 0) ≡ false = ground arith in
      let u : u32 (start / 8 + 1) ≡ start / 8 + 1 = omega arith in rw (t, run, u) run'

  -- The whole routine changes the blocks of the section, and no others.
  pub covers :
      (bit_map : List ℕ) (start n : ℕ)
      → start + n ≤ length bit_map * 8
      → length bit_map * 8 ≤ 2 ^ 32
      → 0 < n
      → Covers v bit_map start n (cover (λ b i s c. update_byte (f s c) b i) value bit_map start n)
  unfolding cover
  covers bit_map start n room size pos = elim (ℕ_discrete (start % 8) 0) [
    | yes aligned ↦
        let (after, run, keep, change) = tails bit_map (start / 8) n (omega arith) size in
        (after, rw ((==_iff (start % 8) 0).1 aligned) run, keep, λ k. ground (arith, change k))
    | no inside ↦
        let bits = min n (8 - start % 8) in
        let (head, run, keep, change) =
          writes bit_map (start / 8) (start % 8) bits (omega arith) (omega arith) in
        let (after, run', keep', change') =
          tails head (start / 8 + 1) (n - bits) (omega (arith, keep)) (omega (arith, keep)) in
        (
          after,
          cover_inside bit_map start n head after inside (omega arith) run run',
          omega (arith, keep, keep'),
          λ k. ground (arith, change k, change' k),
        )
  ]

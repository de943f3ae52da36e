-- ===== src/FreeSpace/Search.antt =====
-- The scan for a section of free blocks, against the blocks that the bitmap says are free.
use Prim.Native.Nat.{bit_and}
use native.Mathlib.Decide.{dec_lt, ℕ_discrete}
use native.Mathlib.Nat.{one-le-pow}
use rackkey.Common.{
  ℕ, zero, suc, ◌+◌, ◌*◌, ◌/◌, ◌%◌, ◌^◌, ◌≤◌, ◌<◌, ◌≡◌, ◌≢◌, refl, sym, ap, ◌∙◌, arith, List, [],
  ◌∷◌, true, false, ◌==◌, ==_iff, if◌then◌else◌, Bool-cases, inl, inr, Option, none, some, u32,
  length, get_or, drop, drop-cons, length-drop,
}
use rackkey.Common.Bits.{bit, bit-le-one, bit_and-pow}
use package.rackkey.FreeSpace.{Scan, found, scanning, scan_bits, scan_entries}
use package.rackkey.FreeSpace.Ranges.{used}

-- The test of the inner loop.
free_test : (byte pos : ℕ) → (bit_and byte (2 ^ pos) == 0) ≡ (bit byte pos == 0)
free_test byte pos = ground (arith, bit_and-pow pos byte, one-le-pow pos 2, bit-le-one byte pos)

-- All `n` blocks from `start` on are free.
abbrev pub AllFree : List ℕ → ℕ → ℕ → Type 0
AllFree bit_map start n = (k : ℕ) → start ≤ k → k < start + n → used bit_map k ≡ 0

-- What the loop knows before block `at`: the current section is free and ends here, and every
-- free section of `n` blocks starts at it or later.
record Invariant (bit_map : List ℕ) (n at start count : ℕ) : Type 0 where
  short : count < n
  ends : count ≢ 0 → start + count ≡ at
  fits : count ≤ at
  free : (k : ℕ) → k < at → at ≤ k + count → used bit_map k ≡ 0
  least : (s : ℕ) → AllFree bit_map s n → at ≤ s + count

-- A section is found: it is free, and no free section starts before it.
pub record Found (bit_map : List ℕ) (n at start : ℕ) : Type 0 where
  pub before : start + n ≤ at
  pub free : AllFree bit_map start n
  pub least : (s : ℕ) → AllFree bit_map s n → start ≤ s

abbrev After : List ℕ → ℕ → ℕ → Scan → Type 0
After bit_map n at (found start) = Found bit_map n at start
After bit_map n at (scanning start count) = Invariant bit_map n at start count

-- The promise of the whole scan: the first free section, or none if there is none.
abbrev pub FirstFree : List ℕ → ℕ → Option ℕ → Type 0
FirstFree bit_map n none = (s : ℕ) → AllFree bit_map s n → length bit_map * 8 < s + n
FirstFree bit_map n (some start) = Found bit_map n (length bit_map * 8) start

module _ (bit_map : List ℕ) (n : ℕ) (narrow : n < 2 ^ 32) where
  abbrev next_start : ℕ → ℕ → ℕ → ℕ
  next_start at start count = if count == 0 then u32 at else start

  longer :
      (at start count : ℕ)
      → at < 2 ^ 32
      → used bit_map at ≡ 0
      → Invariant bit_map n at start count
      → count + 1 ≢ n
      → Invariant bit_map n (at + 1) (next_start at start count) (count + 1)
  longer at start count h hit v more = record {
    short = omega (arith, v.short);
    ends = λ _. ground (arith, v.ends);
    fits = omega (arith, v.fits);
    free = λ k l m. elim (ℕ_discrete k at) [
      | yes e ↦ rw e hit
      | no e ↦ v.free k (omega arith) (omega arith)
    ];
    least = λ s all. omega (arith, v.least s all);
  }

  complete :
      (at start count : ℕ)
      → at < 2 ^ 32
      → used bit_map at ≡ 0
      → Invariant bit_map n at start count
      → count + 1 ≡ n
      → Found bit_map n (at + 1) (next_start at start count)
  complete at start count h hit v full = record {
    before = omega (arith, here);
    free = λ k l m. elim (ℕ_discrete k at) [
      | yes e ↦ rw e hit
      | no e ↦ v.free k (omega (arith, here)) (omega (arith, here))
    ];
    least = λ s all. omega (arith, here, v.least s all);
  }
    where
      here : next_start at start count + n ≡ at + 1
      here = ground (arith, v.ends)

  broken :
      (at start count : ℕ)
      → used bit_map at ≢ 0
      → Invariant bit_map n at start count
      → Invariant bit_map n (at + 1) start 0
  broken at start count miss v = record {
    short = omega (arith, v.short);
    ends = λ h. absurd (h refl);
    fits = omega arith;
    free = λ k l m. absurd (omega arith);
    least = λ s all. elim (dec_lt at s) [
      | yes above ↦ omega arith
      | no below ↦ absurd (miss (all at (omega arith) (omega (arith, v.least s all, v.short))))
    ];
  }

  -- One byte of the scan.
  scans :
      (rounds curr_entry index pos start count : ℕ)
      → pos + rounds ≡ 8
      → index * 8 + 8 ≤ 2 ^ 32
      → ((j : ℕ) → j < 8 → bit curr_entry j ≡ used bit_map (index * 8 + j))
      → Invariant bit_map n (index * 8 + pos) start count
      → After bit_map n (index * 8 + 8) (scan_bits rounds curr_entry index pos n start count)
  unfolding scan_bits
  scans zero curr_entry index pos start count r size byte v =
      let e : index * 8 + pos ≡ index * 8 + 8 = omega arith in rw e at v
  scans (suc rounds) curr_entry index pos start count r size byte v =
      elim (Bool-cases (bit_and curr_entry (2 ^ pos) == 0)) [
        | inr taken ↦ rw taken (
            scans rounds curr_entry index (pos + 1) start 0 (omega arith) size byte
              (move (broken at start count (λ e. miss taken (same ∙ e)) v)))
        | inl hit ↦ elim (ℕ_discrete (count + 1) n) [
          | yes full ↦
              rw (hit, wide, (==_iff (count + 1) n).1 full)
                (widen (complete at start count (omega arith) (free hit) v full))
          | no more ↦
              rw (hit, wide, differ more)
                (scans rounds curr_entry index (pos + 1) (next_start at start count) (count + 1)
                  (omega arith) size byte
                  (move (longer at start count (omega arith) (free hit) v more)))
        ]
      ]
    where
      at : ℕ
      at = index * 8 + pos

      same : bit curr_entry pos ≡ used bit_map at
      same = byte pos (omega arith)

      wide : u32 (count + 1) ≡ count + 1
      wide = omega (arith, v.short, narrow)

      free : (bit_and curr_entry (2 ^ pos) == 0) ≡ true → used bit_map at ≡ 0
      free hit = omega (arith, same, (==_iff _ 0).0 (sym (free_test curr_entry pos) ∙ hit))

      miss : (bit_and curr_entry (2 ^ pos) == 0) ≡ false → bit curr_entry pos ≢ 0
      miss taken e = ground (arith, free_test curr_entry pos)

      differ : count + 1 ≢ n → (count + 1 == n) ≡ false
      differ more = ground arith

      widen : {s : ℕ} → Found bit_map n (at + 1) s → Found bit_map n (index * 8 + 8) s
      widen w = record { before = omega (arith, w.before); free = w.free; least = w.least }

      move :
          {s c : ℕ}
          → Invariant bit_map n (at + 1) s c
          → Invariant bit_map n (index * 8 + (pos + 1)) s c
      move w = let e : index * 8 + pos + 1 ≡ index * 8 + (pos + 1) = omega arith in rw e at w

  -- All bytes from `index` on.
  entries :
      (rest : List ℕ) (index start count : ℕ)
      → drop index bit_map ≡ rest
      → index ≤ length bit_map
      → length bit_map * 8 ≤ 2 ^ 32
      → Invariant bit_map n (index * 8) start count
      → FirstFree bit_map n (scan_entries rest index n start count)
  unfolding scan_entries
  entries [] index start count e l size v =
      λ s all. omega (arith, v.least s all, v.short, length-drop index bit_map, ap length e)
  entries (curr_entry ∷ rest) index start count e l size v =
      go (scan_bits 8 curr_entry index 0 n start count)
        (scans 8 curr_entry index 0 start count refl (omega (arith, cut.0)) byte first)
        (λ s c. entries rest (index + 1) s c after (omega (arith, cut.0)) size)
    where
      cut :
          (index < length bit_map)
          × (get_or bit_map index 0 ≡ curr_entry)
          × (drop (suc index) bit_map ≡ rest)
      cut = drop-cons index bit_map 0 curr_entry rest e

      after : drop (index + 1) bit_map ≡ rest
      after = let e : index + 1 ≡ suc index = omega arith in rw e cut.2

      byte : (j : ℕ) → j < 8 → bit curr_entry j ≡ used bit_map (index * 8 + j)
      byte j h =
          let e : (index * 8 + j) / 8 ≡ index = omega arith in
          let f : (index * 8 + j) % 8 ≡ j = omega arith in rw (e, f, cut.1)

      first : Invariant bit_map n (index * 8 + 0) start count
      first = let e : index * 8 + 0 ≡ index * 8 = omega arith in rw e v

      go :
          (r : Scan)
          → After bit_map n (index * 8 + 8) r
          → ((s c : ℕ)
              → Invariant bit_map n ((index + 1) * 8) s c
              → FirstFree bit_map n (scan_entries rest (index + 1) n s c))
          → FirstFree bit_map n (elim r [
            | found s ↦ some s
            | scanning s c ↦ scan_entries rest (u32 (index + 1)) n s c
          ])
      go (found s) a rec = record {
        before = omega (arith, a.before, cut.0);
        free = a.free;
        least = a.least;
      }
      go (scanning s c) a rec =
          let u : u32 (index + 1) ≡ index + 1 = omega (arith, cut.0) in
          let e : index * 8 + 8 ≡ (index + 1) * 8 = omega arith in rw u (rec s c (rw e at a))

  pub finds :
      0 < n → length bit_map * 8 ≤ 2 ^ 32 → FirstFree bit_map n (scan_entries bit_map 0 n 0 0)
  finds pos size = entries bit_map 0 0 0 refl (omega arith) size (record {
    short = pos;
    ends = λ h. absurd (h refl);
    fits = omega arith;
    free = λ k l m. absurd (omega arith);
    least = λ s all. omega arith;
  })

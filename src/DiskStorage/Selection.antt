-- ===== src/DiskStorage/Selection.antt =====
-- What a reader of src/storage/disk_storage.cpp is asked for, said apart from its loop.
use rackkey.Common.{
  ℕ, ◌≡◌, refl, ap, arith, List, [], ◌∷◌, ◌⊎◌, inl, inr, true, ◌==◌, ==_iff, Bool-cases, All,
}
use rackkey.Block.{Block}
use package.rackkey.DiskStorage.Reading.{is_requested, wanted}

-- The number is one of those in the list.
abbrev pub IsOneOf : ℕ → List ℕ → Type 0
IsOneOf n [] = ⊥
IsOneOf n (k ∷ nums) = (k ≡ n) ⊎ IsOneOf n nums

-- The second list is the first without exactly the blocks whose numbers are not requested.
pub data Selects (requested : List ℕ) : List Block → List Block → Type 0 where
  done : Selects requested [] []
  take_block :
      {b : Block} {blocks taken : List Block}
      → IsOneOf b.block_num requested
      → Selects requested blocks taken
      → Selects requested (b ∷ blocks) (b ∷ taken)
  leave_block :
      {b : Block} {blocks taken : List Block}
      → ¬ IsOneOf b.block_num requested
      → Selects requested blocks taken
      → Selects requested (b ∷ blocks) taken

pub requested-IsOneOf : (nums : List ℕ) (n : ℕ) → is_requested nums n ≡ true → IsOneOf n nums
unfolding is_requested
requested-IsOneOf [] n h = cc
requested-IsOneOf (k ∷ nums) n h = elim (Bool-cases (k == n)) [
  | inl hit ↦ inl ((==_iff k n).0 hit)
  | inr miss ↦ inr (requested-IsOneOf nums n (rw miss at h))
]

IsOneOf-requested : (nums : List ℕ) (n : ℕ) → IsOneOf n nums → is_requested nums n ≡ true
unfolding is_requested
IsOneOf-requested [] n h = absurd h
IsOneOf-requested (k ∷ nums) n (inl e) = rw ((==_iff k n).1 e) refl
IsOneOf-requested (k ∷ nums) n (inr h) = rw (IsOneOf-requested nums n h) (ground arith)

pub wanted-Selects :
    (requested : List ℕ) (blocks : List Block) → Selects requested blocks (wanted requested blocks)
unfolding wanted
wanted-Selects requested [] = done
wanted-Selects requested (b ∷ blocks) = elim (Bool-cases (is_requested requested b.block_num)) [
  | inl hit ↦
      rw hit
        (take_block (requested-IsOneOf requested b.block_num hit) (wanted-Selects requested blocks))
  | inr miss ↦ rw miss (
      leave_block (λ h. let e = IsOneOf-requested requested b.block_num h in cc)
        (wanted-Selects requested blocks))
]

pub Selects-All :
    (P : Block → Type 0) (requested : List ℕ) (blocks taken : List Block)
    → Selects requested blocks taken
    → All P blocks
    → All P taken
Selects-All P requested [] [] done a = tt
Selects-All P requested [] (c ∷ taken) s a = elim s [ ]
Selects-All P requested (b ∷ blocks) (c ∷ taken) (take_block h s) a =
    (a.0, Selects-All P requested blocks taken s a.1)
Selects-All P requested (b ∷ blocks) taken (leave_block h s) a =
    Selects-All P requested blocks taken s a.1

-- A list and its requested numbers have one selection only.
pub Selects-unique :
    (requested : List ℕ) (blocks taken : List Block)
    → Selects requested blocks taken
    → taken ≡ wanted requested blocks
unfolding wanted
Selects-unique requested [] [] done = refl
Selects-unique requested [] (c ∷ taken) s = elim s [ ]
Selects-unique requested (b ∷ blocks) (c ∷ taken) (take_block h s) =
    let e = IsOneOf-requested requested b.block_num h in
    rw e (ap (λ (t : List Block). b ∷ t) (Selects-unique requested blocks taken s))
Selects-unique requested (b ∷ blocks) taken (leave_block h s) =
    elim (Bool-cases (is_requested requested b.block_num)) [
      | inl hit ↦ absurd (h (requested-IsOneOf requested b.block_num hit))
      | inr miss ↦ rw miss (Selects-unique requested blocks taken s)
    ]

-- ===== src/StorageServer/Asked.antt =====
-- The block numbers that a get of src/storage/storage_server.cpp is asked for.
use rackkey.Common.{
  ℕ, ◌+◌, ◌≡◌, refl, ◌∙◌, arith, List, [], ◌∷◌, true, false, ◌||◌, ◌==◌, ==_iff, Bool-cases, inl,
  inr, subst, sym, All, IsU32, length,
}
use rackkey.Common.Results.{ok}
use rackkey.Block.{Block}
use rackkey.DiskStorage.Reading.{is_requested, wanted}
use rackkey.DiskStorage.Selection.{IsOneOf, requested-IsOneOf}
use rackkey.Payloads.{put_nums}
use rackkey.Payloads.Numbers.{put_nums_lem, num_bytes, length-num_bytes, read_nums-num_bytes}
use package.rackkey.StorageServer.{insert_nums, requested_nums}

-- No number stands twice in the list.
abbrev pub AreDistinct : List ℕ → Type 0
AreDistinct [] = Unit {0}
AreDistinct (n ∷ nums) = (¬ IsOneOf n nums) × AreDistinct nums

insert_nums-members :
    (nums acc : List ℕ) (k : ℕ)
    → is_requested (insert_nums nums acc) k ≡ (is_requested nums k || is_requested acc k)
unfolding insert_nums is_requested
insert_nums-members [] acc k = refl
insert_nums-members (n ∷ nums) acc k = elim (Bool-cases (is_requested acc n)) [
  | inl there ↦ rw there (
      insert_nums-members nums acc k ∙ elim (Bool-cases (n == k)) [
        | inl hit ↦
            let h : is_requested acc k ≡ true =
              subst (λ t. is_requested acc t ≡ true) ((==_iff n k).0 hit) there in
            rw (hit, h) (ground arith)
        | inr miss ↦ rw miss refl
      ])
  | inr absent ↦ rw absent (ground (arith, insert_nums-members nums (n ∷ acc) k))
]

length-insert_nums :
    (nums acc : List ℕ)
    → AreDistinct nums
    → ((k : ℕ) → is_requested nums k ≡ true → is_requested acc k ≡ false)
    → length (insert_nums nums acc) ≡ length nums + length acc
unfolding insert_nums is_requested
length-insert_nums [] acc d apart = omega arith
length-insert_nums (n ∷ nums) acc d apart =
    let absent : is_requested acc n ≡ false = apart n (ground arith) in
    rw absent (let e = length-insert_nums nums (n ∷ acc) d.1 later in omega (arith, e))
  where
    later : (k : ℕ) → is_requested nums k ≡ true → is_requested (n ∷ acc) k ≡ false
    later k h = elim (Bool-cases (n == k)) [
      | inl hit ↦ absurd (
          d.0 (subst (λ t. IsOneOf t nums) (sym ((==_iff n k).0 hit)) (requested-IsOneOf nums k h)))
      | inr miss ↦ rw miss (apart k (ground arith))
    ]

-- A payload of distinct 32-bit numbers asks for these numbers, each once.
pub requested_nums-put_nums :
    (nums : List ℕ)
    → All IsU32 nums
    → AreDistinct nums
    → (asked : List ℕ) × (requested_nums (put_nums nums []) ≡ ok asked)
      × (length asked ≡ length nums)
      × ((k : ℕ) → is_requested asked k ≡ is_requested nums k)
unfolding requested_nums is_requested
requested_nums-put_nums nums fit distinct =
    let e =
      read_nums-num_bytes (length (num_bytes nums)) nums fit
        (omega (arith, length-num_bytes nums)) in
    (
      insert_nums nums [],
      rw (put_nums_lem, e) refl,
      length-insert_nums nums [] distinct (λ k h. refl) ∙ omega arith,
      λ k. insert_nums-members nums [] k ∙ ground arith,
    )

pub wanted-same :
    (asked nums : List ℕ) (blocks : List Block)
    → ((k : ℕ) → is_requested asked k ≡ is_requested nums k)
    → wanted asked blocks ≡ wanted nums blocks
unfolding wanted
wanted-same asked nums [] e = refl
wanted-same asked nums (b ∷ blocks) e = rw (e b.block_num, wanted-same asked nums blocks e) refl

-- ===== src/MasterServer/Putting/Splitting.antt =====
-- The blocks that `StoreEndpoint::putHandler` of src/master/master_server.cpp makes of a payload.
use rackkey.Common.{
  ℕ, zero, suc, ◌+◌, ◌-◌, ◌^◌, ◌≤◌, ◌<◌, min, ◌≡◌, refl, sym, ap, ap₂, ◌∙◌, arith, List, [], ◌∷◌,
  ◌++◌, map, true, false, Bool-cases, inl, inr, some, ltb, ltb→lt, u32, length, take, drop,
  length-take, length-drop, All,
}
use rackkey.Block.{Block}
use rackkey.Utils.{flatten}
use package.rackkey.MasterServer.Putting.{split_payload}

take-drop {ℓ} : {A : Type ℓ} (k : ℕ) (xs : List A) → take k xs ++ drop k xs ≡ xs
take-drop zero xs = refl
take-drop (suc k) [] = refl
take-drop (suc k) (x ∷ xs) = ap (λ t. x ∷ t) (take-drop k xs)

drop-nil {ℓ} : {A : Type ℓ} (k : ℕ) (xs : List A) → length xs ≤ k → drop k xs ≡ []
drop-nil zero [] h = refl
drop-nil zero (x ∷ xs) h = absurd (omega arith)
drop-nil (suc k) [] h = refl
drop-nil (suc k) (x ∷ xs) h = drop-nil k xs (omega arith)

drop-drop {ℓ} : {A : Type ℓ} (i k : ℕ) (xs : List A) → drop k (drop i xs) ≡ drop (i + k) xs
drop-drop zero k xs = let e : k ≡ 0 + k = omega arith in ap (λ n. drop n xs) e
drop-drop (suc i) zero [] = sym (drop-nil (suc i + zero) [] (omega arith))
drop-drop (suc i) (suc k) [] = sym (drop-nil (suc i + suc k) [] (omega arith))
drop-drop (suc i) k (x ∷ xs) =
    let e : suc (i + k) ≡ suc i + k = omega arith in drop-drop i k xs ∙ ap (λ n. drop n (x ∷ xs)) e

-- The numbers `cnt`, `cnt + 1`, …, `n` of them.
abbrev pub count_from : ℕ → ℕ → List ℕ
count_from cnt zero = []
count_from cnt (suc n) = cnt ∷ count_from (cnt + 1) n

abbrev pub block_nums : List Block → List ℕ
block_nums blocks = map (λ (b : Block). b.block_num) blocks

abbrev pub block_bytes : List Block → List (List ℕ)
block_bytes blocks = map (λ (b : Block). b.bytes) blocks

-- Blocks of a key, numbered from `cnt`, none empty and none of more than `size` bytes, which joined
-- are the bytes.
pub record IsSplit (key : List ℕ) (size cnt : ℕ) (bytes : List ℕ) (blocks : List Block)
    : Type 0 where
  pub nums : block_nums blocks ≡ count_from cnt (length blocks)
  pub whole : flatten (block_bytes blocks) ≡ bytes
  pub each :
      All
        (λ (b : Block).
          (b.key ≡ key)
          × (b.data_size ≡ length b.bytes)
          × (0 < length b.bytes)
          × (length b.bytes ≤ size))
        blocks

module _ (key : List ℕ) (size : ℕ) (payload : List ℕ) (pos : 0 < size)
    (room : length payload + size ≤ 2 ^ 32) where
  split_step :
      (fuel i cnt : ℕ) (blocks : List Block)
      → ltb i (length payload) ≡ true
      → split_payload fuel key size payload (length payload) (u32 (i + size)) (u32 (cnt + 1))
        ≡ some blocks
      → split_payload (suc fuel) key size payload (length payload) i cnt
        ≡ some (
            record {
              key = key;
              block_num = cnt;
              data_size =
                  length (take (min (u32 (i + size)) (length payload) - i) (drop i payload));
              bytes = take (min (u32 (i + size)) (length payload) - i) (drop i payload);
            }
            ∷ blocks)
  unfolding split_payload
  split_step fuel i cnt blocks l run = rw (split_payload, l, run) refl

  split_payload-IsSplit_from :
      (fuel i cnt : ℕ)
      → length payload ≤ i + fuel
      → i < length payload + size
      → cnt ≤ i
      → (blocks : List Block) × (split_payload fuel key size payload (length payload) i cnt
          ≡ some blocks)
        × IsSplit key size cnt (drop i payload) blocks
  unfolding split_payload flatten
  split_payload-IsSplit_from zero i cnt long near below =
      let l : ltb i (length payload) ≡ false = ground arith in
      (
        [],
        rw (split_payload, l) refl,
        record { nums = refl; whole = sym (drop-nil i payload (omega arith)); each = tt },
      )
  split_payload-IsSplit_from (suc fuel) i cnt long near below =
      elim (Bool-cases (ltb i (length payload))) [
        | inr l ↦ (
          [],
          rw (split_payload, l) refl,
          record { nums = refl; whole = sym (drop-nil i payload (ground arith)); each = tt },
        )
        | inl l ↦
            let under = ltb→lt i (length payload) l in
            let e : u32 (i + size) ≡ i + size = omega arith in
            let f : u32 (cnt + 1) ≡ cnt + 1 = omega arith in
            let (blocks, run, split) =
              split_payload-IsSplit_from fuel (i + size) (cnt + 1) (omega arith) (omega arith)
                (omega arith) in
            let k = min (u32 (i + size)) (length payload) - i in
            let bytes = take k (drop i payload) in
            let n : length bytes ≡ k =
              omega (arith, length-take k (drop i payload), length-drop i payload) in
            let block : Block = record {
              key = key;
              block_num = cnt;
              data_size = length bytes;
              bytes = bytes;
            } in
            (
              block ∷ blocks,
              split_step fuel i cnt blocks l (
                  ap₂ (λ (a b : ℕ). split_payload fuel key size payload (length payload) a b) e f
                  ∙ run),
              record {
                nums = ap (λ t. cnt ∷ t) split.nums;
                whole =
                    ap (λ t. bytes ++ t) split.whole
                    ∙ ap (λ t. bytes ++ t) (rest_from i k (omega (arith, e)) under)
                    ∙ take-drop k (drop i payload);
                each = ((refl, refl, omega (arith, n), omega (arith, n)), split.each);
              },
            )
      ]
    where
      rest_from :
          (i k : ℕ)
          → k ≡ min (i + size) (length payload) - i
          → i < length payload
          → drop (i + size) payload ≡ drop k (drop i payload)
      rest_from i k e under = elim (Bool-cases (ltb (length payload) (i + size))) [
        | inl past ↦
            drop-nil (i + size) payload (ground arith)
            ∙ sym (drop-nil k (drop i payload) (ground (arith, length-drop i payload)))
        | inr inside ↦
            let m : k ≡ size = ground arith in
            sym (drop-drop i size payload) ∙ ap (λ t. drop t (drop i payload)) (sym m)
      ]

-- With a positive block size, and a payload that leaves room below 2^32 for one more block, the split
-- ends within as many rounds as the payload has bytes: the blocks belong to the key, are numbered
-- from 0, hold between 1 and `size` bytes each, and joined are the payload.
pub split_payload-IsSplit :
    (key : List ℕ) (size : ℕ) (payload : List ℕ)
    → 0 < size
    → length payload + size ≤ 2 ^ 32
    → (blocks : List Block) × (split_payload
          (length payload)
          key
          size
          payload
          (u32 (length payload))
          0
          0
        ≡ some blocks)
      × IsSplit key size 0 payload blocks
split_payload-IsSplit key size payload pos room =
    let e : u32 (length payload) ≡ length payload = omega arith in
    rw e (
      split_payload-IsSplit_from key size payload pos room (length payload) 0 0 (omega arith)
        (omega arith) (omega arith))

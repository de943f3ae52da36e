-- ===== src/MasterServer/Numbers.antt =====
-- The block numbers of a key, as src/master/master_server.cpp counts them and as its map lists them.
use rackkey.Common.{
  ℕ, zero, suc, ◌+◌, ◌<◌, ◌≡◌, refl, sym, ap, ap₂, ◌∙◌, arith, List, [], ◌∷◌, map, Bool, true,
  false, ◌||◌, ◌==◌, ==_iff, Bool-cases, inl, inr, some, none, if◌then◌else◌, length, lt→ltb,
}
use rackkey.Block.{Block}
use rackkey.DiskStorage.Reading.{is_requested}
use rackkey.OrderedMap
use rackkey.OrderedMap.{OrderedMap}
use rackkey.OrderedMap.Extensional.{ext}
use rackkey.OrderedMap.Laws.{IsSorted, Above}
use rackkey.OrderedMap.Order.{nat_ord}
use package.rackkey.MasterServer.{NodeSet, BlockNodeMap}
use package.rackkey.MasterServer.Getting.Choice.{nums_of}
use package.rackkey.MasterServer.Putting.Assigning.{has_num}
use package.rackkey.MasterServer.Putting.Splitting.{count_from, block_nums}

-- The block of a number; for a number that no block has, an empty one.
abbrev pub value_of : List Block → ℕ → Block
value_of [] n = record { key = []; block_num = n; data_size = 0; bytes = [] }
value_of (b ∷ blocks) n = if b.block_num == n then b else value_of blocks n

pub value_of_num : (blocks : List Block) (n : ℕ) → (value_of blocks n).block_num ≡ n
value_of_num [] n = refl
value_of_num (b ∷ blocks) n = elim (Bool-cases (b.block_num == n)) [
  | inl hit ↦ rw hit ((==_iff b.block_num n).0 hit)
  | inr miss ↦ rw miss (value_of_num blocks n)
]

skip_first :
    (b : Block) (blocks : List Block) (c k : ℕ)
    → b.block_num < c
    → map (value_of (b ∷ blocks)) (count_from c k) ≡ map (value_of blocks) (count_from c k)
skip_first b blocks c zero l = refl
skip_first b blocks c (suc k) l =
    let miss : (b.block_num == c) ≡ false = ground arith in
    ap₂ (λ (x : Block) (xs : List Block). x ∷ xs) (rw miss refl)
      (skip_first b blocks (c + 1) k (omega arith))

-- Blocks numbered one after another are found by their numbers.
pub value_of_all :
    (c : ℕ) (blocks : List Block)
    → block_nums blocks ≡ count_from c (length blocks)
    → map (value_of blocks) (count_from c (length blocks)) ≡ blocks
value_of_all c [] e = refl
value_of_all c (b ∷ blocks) e =
    let h : b.block_num ≡ c = ap (λ (t : List ℕ). head_or t c) e in
    let t : block_nums blocks ≡ count_from (c + 1) (length blocks) = ap tail_of e in
    let hit : (b.block_num == c) ≡ true = (==_iff b.block_num c).1 h in
    ap₂ (λ (x : Block) (xs : List Block). x ∷ xs) (rw hit refl)
      (skip_first b blocks (c + 1) (length blocks) (omega arith) ∙ value_of_all (c + 1) blocks t)
  where
    head_or : List ℕ → ℕ → ℕ
    head_or [] d = d
    head_or (x ∷ xs) d = x

    tail_of : List ℕ → List ℕ
    tail_of [] = []
    tail_of (x ∷ xs) = xs

unit_map : List ℕ → NodeSet
unit_map [] = []
unit_map (n ∷ nums) = (n, tt) ∷ unit_map nums

keys_of : NodeSet → List ℕ
keys_of [] = []
keys_of ((n, u) ∷ ids) = n ∷ keys_of ids

keys_of-unit_map : (nums : List ℕ) → keys_of (unit_map nums) ≡ nums
unfolding keys_of unit_map
keys_of-unit_map [] = refl
keys_of-unit_map (n ∷ nums) = ap (λ t. n ∷ t) (keys_of-unit_map nums)

find-unit_map :
    (nums : List ℕ) (n : ℕ)
    → OrderedMap.find n (unit_map nums) ≡ (if is_requested nums n then some tt else none)
unfolding OrderedMap.find unit_map is_requested
find-unit_map [] n = refl
find-unit_map (k ∷ nums) n = elim (Bool-cases (k == n)) [
  | inl hit ↦ let s : OrderedMap.same k n ≡ true = ground arith in rw (hit, s) refl
  | inr miss ↦
      let s : OrderedMap.same k n ≡ false = ground arith in rw (miss, s) (find-unit_map nums n)
]

nums_of-IsSorted : (m : BlockNodeMap) → IsSorted m → IsSorted (unit_map (nums_of m))
unfolding unit_map
nums_of-IsSorted [] s = tt
nums_of-IsSorted ((bn, ids) ∷ m) s = above bn m s
  where
    above : (bn : ℕ) (m : BlockNodeMap) → Above bn m → Above bn (unit_map (nums_of m))
    above bn [] s = tt
    above bn ((k, ids) ∷ m) s = (s.0, above k m s.1)

count_from-IsSorted : (c k : ℕ) → IsSorted (unit_map (count_from c k))
unfolding unit_map
count_from-IsSorted c zero = tt
count_from-IsSorted c (suc k) = above c (c + 1) k (omega arith)
  where
    above : (b c k : ℕ) → b < c → Above b (unit_map (count_from c k))
    above b c zero l = tt
    above b c (suc k) l = (lt→ltb b c l, above c (c + 1) k (omega arith))

-- A map in order with the numbers that are counted lists them as they are counted.
pub nums_of-count_from :
    (m : BlockNodeMap) (c k : ℕ)
    → IsSorted m
    → ((n : ℕ) → is_requested (nums_of m) n ≡ is_requested (count_from c k) n)
    → nums_of m ≡ count_from c k
nums_of-count_from m c k s e =
    sym (keys_of-unit_map (nums_of m))
    ∙ ap keys_of (
        ext (unit_map (nums_of m)) (unit_map (count_from c k)) (nums_of-IsSorted m s)
          (count_from-IsSorted c k)
          (λ n.
            find-unit_map (nums_of m) n
            ∙ ap (λ (b : Bool). if b then some tt else none) (e n)
            ∙ sym (find-unit_map (count_from c k) n)))
    ∙ keys_of-unit_map (count_from c k)

pub has_num_requested :
    (blocks : List Block) (n : ℕ) → has_num blocks n ≡ is_requested (block_nums blocks) n
unfolding is_requested
has_num_requested [] n = refl
has_num_requested (b ∷ blocks) n = ap (λ t. b.block_num == n || t) (has_num_requested blocks n)

-- ===== src/MasterServer/Keeping.antt =====
-- What a get relies on at the storage nodes, for the puts that src/master/master_server.cpp sent them:
-- a node that is asked for blocks of its latest put answers with them.
use rackkey.Common.{
  ℕ, ◌+◌, ◌^◌, ◌≤◌, ◌<◌, ◌≡◌, refl, sym, ap, ◌∙◌, arith, List, [], ◌∷◌, map, true, Bool-cases, inl,
  inr, some, ◌==◌, ==_iff, All, IsU32, length, length-append,
}
use rackkey.Common.Results.{ok}
use rackkey.Block
use rackkey.Block.{Block}
use rackkey.Block.RoundTrip.{IsValid, deserialize-serialize_all}
use rackkey.Payloads.{put_nums}
use rackkey.Utils.{flatten}
use package.rackkey.MasterServer.{Network, SentPut, answer_body}
use package.rackkey.MasterServer.Getting.Available.{IsRising}
use package.rackkey.MasterServer.Numbers.{value_of}
use package.rackkey.MasterServer.Putting.Assigning.{has_num}
use package.rackkey.MasterServer.Putting.Delivered.{latest, IsAmong, IsAmong-All}
use package.rackkey.MasterServer.Putting.Splitting.{IsSplit, count_from, block_nums, block_bytes}

-- Every node answers a request for numbers of the blocks in the latest put of the key that it was
-- sent, by rising number, with status OK and these blocks.
abbrev pub Keeps : Network → List ℕ → List SentPut → Type 0
Keeps network key log =
    (id : ℕ) (body : List ℕ) (kept : List Block) (nums : List ℕ)
    → latest id key log ≡ some body
    → Block.deserialize body ≡ ok kept
    → All IsValid kept
    → All (λ n. has_num kept n ≡ true) nums
    → IsRising nums
    → (answer : List ℕ) × (answer_body (network id (put_nums nums [])) ≡ some answer)
      × (Block.deserialize answer ≡ ok (map (value_of kept) nums))

head_or : List Block → Block → Block
head_or [] d = d
head_or (x ∷ xs) d = x

tail_of : List Block → List Block
tail_of [] = []
tail_of (x ∷ xs) = xs

-- Blocks that their numbers find.
abbrev pub AreFound : List Block → List Block → Type 0
AreFound blocks bs = All (λ (b : Block). value_of blocks b.block_num ≡ b) bs

pub map-AreFound :
    (blocks bs : List Block) → map (value_of blocks) (block_nums bs) ≡ bs → AreFound blocks bs
unfolding head_or tail_of
map-AreFound blocks [] e = tt
map-AreFound blocks (b ∷ bs) e =
    (ap (λ (t : List Block). head_or t b) e, map-AreFound blocks bs (ap tail_of e))

value_of-found :
    (blocks bs : List Block) (n : ℕ)
    → AreFound blocks bs
    → has_num bs n ≡ true
    → value_of bs n ≡ value_of blocks n
value_of-found blocks [] n a h = absurd cc
value_of-found blocks (b ∷ bs) n a h = elim (Bool-cases (b.block_num == n)) [
  | inl hit ↦ rw hit (sym a.0 ∙ ap (value_of blocks) ((==_iff b.block_num n).0 hit))
  | inr miss ↦ rw miss (value_of-found blocks bs n a.1 (rw miss at h))
]

values-found :
    (blocks bs : List Block) (nums : List ℕ)
    → AreFound blocks bs
    → All (λ n. has_num bs n ≡ true) nums
    → map (value_of bs) nums ≡ map (value_of blocks) nums
values-found blocks bs [] a h = refl
values-found blocks bs (n ∷ nums) a h =
    rw (value_of-found blocks bs n a h.0, values-found blocks bs nums a h.1) refl

-- A node whose latest put of the key carries blocks from `blocks` answers with those of `blocks`.
pub kept_answer :
    (network : Network) (key : List ℕ) (log : List SentPut) (blocks bs : List Block) (id : ℕ)
    (nums : List ℕ)
    → Keeps network key log
    → All IsValid blocks
    → AreFound blocks blocks
    → latest id key log ≡ some (Block.serialize_all bs [])
    → All (IsAmong blocks) bs
    → All (λ n. has_num bs n ≡ true) nums
    → IsRising nums
    → (answer : List ℕ) × (answer_body (network id (put_nums nums [])) ≡ some answer)
      × (Block.deserialize answer ≡ ok (map (value_of blocks) nums))
kept_answer network key log blocks bs id nums keeps valid found there among having rising =
    let valid_bs : All IsValid bs = All-among IsValid blocks bs valid among in
    let found_bs : AreFound blocks bs =
      All-among (λ (b : Block). value_of blocks b.block_num ≡ b) blocks bs found among in
    let (answer, e, contents) =
      keeps id (Block.serialize_all bs []) bs nums there (deserialize-serialize_all bs valid_bs)
        valid_bs having rising in
    (answer, e, contents ∙ ap ok (values-found blocks bs nums found_bs having))
  where
    All-among :
        (P : Block → Type 0) (blocks bs : List Block)
        → All P blocks
        → All (IsAmong blocks) bs
        → All P bs
    All-among P blocks [] a h = tt
    All-among P blocks (b ∷ bs) a h = (IsAmong-All P blocks b a h.0, All-among P blocks bs a h.1)

first_num : List ℕ → ℕ → ℕ
first_num [] d = d
first_num (x ∷ xs) d = x

other_nums : List ℕ → List ℕ
other_nums [] = []
other_nums (x ∷ xs) = xs

-- The blocks of a payload fit the fields of their encoding.
pub split-IsValid :
    (key : List ℕ) (size cnt : ℕ) (bytes : List ℕ) (blocks : List Block)
    → IsU32 (length key)
    → IsSplit key size cnt bytes blocks
    → cnt + length bytes < 2 ^ 32
    → All IsValid blocks
unfolding flatten first_num other_nums
split-IsValid key size cnt bytes blocks fits split small =
    go cnt blocks split.nums (let e = ap (λ (t : List ℕ). length t) split.whole in omega (arith, e))
      split.each
  where
    go :
        (cnt : ℕ) (blocks : List Block)
        → block_nums blocks ≡ count_from cnt (length blocks)
        → cnt + length (flatten (block_bytes blocks)) < 2 ^ 32
        → All
            (λ (b : Block).
              (b.key ≡ key)
              × (b.data_size ≡ length b.bytes)
              × (0 < length b.bytes)
              × (length b.bytes ≤ size))
            blocks
        → All IsValid blocks
    go cnt [] e l a = tt
    go cnt (b ∷ blocks) e l a =
        let num : b.block_num ≡ cnt = ap (λ (t : List ℕ). first_num t cnt) e in
        let rest : block_nums blocks ≡ count_from (cnt + 1) (length blocks) = ap other_nums e in
        let joined = length-append b.bytes (flatten (block_bytes blocks)) in
        (
          record {
            key_fits = rw a.0.0 fits;
            num_fits = omega (arith, num, l);
            size_fits = omega (arith, a.0.1, l, joined);
            sized = a.0.1;
          },
          go (cnt + 1) blocks rest (omega (arith, l, joined, a.0.2)) a.1,
        )

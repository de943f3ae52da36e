-- ===== src/MasterServer/Putting/Sending.antt =====
-- The requests of a put and the map that they fill, `sendBlocks` of src/master/master_server.cpp.
use rackkey.Common.{
  ℕ, ◌≡◌, ◌≢◌, ltb, refl, sym, ap, ◌∙◌, arith, List, [], ◌∷◌, Bool, true, false, ◌||◌, ◌&&◌, ◌⊎◌,
  Bool-cases, Option-cases, inl, inr, Option, none, some, ◌==◌, ==_iff, if◌then◌else◌, All,
}
use rackkey.Block.{Block}
use rackkey.OrderedMap
use rackkey.OrderedMap.{OrderedMap}
use rackkey.OrderedMap.Laws.{IsSorted, find-insert, insert-IsSorted}
use rackkey.OrderedMap.Order.{nat_ord, key_ord}
use package.rackkey.MasterServer.{NodeSet, BlockNodeMap, add_node_id}
use package.rackkey.MasterServer.Putting.{record_block, record_blocks}
use package.rackkey.MasterServer.Putting.Assigning.{All-insert, has_num, gets_block}

abbrev pub is_some : Option (Unit {0}) → Bool
is_some none = false
is_some (some _) = true

abbrev pub is_in : NodeSet → ℕ → Bool
is_in ids id = is_some (OrderedMap.find id ids)

abbrev pub is_in_some : Option NodeSet → ℕ → Bool
is_in_some none id = false
is_in_some (some ids) id = is_in ids id

-- The map says that the node stores the block.
abbrev pub stores : BlockNodeMap → ℕ → ℕ → Bool
stores m id bn = is_in_some (OrderedMap.find bn m) id

pub is_in-add_node_id :
    (k : ℕ) (ids : NodeSet) (id : ℕ) → is_in (add_node_id k ids) id ≡ (k == id || is_in ids id)
is_in-add_node_id k ids id = ap is_some (find-insert id k tt ids) ∙ elim (Bool-cases (k == id)) [
  | inl hit ↦ let s : OrderedMap.same k id ≡ true = ground arith in rw (s, hit) refl
  | inr miss ↦ let s : OrderedMap.same k id ≡ false = ground arith in rw (s, miss) refl
]

pub stores-insert :
    (k : ℕ) (ids : NodeSet) (m : BlockNodeMap) (id bn : ℕ)
    → stores (OrderedMap.insert k ids m) id bn ≡ (if k == bn then is_in ids id else stores m id bn)
stores-insert k ids m id bn =
    ap (λ t. is_in_some t id) (find-insert bn k ids m) ∙ elim (Bool-cases (k == bn)) [
      | inl hit ↦ let s : OrderedMap.same k bn ≡ true = ground arith in rw (s, hit) refl
      | inr miss ↦ let s : OrderedMap.same k bn ≡ false = ground arith in rw (s, miss) refl
    ]

pub nobody : (id : ℕ) → is_in [] id ≡ false
nobody id = unfold OrderedMap.find in refl

pub stores-record_block :
    (k num : ℕ) (m : BlockNodeMap) (id bn : ℕ)
    → stores (record_block k num m) id bn ≡ (k == id && num == bn || stores m id bn)
unfolding record_block
stores-record_block k num m id bn = elim (Option-cases (OrderedMap.find num m)) [
  | inl e ↦
      rw (record_block, e)
        (stores-insert num (add_node_id k []) m id bn ∙ fresh e (Bool-cases (num == bn)))
  | inr (ids, e) ↦
      rw (record_block, e)
        (stores-insert num (add_node_id k ids) m id bn ∙ more ids e (Bool-cases (num == bn)))
]
  where
    fresh :
        OrderedMap.find num m ≡ none
        → ((num == bn) ≡ true) ⊎ ((num == bn) ≡ false)
        → (if num == bn then is_in (add_node_id k []) id else stores m id bn)
          ≡ (k == id && num == bn || stores m id bn)
    fresh e (inl hit) =
        let f : OrderedMap.find bn m ≡ none =
          ap (λ t. OrderedMap.find t m) (sym ((==_iff num bn).0 hit)) ∙ e in
        rw (hit, f) (ground (arith, is_in-add_node_id k [] id, nobody id))
    fresh e (inr miss) = rw miss (ground arith)

    more :
        (ids : NodeSet)
        → OrderedMap.find num m ≡ some ids
        → ((num == bn) ≡ true) ⊎ ((num == bn) ≡ false)
        → (if num == bn then is_in (add_node_id k ids) id else stores m id bn)
          ≡ (k == id && num == bn || stores m id bn)
    more ids e (inl hit) =
        let f : OrderedMap.find bn m ≡ some ids =
          ap (λ t. OrderedMap.find t m) (sym ((==_iff num bn).0 hit)) ∙ e in
        rw (hit, f) (ground (arith, is_in-add_node_id k ids id))
    more ids e (inr miss) = rw miss (ground arith)

pub stores-record_blocks :
    (k : ℕ) (blocks : List Block) (m : BlockNodeMap) (id bn : ℕ)
    → stores (record_blocks k blocks m) id bn ≡ (k == id && has_num blocks bn || stores m id bn)
unfolding record_blocks
stores-record_blocks k [] m id bn = ground arith
stores-record_blocks k (b ∷ blocks) m id bn = ground (
  arith,
  stores-record_blocks k blocks (record_block k b.block_num m) id bn,
  stores-record_block k b.block_num m id bn,
)

pub record_blocks-IsSorted :
    (k : ℕ) (blocks : List Block) (m : BlockNodeMap)
    → IsSorted m
    → IsSorted (record_blocks k blocks m)
unfolding record_blocks record_block
record_blocks-IsSorted k [] m s = s
record_blocks-IsSorted k (b ∷ blocks) m s =
    record_blocks-IsSorted k blocks (record_block k b.block_num m)
      (elim (Option-cases (OrderedMap.find b.block_num m)) [
        | inl e ↦ rw (record_block, e) (insert-IsSorted b.block_num (add_node_id k []) m s)
        | inr (ids, e) ↦ rw (record_block, e) (insert-IsSorted b.block_num (add_node_id k ids) m s)
      ])

-- The map that the tasks fill, one after another.
abbrev pub record_all : List (ℕ × List Block) → BlockNodeMap → BlockNodeMap
record_all [] m = m
record_all ((id, blocks) ∷ tasks) m = record_all tasks (record_blocks id blocks m)

pub stores-record_all :
    (tasks : List (ℕ × List Block)) (m : BlockNodeMap) (id bn : ℕ)
    → stores (record_all tasks m) id bn ≡ (gets_block tasks id bn || stores m id bn)
stores-record_all [] m id bn = refl
stores-record_all ((k, blocks) ∷ tasks) m id bn = ground (
  arith,
  stores-record_all tasks (record_blocks k blocks m) id bn,
  stores-record_blocks k blocks m id bn,
)

pub record_all-IsSorted :
    (tasks : List (ℕ × List Block)) (m : BlockNodeMap) → IsSorted m → IsSorted (record_all tasks m)
record_all-IsSorted [] m s = s
record_all-IsSorted ((k, blocks) ∷ tasks) m s =
    record_all-IsSorted tasks (record_blocks k blocks m) (record_blocks-IsSorted k blocks m s)

-- No block is without a node.
abbrev pub AreFilled : BlockNodeMap → Type 0
AreFilled m = All (λ (e : ℕ × NodeSet). e.1 ≢ []) m

add_node_id-cons : (id : ℕ) (ids : NodeSet) → add_node_id id ids ≢ []
unfolding OrderedMap.insert
add_node_id-cons id [] e = cc
add_node_id-cons id ((j, u) ∷ ids) e = elim (Bool-cases (ltb id j)) [
  | inl below ↦ let f = rw below at e in cc
  | inr not_below ↦ elim (Bool-cases (ltb j id)) [
    | inl above ↦ let f = rw (not_below, above) at e in cc
    | inr not_above ↦ let f = rw (not_below, not_above) at e in cc
  ]
]

record_blocks-AreFilled :
    (k : ℕ) (blocks : List Block) (m : BlockNodeMap)
    → AreFilled m
    → AreFilled (record_blocks k blocks m)
unfolding record_blocks record_block
record_blocks-AreFilled k [] m a = a
record_blocks-AreFilled k (b ∷ blocks) m a =
    record_blocks-AreFilled k blocks (record_block k b.block_num m)
      (elim (Option-cases (OrderedMap.find b.block_num m)) [
        | inl e ↦
            rw (record_block, e)
              (All-insert _ b.block_num (add_node_id k []) m (add_node_id-cons k []) a)
        | inr (ids, e) ↦
            rw (record_block, e)
              (All-insert _ b.block_num (add_node_id k ids) m (add_node_id-cons k ids) a)
      ])

pub record_all-AreFilled :
    (tasks : List (ℕ × List Block)) (m : BlockNodeMap)
    → AreFilled m
    → AreFilled (record_all tasks m)
record_all-AreFilled [] m a = a
record_all-AreFilled ((k, blocks) ∷ tasks) m a =
    record_all-AreFilled tasks (record_blocks k blocks m) (record_blocks-AreFilled k blocks m a)

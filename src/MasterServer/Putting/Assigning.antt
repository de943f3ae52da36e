-- ===== src/MasterServer/Putting/Assigning.antt =====
-- The lists of blocks for the nodes, in `StoreEndpoint::putHandler` of src/master/master_server.cpp.
use rackkey.Common.{
  ℕ, zero, suc, ◌≡◌, refl, ap, subst, ◌∙◌, arith, List, [], ◌∷◌, ◌++◌, Bool, true, false, ◌||◌,
  ◌&&◌, ◌⊎◌, Bool-cases, Option-cases, inl, inr, none, some, ◌==◌, ==_iff, ltb, All, All-append,
  take,
}
use mathlib.Core.List.{Permᴰ}
use mathlib.Core.Option.{some-injective}
use rackkey.Block.{Block}
use rackkey.DiskStorage.Reading.{is_requested}
use rackkey.HashRing.{HashRing}
use rackkey.OrderedMap
use rackkey.OrderedMap.{OrderedMap}
use rackkey.OrderedMap.Order.{nat_ord}
use rackkey.StorageNode.{StorageNode}
use package.rackkey.MasterServer.{Tasks, push_back}
use package.rackkey.MasterServer.Putting.{push_all}
use package.rackkey.MasterServer.Placement.{gather, chosen, healthy_in}

abbrev pub has_num : List Block → ℕ → Bool
has_num [] bn = false
has_num (block ∷ blocks) bn = block.block_num == bn || has_num blocks bn

-- The node `id` gets a block numbered `bn`.
abbrev pub gets_block : List (ℕ × List Block) → ℕ → ℕ → Bool
gets_block [] id bn = false
gets_block ((j, blocks) ∷ tasks) id bn = j == id && has_num blocks bn || gets_block tasks id bn

pub gets_block-Permᴰ :
    (a b : List (ℕ × List Block)) (id bn : ℕ) → Permᴰ a b → gets_block a id bn ≡ gets_block b id bn
gets_block-Permᴰ [] [] id bn Permᴰ.nil = refl
gets_block-Permᴰ (x ∷ a) (y ∷ b) id bn (Permᴰ.cons e p) = ground (
  arith,
  ap (λ (t : ℕ × List Block). t.0 == id && has_num t.1 bn) e,
  gets_block-Permᴰ a b id bn p,
)
gets_block-Permᴰ (x ∷ y ∷ a) (z ∷ w ∷ b) id bn (Permᴰ.swap e f) = ground (
  arith,
  ap (λ (t : ℕ × List Block). t.0 == id && has_num t.1 bn) e,
  ap (λ (t : ℕ × List Block). t.0 == id && has_num t.1 bn) f,
)
gets_block-Permᴰ a b id bn (Permᴰ.trans p q) =
    gets_block-Permᴰ a _ id bn p ∙ gets_block-Permᴰ _ b id bn q

has_num-snoc :
    (xs : List Block) (b : Block) (bn : ℕ)
    → has_num (xs ++ b ∷ []) bn ≡ (b.block_num == bn || has_num xs bn)
has_num-snoc [] b bn = refl
has_num-snoc (x ∷ xs) b bn = ground (arith, has_num-snoc xs b bn)

find-gets_block :
    (id bn : ℕ) (xs : List Block) (tasks : Tasks Block)
    → OrderedMap.find id tasks ≡ some xs
    → has_num xs bn ≡ true
    → gets_block tasks id bn ≡ true
unfolding OrderedMap.find
find-gets_block id bn xs [] f h = cc
find-gets_block id bn xs ((j, w) ∷ tasks) f h = elim (Bool-cases (OrderedMap.same j id)) [
  | inl hit ↦
      let e : w ≡ xs = some-injective w xs (rw hit at f) in
      let s : (j == id) ≡ true = ground arith in rw (e, h, s) refl
  | inr miss ↦ ground (arith, find-gets_block id bn xs tasks (rw miss at f) h)
]

implied : (x y z : Bool) → (y ≡ true → z ≡ true) → ((x || y) || z) ≡ (x || z)
implied x true z k = rw (k refl) (ground arith)
implied x false z k = ground arith

module _ (id : ℕ) (b : Block) (i bn : ℕ) where
  gets_block-insert_new :
      (tasks : Tasks Block)
      → OrderedMap.find id tasks ≡ none
      → gets_block (OrderedMap.insert id (b ∷ []) tasks) i bn
        ≡ (id == i && b.block_num == bn || gets_block tasks i bn)
  unfolding OrderedMap.find OrderedMap.insert
  gets_block-insert_new [] f = ground arith
  gets_block-insert_new ((j, w) ∷ tasks) f = elim (Bool-cases (ltb id j)) [
    | inl below ↦ rw below (ground arith)
    | inr not_below ↦ elim (Bool-cases (ltb j id)) [
      | inl above ↦
          rw (not_below, above)
            (ground (arith, gets_block-insert_new tasks (rw (not_below, above) at f)))
      | inr not_above ↦ absurd (let g = rw (not_below, not_above) at f in cc)
    ]
  ]

  gets_block-insert_more :
      (xs : List Block) (tasks : Tasks Block)
      → OrderedMap.find id tasks ≡ some xs
      → gets_block (OrderedMap.insert id (xs ++ b ∷ []) tasks) i bn
        ≡ (id == i && b.block_num == bn || gets_block tasks i bn)
  unfolding OrderedMap.find OrderedMap.insert
  gets_block-insert_more xs [] f = cc
  gets_block-insert_more xs ((j, w) ∷ tasks) f = elim (Bool-cases (ltb id j)) [
    | inl below ↦ rw below (known (Bool-cases (id == i)))
    | inr not_below ↦ elim (Bool-cases (ltb j id)) [
      | inl above ↦
          rw (not_below, above)
            (ground (arith, gets_block-insert_more xs tasks (rw (not_below, above) at f)))
      | inr not_above ↦
          let e : w ≡ xs = some-injective w xs (rw (not_below, not_above) at f) in
          rw (not_below, not_above, e) (ground (arith, has_num-snoc xs b bn))
    ]
  ]
    where
      known :
          ((id == i) ≡ true) ⊎ ((id == i) ≡ false)
          → (id == i && has_num (xs ++ b ∷ []) bn || gets_block ((j, w) ∷ tasks) i bn)
            ≡ (id == i && b.block_num == bn || gets_block ((j, w) ∷ tasks) i bn)
      known (inl hit) =
          let e = (==_iff id i).0 hit in
          let k : has_num xs bn ≡ true → gets_block ((j, w) ∷ tasks) i bn ≡ true =
            subst (λ t. has_num xs bn ≡ true → gets_block ((j, w) ∷ tasks) t bn ≡ true) e
              (find-gets_block id bn xs ((j, w) ∷ tasks) f) in
          rw (hit, has_num-snoc xs b bn) (implied (b.block_num == bn) (has_num xs bn) _ k)
      known (inr miss) = rw miss refl

pub gets_block-push_back :
    (id : ℕ) (b : Block) (tasks : Tasks Block) (i bn : ℕ)
    → gets_block (push_back id b tasks) i bn
      ≡ (id == i && b.block_num == bn || gets_block tasks i bn)
unfolding push_back
gets_block-push_back id b tasks i bn = elim (Option-cases (OrderedMap.find id tasks)) [
  | inl e ↦ rw (push_back, e) (gets_block-insert_new id b i bn tasks e)
  | inr (xs, e) ↦ rw (push_back, e) (gets_block-insert_more id b i bn xs tasks e)
]

pub gets_block-push_all :
    (b : Block) (ids : List ℕ) (tasks : Tasks Block) (i bn : ℕ)
    → gets_block (push_all b ids tasks) i bn
      ≡ (is_requested ids i && b.block_num == bn || gets_block tasks i bn)
unfolding push_all is_requested
gets_block-push_all b [] tasks i bn = refl
gets_block-push_all b (id ∷ ids) tasks i bn = ground (
  arith,
  gets_block-push_all b ids (push_back id b tasks) i bn,
  gets_block-push_back id b tasks i bn,
)

pub All-insert {ℓ} :
    {V : Type ℓ} (P : ℕ × V → Type 0) (k : ℕ) (v : V) (m : OrderedMap ℕ V)
    → P (k, v)
    → All P m
    → All P (OrderedMap.insert k v m)
unfolding OrderedMap.insert
All-insert P k v [] h a = (h, tt)
All-insert P k v ((j, w) ∷ m) h a = elim (Bool-cases (ltb k j)) [
  | inl below ↦ rw below (h, a)
  | inr not_below ↦ elim (Bool-cases (ltb j k)) [
    | inl above ↦ rw (not_below, above) (a.0, All-insert P k v m h a.1)
    | inr not_above ↦ rw (not_below, not_above) (h, a.1)
  ]
]

module _ (nodes : OrderedMap ℕ StorageNode) where
  -- Only healthy nodes have tasks.
  abbrev pub AreHealthy : List (ℕ × List Block) → Type 0
  AreHealthy tasks = All (λ (e : ℕ × List Block). healthy_in nodes e.0 ≡ true) tasks

  pub push_all-AreHealthy :
      (b : Block) (ids : List ℕ) (tasks : Tasks Block)
      → All (λ id. healthy_in nodes id ≡ true) ids
      → AreHealthy tasks
      → AreHealthy (push_all b ids tasks)
  unfolding push_all push_back
  push_all-AreHealthy b [] tasks h a = a
  push_all-AreHealthy b (id ∷ ids) tasks h a =
      push_all-AreHealthy b ids (push_back id b tasks) h.1
        (elim (Option-cases (OrderedMap.find id tasks)) [
          | inl e ↦ rw (push_back, e) (All-insert _ id (b ∷ []) tasks h.0 a)
          | inr (xs, e) ↦ rw (push_back, e) (All-insert _ id (xs ++ b ∷ []) tasks h.0 a)
        ])

  pub gather_healthy :
      (path : HashRing) (used : List ℕ)
      → All (λ id. healthy_in nodes id ≡ true) used
      → All (λ id. healthy_in nodes id ≡ true) (gather nodes path used)
  gather_healthy [] used a = a
  gather_healthy ((k, vn) ∷ path) used a =
      elim (Bool-cases (chosen nodes used vn.physical_node_id)) [
        | inl hit ↦ rw hit (
            gather_healthy path (used ++ vn.physical_node_id ∷ [])
              (All-append _ used (vn.physical_node_id ∷ []) a (ground arith, tt)))
        | inr miss ↦ rw miss (gather_healthy path used a)
      ]

  pub All-take :
      (n : ℕ) (ids : List ℕ)
      → All (λ id. healthy_in nodes id ≡ true) ids
      → All (λ id. healthy_in nodes id ≡ true) (take n ids)
  All-take zero ids a = tt
  All-take (suc n) [] a = tt
  All-take (suc n) (id ∷ ids) a = (a.0, All-take n ids a.1)

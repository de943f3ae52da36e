-- ===== src/MasterServer/Belonging.antt =====
-- Which blocks belong on which nodes, `StoreEndpoint::putHandler` of src/master/master_server.cpp, and
-- what the key's map says of it.
use rackkey.Common.{
  ℕ, ◌≤◌, ◌<◌, ◌≡◌, ◌≢◌, refl, sym, subst, arith, List, [], ◌∷◌, Bool, true, false, ◌==◌, ==_iff,
  ==-refl, Bool-cases, inl, inr, some, All, length, length-take_le,
}
use rackkey.Block.{Block}
use rackkey.DiskStorage.Reading.{is_requested}
use rackkey.OrderedMap
use rackkey.OrderedMap.{OrderedMap}
use rackkey.OrderedMap.Laws.{same_refl}
use rackkey.OrderedMap.Order.{nat_ord, key_ord}
use package.rackkey.MasterServer.{MasterServer, NodeSet, BlockNodeMap}
use package.rackkey.MasterServer.Getting.Choice.{nums_of}
use package.rackkey.MasterServer.Placement.{clockwise, gather, healthy_in}
use package.rackkey.MasterServer.Putting.{block_hash, replicas}
use package.rackkey.MasterServer.Putting.Assigning.{has_num, gather_healthy, All-take}
use package.rackkey.MasterServer.Putting.Placed.{nodes_for, belongs}
use package.rackkey.MasterServer.Putting.Sending.{is_in}

pub same_bool : (b c : Bool) → (b ≡ true → c ≡ true) → (c ≡ true → b ≡ true) → b ≡ c
same_bool true c f g = sym (f refl)
same_bool false true f g = g refl
same_bool false false f g = refl

requested-All :
    (P : ℕ → Type 0) (ids : List ℕ) (id : ℕ) → All P ids → is_requested ids id ≡ true → P id
unfolding is_requested
requested-All P [] id a h = absurd cc
requested-All P (j ∷ ids) id a h = elim (Bool-cases (j == id)) [
  | inl hit ↦ subst P ((==_iff j id).0 hit) a.0
  | inr miss ↦ requested-All P ids id a.1 (rw miss at h)
]

pub requested-find :
    (m : BlockNodeMap) (n : ℕ)
    → is_requested (nums_of m) n ≡ true
    → (ids : NodeSet) × (OrderedMap.find n m ≡ some ids)
unfolding is_requested OrderedMap.find
requested-find [] n h = absurd cc
requested-find ((bn, ids) ∷ m) n h = elim (Bool-cases (bn == n)) [
  | inl hit ↦ let s : OrderedMap.same bn n ≡ true = ground arith in (ids, rw s refl)
  | inr miss ↦
      let s : OrderedMap.same bn n ≡ false = ground arith in
      let (found, e) = requested-find m n (rw miss at h) in (found, rw s e)
]

pub find-requested :
    (m : BlockNodeMap) (n : ℕ) (ids : NodeSet)
    → OrderedMap.find n m ≡ some ids
    → is_requested (nums_of m) n ≡ true
unfolding is_requested OrderedMap.find
find-requested [] n ids e = absurd cc
find-requested ((bn, xs) ∷ m) n ids e = elim (Bool-cases (bn == n)) [
  | inl hit ↦ rw hit refl
  | inr miss ↦
      let s : OrderedMap.same bn n ≡ false = ground arith in
      rw miss (find-requested m n ids (rw s at e))
]

-- A set that is not empty has an element.
pub element : (ids : NodeSet) → ids ≢ [] → (id : ℕ) × (is_in ids id ≡ true)
element [] full = absurd (full refl)
element ((id, u) ∷ ids) full = (id, unfold OrderedMap.find in rw (same_refl id) refl)

first_of : (ids : List ℕ) → 0 < length ids → (id : ℕ) × (is_requested ids id ≡ true)
first_of [] h = absurd (omega arith)
first_of (id ∷ ids) h = (id, unfold is_requested in rw (==-refl id) refl)

module _ (sha256_32 : List ℕ → ℕ) (ms : MasterServer) (key : List ℕ) where
  abbrev pub on : List Block → ℕ → ℕ → Bool
  on = belongs sha256_32 ms.hash_ring ms.storage_nodes (replicas ms) key

  abbrev targets : Block → List ℕ
  targets = nodes_for sha256_32 ms.hash_ring ms.storage_nodes (replicas ms) key

  pub on-healthy :
      (blocks : List Block) (id bn : ℕ)
      → on blocks id bn ≡ true
      → healthy_in ms.storage_nodes id ≡ true
  on-healthy [] id bn h = absurd cc
  on-healthy (b ∷ blocks) id bn h = elim (Bool-cases (is_requested (targets b) id)) [
    | inl hit ↦
        requested-All (λ i. healthy_in ms.storage_nodes i ≡ true) (targets b) id
          (All-take ms.storage_nodes (replicas ms) _ (
            gather_healthy ms.storage_nodes (clockwise (block_hash sha256_32 key b) ms.hash_ring) []
              tt))
          hit
    | inr miss ↦ on-healthy blocks id bn (ground arith)
  ]

  pub on-has_num :
      (blocks : List Block) (id bn : ℕ) → on blocks id bn ≡ true → has_num blocks bn ≡ true
  on-has_num [] id bn h = absurd cc
  on-has_num (b ∷ blocks) id bn h = ground (arith, on-has_num blocks id bn)

  pub has_num-on :
      0 < replicas ms
      → ((h : ℕ) → replicas ms ≤ length (gather ms.storage_nodes (clockwise h ms.hash_ring) []))
      → (blocks : List Block) (bn : ℕ) → has_num blocks bn ≡ true
      → (id : ℕ) × (on blocks id bn ≡ true)
  has_num-on some_nodes enough [] bn h = absurd cc
  has_num-on some_nodes enough (b ∷ blocks) bn h = elim (Bool-cases (b.block_num == bn)) [
    | inl hit ↦
        let n : length (targets b) ≡ replicas ms =
          length-take_le (replicas ms) _ (enough (block_hash sha256_32 key b)) in
        let (id, e) = first_of (targets b) (omega (arith, n)) in (id, rw (hit, e) refl)
    | inr miss ↦
        let (id, e) = has_num-on some_nodes enough blocks bn (rw miss at h) in
        (id, rw e (ground arith))
  ]

-- ===== src/MasterServer/Placement.antt =====
-- The search for a block's nodes in `StoreEndpoint::putHandler` of src/master/master_server.cpp:
-- what it looks for, told without the loop.
pub mod Walk
pub mod Search
pub mod Starved
use rackkey.Common.{
  ℕ, ◌≡◌, List, [], ◌∷◌, ◌++◌, Bool, true, false, ◌&&◌, not, Option, none, some, ltb, if◌then◌else◌,
  All,
}
use rackkey.Common.Results.{ok}
use rackkey.DiskStorage.Reading.{is_requested}
use rackkey.HashRing
use rackkey.HashRing.{HashRing, VirtualNode}
use rackkey.OrderedMap
use rackkey.OrderedMap.{OrderedMap}
use rackkey.OrderedMap.Laws.{IsSorted}
use rackkey.OrderedMap.Order.{nat_ord}
use rackkey.StorageNode.{StorageNode}

-- The ring's entries above a hash, and the others.
abbrev pub after : ℕ → HashRing → HashRing
after h [] = []
after h ((k, vn) ∷ ring) = let rest = after h ring in if ltb h k then (k, vn) ∷ rest else rest

abbrev pub until : ℕ → HashRing → HashRing
until h [] = []
until h ((k, vn) ∷ ring) = let rest = until h ring in if ltb h k then rest else (k, vn) ∷ rest

-- One round of the ring, clockwise from a hash.
abbrev pub clockwise : ℕ → HashRing → HashRing
clockwise h ring = after h ring ++ until h ring

abbrev pub healthy_in : OrderedMap ℕ StorageNode → ℕ → Bool
healthy_in nodes id = elim (OrderedMap.find id nodes) [ none ↦ false | some sn ↦ sn.is_healthy ]

-- A healthy node that is not in `used`.
abbrev pub chosen : OrderedMap ℕ StorageNode → List ℕ → ℕ → Bool
chosen nodes used id = not (is_requested used id) && healthy_in nodes id

-- The healthy nodes along the entries, each at its first occurrence, behind those in `used`.
abbrev pub gather : OrderedMap ℕ StorageNode → HashRing → List ℕ → List ℕ
gather nodes [] used = used
gather nodes ((k, vn) ∷ ring) used =
    let id = vn.physical_node_id in
    gather nodes ring (if chosen nodes used id then used ++ (id ∷ []) else used)

-- A ring in order, whose entries stand at their nodes' hashes and belong to nodes that exist.
pub record IsReady (sha256_32 : List ℕ → ℕ) (ring : HashRing) (nodes : OrderedMap ℕ StorageNode)
    : Type 0 where
  pub sorted : IsSorted ring
  pub hashed : All (λ (e : ℕ × VirtualNode). HashRing.hash sha256_32 e.1 ≡ e.0) ring
  pub known :
      All
        (λ (e : ℕ × VirtualNode).
          (sn : StorageNode) × (OrderedMap.find e.1.physical_node_id nodes ≡ some sn))
        ring

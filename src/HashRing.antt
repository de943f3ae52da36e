-- ===== src/HashRing.antt =====
-- src/master/hash_ring.cpp and hash_ring.hpp: the ring of virtual nodes for consistent hashing.
-- The ring is a `std::map` from hash values to virtual nodes. The hash, SHA-256 cut to 32 bits,
-- comes from OpenSSL and is a parameter.
pub mod Laws
mod Examples
use rackkey.Common.{
  ℕ, List, [], ◌∷◌, Bool, ◌&&◌, Option, none, some, list_beq, ◌==◌, length, if◌then◌else◌,
}
use rackkey.Common.Results.{Result, ok, fault}
use rackkey.OrderedMap
use rackkey.OrderedMap.{OrderedMap}
use rackkey.OrderedMap.Order.{nat_ord}

pub record VirtualNode : Type 0 where
  pub id : List ℕ
  pub physical_node_id : ℕ

unfoldable pub equals : VirtualNode → VirtualNode → Bool
equals vn other = list_beq vn.id other.id && vn.physical_node_id == other.physical_node_id

abbrev pub HashRing : Type 0
HashRing = OrderedMap ℕ VirtualNode

abbrev pub empty : HashRing
empty = []

module _ (sha256_32 : List ℕ → ℕ) where
  unfoldable pub hash : VirtualNode → ℕ
  hash vn = sha256_32 vn.id

  unfoldable pub add_node : HashRing → VirtualNode → HashRing
  unfolding hash
  add_node ring vn = OrderedMap.insert (hash vn) vn ring

  unfoldable pub remove_node : HashRing → VirtualNode → HashRing
  unfolding hash
  remove_node ring vn = OrderedMap.erase (hash vn) ring

unfoldable pub get_node_count : HashRing → ℕ
get_node_count ring = length ring

-- `ring.begin()->second`: on an empty ring it is undefined.
first_node : HashRing → Result VirtualNode
first_node [] = fault
first_node ((h, vn) ∷ ring) = ok vn

unfoldable pub find_next_node : HashRing → ℕ → Result VirtualNode
unfolding first_node
find_next_node ring h = elim (OrderedMap.upper_bound h ring) [
  | none ↦ first_node ring
  | some (_, vn) ↦ ok vn
]

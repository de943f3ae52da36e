-- ===== src/MasterServer/Getting/Unavailable.antt =====
-- /store GET of src/master/master_server.cpp, where a block has no healthy node.
use rackkey.Common.{
  ℕ, ◌≡◌, refl, ◌∙◌, arith, List, [], ◌∷◌, Bool, true, false, ◌||◌, ◌&&◌, Bool-cases, inl, inr,
  none, some, All,
}
use rackkey.Common.Results.{ok, throw, no_healthy_node}
use rackkey.OrderedMap
use rackkey.OrderedMap.{OrderedMap}
use rackkey.OrderedMap.Order.{nat_ord, key_ord}
use rackkey.StorageNode.{StorageNode}
use package.rackkey.MasterServer.{
  MasterServer, Network, Order, Tasks, NodeSet, BlockNodeMap, node_of, push_back,
}
use package.rackkey.MasterServer.Getting.{first_healthy, choose_nodes, get_stored, get_handler}
use package.rackkey.MasterServer.Placement.{healthy_in}
use package.rackkey.MasterServer.Placement.Search.{healthy_in-some}

module _ (nodes : OrderedMap ℕ StorageNode) where
  -- The ids of a set, or of a map's sets, are those of nodes that exist.
  abbrev pub AreNodes : NodeSet → Type 0
  AreNodes ids =
      All (λ (e : ℕ × Unit {0}). (sn : StorageNode) × (OrderedMap.find e.0 nodes ≡ some sn)) ids

  abbrev pub IsClosed : BlockNodeMap → Type 0
  IsClosed m = All (λ (e : ℕ × NodeSet). AreNodes e.1) m

  abbrev pub has_healthy : NodeSet → Bool
  has_healthy [] = false
  has_healthy ((id, _) ∷ ids) = healthy_in nodes id || has_healthy ids

  -- Every block has a healthy node.
  abbrev pub is_available : BlockNodeMap → Bool
  is_available [] = true
  is_available ((bn, ids) ∷ m) = has_healthy ids && is_available m

  first_healthy-none :
      (ids : NodeSet) → AreNodes ids → has_healthy ids ≡ false → first_healthy nodes ids ≡ ok none
  unfolding first_healthy node_of
  first_healthy-none [] k h = refl
  first_healthy-none ((id, _) ∷ ids) (((sn, e), k)) h =
      let down : sn.is_healthy ≡ false = ground (arith, healthy_in-some nodes id sn e) in
      rw (first_healthy, node_of, e, down) (first_healthy-none ids k (ground arith))

  first_healthy-some :
      (ids : NodeSet)
      → AreNodes ids
      → has_healthy ids ≡ true
      → (id : ℕ) × (first_healthy nodes ids ≡ ok (some id)) × (healthy_in nodes id ≡ true)
  unfolding first_healthy node_of
  first_healthy-some [] k h = absurd (cc)
  first_healthy-some ((id, _) ∷ ids) (((sn, e), k)) h = elim (Bool-cases sn.is_healthy) [
    | inl up ↦ (id, rw (first_healthy, node_of, e, up) refl, healthy_in-some nodes id sn e ∙ up)
    | inr down ↦
        let (i, f, g) = first_healthy-some ids k (ground (arith, healthy_in-some nodes id sn e)) in
        (i, rw (first_healthy, node_of, e, down) f, g)
  ]

  choose_nodes_unavailable :
      (m : BlockNodeMap) (tasks : Tasks ℕ)
      → IsClosed m
      → is_available m ≡ false
      → choose_nodes nodes m tasks ≡ throw no_healthy_node
  unfolding choose_nodes
  choose_nodes_unavailable [] tasks k h = absurd (cc)
  choose_nodes_unavailable ((bn, ids) ∷ m) tasks k h = elim (Bool-cases (has_healthy ids)) [
    | inl up ↦
        let (id, f, g) = first_healthy-some ids k.0 up in
        rw (choose_nodes, f) (choose_nodes_unavailable m (push_back id bn tasks) k.1 (rw up at h))
    | inr down ↦ rw (choose_nodes, first_healthy-none ids k.0 down) refl
  ]

-- A get of a stored key whose nodes exist and of which some block has no healthy node ends with the
-- exception, without a reply by the handler, and changes nothing.
pub get_handler_unavailable :
    (network : Network) (order : Order ℕ) (key : List ℕ) (m : BlockNodeMap) (ms : MasterServer)
    → OrderedMap.find key ms.key_block_node_map ≡ some m
    → IsClosed ms.storage_nodes m
    → is_available ms.storage_nodes m ≡ false
    → get_handler network order key ms ≡ (throw no_healthy_node, ms)
unfolding get_handler get_stored
get_handler_unavailable network order key m ms stored k down =
    rw (get_handler, stored, get_stored, choose_nodes_unavailable ms.storage_nodes m [] k down) refl

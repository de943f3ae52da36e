-- ===== src/HashRing/Examples.antt =====
-- The ring's theorems at a ring of three nodes. The hash of a node is here the length of its id.
use rackkey.Common.{◌≡◌, refl, [], ◌∷◌}
use rackkey.Common.Results.{ok}
use rackkey.OrderedMap.Order.{nat_ord}
use rackkey.OrderedMap.Laws.{IsSorted}
use package.rackkey.HashRing.{VirtualNode, HashRing, find_next_node}
use package.rackkey.HashRing.Laws.{Clockwise, find_next_node-Clockwise}

abbrev first : VirtualNode
first = record { id = b'1' ∷ []; physical_node_id = 1 }

abbrev second : VirtualNode
second = record { id = b'2' ∷ b'2' ∷ []; physical_node_id = 2 }

abbrev two_nodes : HashRing
two_nodes = (1, first) ∷ (5, second) ∷ []

two_nodes-IsSorted : IsSorted two_nodes
two_nodes-IsSorted = (refl, tt)

find_next_node-Clockwise_example :
    (vn : VirtualNode) × (find_next_node two_nodes 5 ≡ ok vn) × Clockwise two_nodes 5 vn
find_next_node-Clockwise_example = find_next_node-Clockwise two_nodes 5 two_nodes-IsSorted (λ e. cc)

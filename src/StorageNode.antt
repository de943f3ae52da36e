-- ===== src/StorageNode.antt =====
-- src/master/storage_node.cpp and storage_node.hpp: a storage node as the master sees it.
use rackkey.Common.{ℕ, zero, suc, ◌+◌, List, [], ◌∷◌, ◌++◌, Bool, false, to_string}
use rackkey.HashRing.{VirtualNode}

pub record StorageNodeStats : Type 0 where
  pub blocks_stored : ℕ
  pub data_bytes_used : ℕ
  pub data_bytes_free : ℕ
  pub data_bytes_total : ℕ

abbrev pub no_stats : StorageNodeStats
no_stats = record {
  blocks_stored = 0;
  data_bytes_used = 0;
  data_bytes_free = 0;
  data_bytes_total = 0;
}

pub record StorageNode : Type 0 where
  pub id : ℕ
  pub ip_port : List ℕ
  pub is_healthy : Bool
  pub stats : StorageNodeStats
  pub virtual_nodes : List VirtualNode

-- The loop `for (int i = 0; i < numVirtualNodes; i++)`; `left` rounds remain.
unfoldable pub virtual_nodes_from : List ℕ → ℕ → ℕ → ℕ → List VirtualNode
unfolding to_string
virtual_nodes_from ip_port id i zero = []
virtual_nodes_from ip_port id i (suc left) =
    record { id = ip_port ++ (b':' ∷ to_string i); physical_node_id = id }
    ∷ virtual_nodes_from ip_port id (i + 1) left

unfoldable pub create_virtual_nodes : List ℕ → ℕ → ℕ → List VirtualNode
unfolding virtual_nodes_from
create_virtual_nodes ip_port id num_virtual_nodes =
    virtual_nodes_from ip_port id 0 num_virtual_nodes

-- The constructor; `id_generator` is the static counter, which the caller counts up.
unfoldable pub new_storage_node : ℕ → List ℕ → ℕ → StorageNode
unfolding create_virtual_nodes
new_storage_node id_generator ip_port num_virtual_nodes = record {
  id = id_generator;
  ip_port = ip_port;
  is_healthy = false;
  stats = no_stats;
  virtual_nodes = create_virtual_nodes ip_port id_generator num_virtual_nodes;
}

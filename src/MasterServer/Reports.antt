-- ===== src/MasterServer/Reports.antt =====
-- The texts that src/master/master_server.cpp prints to the console: `showKbn` and
-- `calculateAndShowBlockDistribution`.
use rackkey.Common.{ℕ, ◌+◌, List, [], ◌∷◌, ◌++◌, none, some, length, u32, to_string, codes}
use rackkey.OrderedMap
use rackkey.OrderedMap.{OrderedMap}
use rackkey.OrderedMap.Order.{nat_ord}
use package.rackkey.MasterServer.{NodeSet, BlockNodeMap, KeyBlockNodeMap}
use package.rackkey.MasterServer.Display.{newline}

-- `nodeBlockCounts[nodeId]++`, from 0 for a node that is not there.
unfoldable pub count_node : ℕ → OrderedMap ℕ ℕ → OrderedMap ℕ ℕ
count_node id counts = elim (OrderedMap.find id counts) [
  | none ↦ OrderedMap.insert id 1 counts
  | some count ↦ OrderedMap.insert id (u32 (count + 1)) counts
]

unfoldable pub count_nodes : NodeSet → OrderedMap ℕ ℕ × ℕ → OrderedMap ℕ ℕ × ℕ
unfolding count_node
count_nodes [] counted = counted
count_nodes ((id, _) ∷ ids) (counts, total) =
    count_nodes ids (count_node id counts, u32 (total + 1))

-- The blocks of each node, and of all nodes.
unfoldable pub count_replicas : BlockNodeMap → OrderedMap ℕ ℕ × ℕ → OrderedMap ℕ ℕ × ℕ
unfolding count_nodes
count_replicas [] counted = counted
count_replicas ((bn, ids) ∷ m) counted = count_replicas m (count_nodes ids counted)

counts_text : OrderedMap ℕ ℕ → List ℕ
unfolding to_string
counts_text [] = []
counts_text ((id, count) ∷ counts) =
    (((codes "  " ++ to_string id) ++ codes ": ") ++ to_string count ++ newline)
    ++ counts_text counts

distribution_text : List ℕ → ℕ → OrderedMap ℕ ℕ × ℕ → List ℕ
unfolding counts_text to_string
distribution_text key num_blocks (counts, total) =
    newline
    ++ (codes "-------------------" ++ newline)
    ++ (codes "key: " ++ key ++ newline)
    ++ (codes "unique blocks: " ++ to_string num_blocks ++ newline)
    ++ (codes "total blocks (including replicas): " ++ to_string total ++ newline)
    ++ (codes "block distribution:" ++ newline)
    ++ (codes "{" ++ newline)
    ++ counts_text counts
    ++ (codes "}" ++ newline)
    ++ (codes "-------------------" ++ newline)
    ++ newline

-- The text for a key's map.
unfoldable pub block_distribution : List ℕ → BlockNodeMap → List ℕ
unfolding distribution_text count_replicas
block_distribution key m = distribution_text key (u32 (length m)) (count_replicas m ([], 0))

-- The nodes of a block, with commas between them.
ids_text : NodeSet → List ℕ
unfolding to_string
ids_text [] = []
ids_text ((id, _) ∷ []) = to_string id
ids_text ((id, _) ∷ next ∷ ids) = to_string id ++ codes ", " ++ ids_text (next ∷ ids)

block_lines : BlockNodeMap → List ℕ
unfolding ids_text to_string
block_lines [] = []
block_lines ((bn, ids) ∷ m) =
    (codes "    Block " ++ to_string bn ++ codes ": { " ++ ids_text ids ++ codes " }" ++ newline)
    ++ block_lines m

-- A key of the map has a map in this model: the branch for a null pointer does not occur.
key_lines : KeyBlockNodeMap → List ℕ
unfolding block_lines
key_lines [] = []
key_lines ((key, m) ∷ kbn) =
    (codes "  \"" ++ key ++ codes "\": {" ++ newline)
    ++ block_lines m
    ++ (codes "  }" ++ newline)
    ++ key_lines kbn

unfoldable pub show_kbn : KeyBlockNodeMap → List ℕ
unfolding key_lines
show_kbn kbn = (codes "{" ++ newline) ++ key_lines kbn ++ (codes "}" ++ newline)

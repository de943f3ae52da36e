-- ===== src/MasterServer/Deleting.antt =====
-- /store DEL of src/master/master_server.cpp: `StoreEndpoint::deleteHandler` and `deleteBlocks`.
pub mod Erasing
use rackkey.Common.{
  ℕ, ◌+◌, ◌-◌, ◌^◌, List, [], ◌∷◌, Bool, true, false, ◌&&◌, Option, none, some, u32,
}
use rackkey.Common.Results.{ok}
use rackkey.Common.Exec.{pure, lift, gets, ◌>>=◌, ◌>>◌}
use rackkey.Http.{bare, status_ok, internal_error}
use rackkey.OrderedMap
use rackkey.OrderedMap.Order.{key_ord}
use rackkey.Payloads.{SizeInfo, deserialize_size}
use rackkey.StorageNode.{StorageNode}
use package.rackkey.MasterServer.{
  MasterServer, Action, Handler, Network, NodeSet, BlockNodeMap, add_node_id, node_of, set_node,
  get_http_client, answer_body, update_node_data_sizes, count_blocks,
}

-- The inner loop: `allNodeIds.insert(nodeId)` for each node of a block.
unfoldable pub add_node_ids : NodeSet → NodeSet → NodeSet
add_node_ids [] all_ids = all_ids
add_node_ids ((id, _) ∷ ids) all_ids = add_node_ids ids (add_node_id id all_ids)

-- The nodes that store a block of the key.
unfoldable pub all_node_ids : BlockNodeMap → NodeSet → NodeSet
unfolding add_node_ids
all_node_ids [] all_ids = all_ids
all_node_ids ((bn, ids) ∷ m) all_ids = all_node_ids m (add_node_ids ids all_ids)

-- The node's statistics after a delete.
unfoldable pub stats_after_delete : StorageNode → BlockNodeMap → SizeInfo → StorageNode
unfolding update_node_data_sizes count_blocks
stats_after_delete sn m size_info =
    let sized = update_node_data_sizes sn size_info in
    let kept = u32 (sized.stats.blocks_stored + 2 ^ 32 - count_blocks sn.id m) in
    record sized { stats = record (sized.stats) { blocks_stored = kept } }

deleted : ℕ → BlockNodeMap → Option (List ℕ) → Action Bool
unfolding stats_after_delete set_node
deleted id m none = pure false
deleted id m (some body) = do
  size_info ← lift (deserialize_size body)
  sn ← λ ms. lift (node_of ms.storage_nodes id) ms
  λ ms. (ok tt, set_node (stats_after_delete sn m size_info) ms)
  pure true

-- The task of one node; its request has no body. `m` is the key's map.
unfoldable pub delete_blocks : Network → BlockNodeMap → ℕ → Action Bool
unfolding deleted
delete_blocks network m id = do
  sn ← λ ms. lift (node_of ms.storage_nodes id) ms
  get_http_client sn
  deleted id m (answer_body (network id []))

unfoldable pub run_delete_tasks : Network → BlockNodeMap → List ℕ → Action Bool
unfolding delete_blocks
run_delete_tasks network m [] = pure true
run_delete_tasks network m (id ∷ ids) = do
  done ← delete_blocks network m id
  rest ← run_delete_tasks network m ids
  pure (done && rest)

finish_delete : List ℕ → Bool → Handler
finish_delete key true ms = (
  ok (bare status_ok ∷ []),
  record ms { key_block_node_map = OrderedMap.erase key ms.key_block_node_map },
)
finish_delete key false ms = (ok (bare internal_error ∷ []), ms)

-- `order` is the order in which the set of nodes is gone through.
delete_stored : Network → (NodeSet → List ℕ) → List ℕ → Option BlockNodeMap → Handler
unfolding all_node_ids run_delete_tasks finish_delete
delete_stored network order key none = pure (bare internal_error ∷ [])
delete_stored network order key (some m) = do
  done ← run_delete_tasks network m (order (all_node_ids m []))
  finish_delete key done

unfoldable pub delete_handler : Network → (NodeSet → List ℕ) → List ℕ → Handler
unfolding delete_stored
delete_handler network order key = do
  stored ← gets (λ ms. OrderedMap.find key ms.key_block_node_map)
  delete_stored network order key stored

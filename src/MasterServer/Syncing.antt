-- ===== src/MasterServer/Syncing.antt =====
-- The work of the master's constructor and of its health thread, src/master/master_server.cpp:
-- `syncWithStorageNode`, `syncWithStorageNodes` and a round of `checkNodeHealth`.
pub mod Interleaving
pub mod Race
pub mod Honest
pub mod Reported
use rackkey.Common.{
  ℕ, ◌+◌, List, [], ◌∷◌, Bool, true, false, ◌&&◌, Option, none, some, if◌then◌else◌, u32, map,
}
use rackkey.Common.Results.{Result, ok, throw, fault, failed_status}
use rackkey.Common.Exec.{pure, raise, lift, gets, ◌>>=◌, ◌>>◌}
use rackkey.Http.{Reply}
use rackkey.OrderedMap
use rackkey.OrderedMap.{OrderedMap}
use rackkey.OrderedMap.Order.{nat_ord, key_ord}
use rackkey.Payloads.{SyncInfo, deserialize_sync}
use rackkey.StorageNode.{StorageNode}
use package.rackkey.MasterServer.{
  MasterServer, MasterConfig, Action, Network, BlockNodeMap, KeyBlockNodeMap, add_node_id, node_of,
  set_node, get_http_client, is_ok, answer_body, update_node_data_sizes, initialise_storage_nodes,
  blank_server,
}

-- The loop over a key's numbers. A number that is not there gets an empty set first.
unfoldable pub assign_nums : ℕ → List ℕ → BlockNodeMap → BlockNodeMap
assign_nums id [] m = m
assign_nums id (bn ∷ nums) m = elim (OrderedMap.find bn m) [
  | none ↦ assign_nums id nums (OrderedMap.insert bn (add_node_id id []) m)
  | some ids ↦ assign_nums id nums (OrderedMap.insert bn (add_node_id id ids) m)
]

-- The key's map, or a new one.
unfoldable pub stored_or_new : Option BlockNodeMap → BlockNodeMap
stored_or_new none = []
stored_or_new (some m) = m

-- The loop over the keys that the node sent.
unfoldable pub sync_keys : ℕ → OrderedMap (List ℕ) (List ℕ) → KeyBlockNodeMap → KeyBlockNodeMap
unfolding assign_nums stored_or_new
sync_keys id [] kbn = kbn
sync_keys id ((key, nums) ∷ entries) kbn =
    sync_keys id entries
      (OrderedMap.insert key (assign_nums id nums (stored_or_new (OrderedMap.find key kbn))) kbn)

-- `blocksStored++` for each number of `nums`, and then for each key.
count_nums : List ℕ → ℕ → ℕ
count_nums [] cnt = cnt
count_nums (bn ∷ nums) cnt = count_nums nums (u32 (cnt + 1))

unfoldable pub count_entries : OrderedMap (List ℕ) (List ℕ) → ℕ → ℕ
unfolding count_nums
count_entries [] cnt = cnt
count_entries ((key, nums) ∷ entries) cnt = count_entries entries (count_nums nums cnt)

unfoldable pub synced : ℕ → SyncInfo → StorageNode → MasterServer → MasterServer
unfolding sync_keys count_entries update_node_data_sizes set_node
synced id info sn ms =
    let counted : StorageNode = record sn {
      stats = record (sn.stats) { blocks_stored = count_entries info.key_block_num_map 0 };
    } in
    set_node (update_node_data_sizes counted info.size_info)
      (record ms { key_block_node_map = sync_keys id info.key_block_num_map ms.key_block_node_map })

sync_answer : ℕ → Option (List ℕ) → Action Bool
unfolding synced
sync_answer id none = pure false
sync_answer id (some body) = do
  info ← lift (deserialize_sync body)
  sn ← λ ms. lift (node_of ms.storage_nodes id) ms
  λ ms. (ok tt, synced id info sn ms)
  pure true

-- The task of one node: whether it ended without an exception.
unfoldable pub sync_with_storage_node : Network → ℕ → Action Bool
unfolding sync_answer
sync_with_storage_node network id = do
  sn ← λ ms. lift (node_of ms.storage_nodes id) ms
  get_http_client sn
  sync_answer id (answer_body (network id []))

unfoldable pub run_sync_tasks : Network → List ℕ → Action Bool
unfolding sync_with_storage_node
run_sync_tasks network [] = pure true
run_sync_tasks network (id ∷ ids) = do
  done ← sync_with_storage_node network id
  rest ← run_sync_tasks network ids
  pure (done && rest)

-- The answers come in any order, `ids`. A task's exception leaves `task.wait()` and the constructor.
unfoldable pub sync_with_storage_nodes : Network → List ℕ → Action (Unit {0})
unfolding run_sync_tasks
sync_with_storage_nodes network ids = do
  done ← run_sync_tasks network ids
  if done then pure tt else raise failed_status

-- The constructor.
unfoldable pub new_server : (List ℕ → ℕ) → Network → List ℕ → ℕ → MasterConfig → Result MasterServer
unfolding sync_with_storage_nodes
new_server sha256_32 network ids id_generator config =
    let ms =
      initialise_storage_nodes sha256_32 id_generator config.storage_node_ips
        (blank_server config) in
    finished (sync_with_storage_nodes network ids ms)
  where
    finished : Result (Unit {0}) × MasterServer → Result MasterServer
    finished (ok _, ms) = ok ms
    finished (throw e, ms) = throw e
    finished (fault, ms) = fault

reply_is_ok : Option Reply → Bool
reply_is_ok none = false
reply_is_ok (some reply) = is_ok reply.status

-- `sn->isHealthy = …` for each node, in a round of the health thread.
unfoldable pub check_nodes : Network → OrderedMap ℕ StorageNode → OrderedMap ℕ StorageNode
unfolding reply_is_ok
check_nodes network [] = []
check_nodes network ((id, sn) ∷ nodes) =
    (id, record sn { is_healthy = reply_is_ok (network id []) }) ∷ check_nodes network nodes

-- The clients that the round opens.
open_clients : OrderedMap ℕ StorageNode → Action (Unit {0})
open_clients [] = pure tt
open_clients ((id, sn) ∷ nodes) = do get_http_client sn; open_clients nodes

unfoldable pub check_node_health : Network → Action (Unit {0})
unfolding check_nodes open_clients
check_node_health network = do
  nodes ← gets (λ ms. ms.storage_nodes)
  open_clients nodes
  λ ms. (ok tt, record ms { storage_nodes = check_nodes network ms.storage_nodes })

-- ===== src/MasterServer/Putting.antt =====
-- /store PUT of src/master/master_server.cpp: `StoreEndpoint::putHandler` and `sendBlocks`.
pub mod Splitting
pub mod Assigning
pub mod Placed
pub mod Sending
pub mod Delivered
pub mod Requests
pub mod Storing
use rackkey.Common.{
  ℕ, zero, suc, ◌+◌, ◌-◌, ◌^◌, min, List, [], ◌∷◌, ◌++◌, Bool, true, false, ◌&&◌, not, Option, none,
  some, ltb, ◌==◌, if◌then◌else◌, u32, length, to_string, take, drop,
}
use mathlib.Core.Option
use rackkey.Common.Results
use rackkey.Common.Results.{Result, ok, throw, fault}
use rackkey.Common.Exec.{pure, lift, gets, ◌>>=◌, ◌>>◌}
use rackkey.Block
use rackkey.Block.{Block}
use rackkey.DiskStorage.Reading.{is_requested}
use rackkey.HashRing
use rackkey.HashRing.{HashRing, VirtualNode}
use rackkey.Http.{Reply, bare, status_ok, internal_error}
use rackkey.OrderedMap
use rackkey.OrderedMap.{OrderedMap}
use rackkey.OrderedMap.Order.{nat_ord, key_ord}
use rackkey.Payloads.{SizeInfo, deserialize_size}
use rackkey.StorageNode.{StorageNode}
use package.rackkey.MasterServer.{
  MasterServer, Action, Handler, Network, NodeSet, BlockNodeMap, Tasks, Order, add_node_id, node_of,
  push_back, set_node, get_http_client, answer_body, update_node_data_sizes, count_blocks,
}

-- The loop over the payload: a block for every `size` bytes. `none` if it has not ended when the fuel
-- has, as with a block size of 0.
unfoldable pub split_payload : ℕ → List ℕ → ℕ → List ℕ → ℕ → ℕ → ℕ → Option (List Block)
split_payload zero key size payload payload_size i block_cnt =
    if ltb i payload_size then none else some []
split_payload (suc fuel) key size payload payload_size i block_cnt =
    let end = min (u32 (i + size)) payload_size in
    let bytes = take (end - i) (drop i payload) in
    let block : Block = record {
      key = key;
      block_num = block_cnt;
      data_size = length bytes;
      bytes = bytes;
    } in
    let rest =
      split_payload fuel key size payload payload_size (u32 (i + size)) (u32 (block_cnt + 1)) in
    let more = Option.map (λ (blocks : List Block). block ∷ blocks) rest in
    if ltb i payload_size then more else some []

unfoldable pub push_all : Block → List ℕ → Tasks Block → Tasks Block
push_all block [] tasks = tasks
push_all block (id ∷ ids) tasks = push_all block ids (push_back id block tasks)

-- A loop that does not end leaves its request without an answer.
unfoldable pub ended : {A : Type 0} → Option A → Result A
ended none = fault
ended (some a) = ok a

module _ (sha256_32 : List ℕ → ℕ) where
  -- The loop `while (cnt < R)`: the nodes that the block goes to, in the order found, behind those in
  -- `used`. `none` if the loop has not ended when the fuel has.
  unfoldable pub place :
      ℕ → HashRing → OrderedMap ℕ StorageNode → ℕ → ℕ → List ℕ → ℕ → Option (Result (List ℕ))
  place zero ring nodes r hash used cnt = if ltb cnt r then none else some (ok used)
  place (suc fuel) ring nodes r hash used cnt = elim (ltb cnt r) [
    | false ↦ some (ok used)
    | true ↦ elim (HashRing.find_next_node ring hash) [
      | fault ↦ some fault
      | throw e ↦ some (throw e)
      | ok vn ↦ elim (node_of nodes vn.physical_node_id) [
        | fault ↦ some fault
        | throw e ↦ some (throw e)
        | ok sn ↦
            let id = vn.physical_node_id in
            let chosen = not (is_requested used id) && sn.is_healthy in
            place fuel ring nodes r (HashRing.hash sha256_32 vn)
              (if chosen then used ++ (id ∷ []) else used) (if chosen then cnt + 1 else cnt)
      ]
    ]
  ]

  unfoldable pub block_hash : List ℕ → Block → ℕ
  block_hash key block = sha256_32 (key ++ to_string block.block_num)

  -- Every block goes to its nodes' lists. Each search for nodes has `fuel` rounds.
  unfoldable pub assign_blocks :
      ℕ
      → HashRing
      → OrderedMap ℕ StorageNode
      → ℕ
      → List ℕ
      → List Block
      → Tasks Block
      → Result (Tasks Block)
  unfolding place block_hash push_all ended
  assign_blocks fuel ring nodes r key [] tasks = ok tasks
  assign_blocks fuel ring nodes r key (block ∷ blocks) tasks =
      Results.◌>>=◌ (ended (place fuel ring nodes r (block_hash key block) [] 0)) λ placed.
        Results.◌>>=◌ placed
          λ ids. assign_blocks fuel ring nodes r key blocks (push_all block ids tasks)

-- `(*blockNodeMap)[block.blockNum].insert(storageNodeId)`
unfoldable pub record_block : ℕ → ℕ → BlockNodeMap → BlockNodeMap
record_block id bn m = elim (OrderedMap.find bn m) [
  | none ↦ OrderedMap.insert bn (add_node_id id []) m
  | some ids ↦ OrderedMap.insert bn (add_node_id id ids) m
]

unfoldable pub record_blocks : ℕ → List Block → BlockNodeMap → BlockNodeMap
unfolding record_block
record_blocks id [] m = m
record_blocks id (block ∷ blocks) m = record_blocks id blocks (record_block id block.block_num m)

blocks_of_key : ℕ → Option BlockNodeMap → ℕ
blocks_of_key id none = 0
blocks_of_key id (some m) = count_blocks id m

-- The node's statistics after a put.
unfoldable pub stats_after_send : StorageNode → Option BlockNodeMap → ℕ → SizeInfo → StorageNode
unfolding blocks_of_key update_node_data_sizes
stats_after_send sn old added size_info =
    let kept = u32 (sn.stats.blocks_stored + 2 ^ 32 - blocks_of_key sn.id old) in
    update_node_data_sizes
      (record sn { stats = record (sn.stats) { blocks_stored = u32 (kept + added) } }) size_info

sent : ℕ → List ℕ → List Block → Option (List ℕ) → BlockNodeMap → Action (Bool × BlockNodeMap)
unfolding record_blocks stats_after_send set_node
sent id key blocks none m = pure (false, m)
sent id key blocks (some body) m = do
  size_info ← lift (deserialize_size body)
  sn ← λ ms. lift (node_of ms.storage_nodes id) ms
  λ ms. (
    ok tt,
    set_node
        (stats_after_send sn (OrderedMap.find key ms.key_block_node_map) (length blocks) size_info)
        ms,
  )
  pure (true, record_blocks id blocks m)

-- The request `PUT /store/{key}` to a node, and the node's answer.
unfoldable pub request_put : Network → ℕ → List ℕ → List ℕ → Action (Option Reply)
request_put network id key body ms = (
  ok (network id body),
  record ms { puts_sent = record { node_id = id; key = key; body = body } ∷ ms.puts_sent },
)

-- The task of one node.
unfoldable pub send_blocks :
    Network → ℕ → List ℕ → List Block → BlockNodeMap → Action (Bool × BlockNodeMap)
unfolding sent request_put
send_blocks network id key blocks m = do
  sn ← λ ms. lift (node_of ms.storage_nodes id) ms
  get_http_client sn
  answer ← request_put network id key (Block.serialize_all blocks [])
  sent id key blocks (answer_body answer) m

unfoldable pub run_send_tasks :
    Network → List ℕ → List (ℕ × List Block) → BlockNodeMap → Action (Bool × BlockNodeMap)
unfolding send_blocks
run_send_tasks network key [] m = pure (true, m)
run_send_tasks network key ((id, blocks) ∷ tasks) m = do
  (done, m) ← send_blocks network id key blocks m
  (rest, m) ← run_send_tasks network key tasks m
  pure (done && rest, m)

finish_put : List ℕ → Bool × BlockNodeMap → Handler
finish_put key (true, m) ms = (
  ok (bare status_ok ∷ []),
  record ms { key_block_node_map = OrderedMap.insert key m ms.key_block_node_map },
)
finish_put key (false, m) ms = (ok (bare internal_error ∷ []), ms)

unfoldable pub replicas : MasterServer → ℕ
replicas ms = min ms.config.replication_factor ms.config.num_storage_nodes

-- `fuel` bounds the rounds of each search for nodes; the payload's length, those of the split.
unfoldable pub put_handler : (List ℕ → ℕ) → ℕ → Network → Order Block → List ℕ → List ℕ → Handler
unfolding split_payload assign_blocks run_send_tasks finish_put replicas ended
put_handler sha256_32 fuel network order key payload = do
  size ← gets (λ ms. ms.config.data_block_size)
  blocks ← lift (ended (split_payload (length payload) key size payload (u32 (length payload)) 0 0))
  tasks ← λ ms.
      lift (assign_blocks sha256_32 fuel ms.hash_ring ms.storage_nodes (replicas ms) key blocks [])
        ms
  outcome ← run_send_tasks network key (order tasks) []
  finish_put key outcome

-- ===== src/MasterServer/Getting.antt =====
-- /store GET of src/master/master_server.cpp: `StoreEndpoint::getHandler` and `getBlocks`.
pub mod Receipt
pub mod Reading
pub mod Choice
pub mod Unavailable
pub mod Available
use rackkey.Common.{
  ℕ, List, [], ◌∷◌, ◌++◌, Bool, true, false, ◌&&◌, Option, none, some, if◌then◌else◌,
}
use rackkey.Common.Results
use rackkey.Common.Results.{Result, ok, throw, fault, no_healthy_node}
use rackkey.Common.Exec.{pure, lift, gets, ◌>>=◌, ◌>>◌}
use rackkey.Block
use rackkey.Block.{Block}
use rackkey.Http.{Reply, bare, status_ok, internal_error}
use rackkey.OrderedMap
use rackkey.OrderedMap.{OrderedMap}
use rackkey.OrderedMap.Order.{nat_ord, key_ord}
use rackkey.Payloads.{put_nums}
use rackkey.StorageNode.{StorageNode}
use package.rackkey.MasterServer.{
  MasterServer, Action, Handler, Network, NodeSet, BlockNodeMap, Tasks, Order, node_of, push_back,
  get_http_client, answer_body,
}

-- The first node of the set that is healthy.
unfoldable pub first_healthy : OrderedMap ℕ StorageNode → NodeSet → Result (Option ℕ)
first_healthy nodes [] = ok none
first_healthy nodes ((id, _) ∷ ids) =
    Results.◌>>=◌ (node_of nodes id)
      λ sn. let rest = first_healthy nodes ids in if sn.is_healthy then ok (some id) else rest

-- The node that each block is asked from. No handler catches what this throws.
unfoldable pub choose_nodes : OrderedMap ℕ StorageNode → BlockNodeMap → Tasks ℕ → Result (Tasks ℕ)
unfolding first_healthy
choose_nodes nodes [] tasks = ok tasks
choose_nodes nodes ((bn, ids) ∷ m) tasks = Results.◌>>=◌ (first_healthy nodes ids) λ chosen.
    elim chosen [
      | none ↦ throw no_healthy_node
      | some id ↦ choose_nodes nodes m (push_back id bn tasks)
    ]

abbrev pub BlockMap : Type 0
BlockMap = OrderedMap ℕ Block

-- `blockMap->insert({block.blockNum, block})` keeps a block that is there.
unfoldable pub insert_new : Block → BlockMap → BlockMap
insert_new block block_map = elim (OrderedMap.find block.block_num block_map) [
  | none ↦ OrderedMap.insert block.block_num block block_map
  | some _ ↦ block_map
]

unfoldable pub insert_blocks : List Block → BlockMap → BlockMap
unfolding insert_new
insert_blocks [] block_map = block_map
insert_blocks (block ∷ blocks) block_map = insert_blocks blocks (insert_new block block_map)

received : Option (List ℕ) → BlockMap → Action (Bool × BlockMap)
unfolding insert_blocks
received none block_map = pure (false, block_map)
received (some body) block_map = do
  blocks ← lift (Block.deserialize body)
  pure (true, insert_blocks blocks block_map)

-- The task of one node: whether it ended without an exception, and the blocks received so far.
unfoldable pub get_blocks : Network → ℕ → List ℕ → BlockMap → Action (Bool × BlockMap)
unfolding received
get_blocks network id nums block_map = do
  sn ← λ ms. lift (node_of ms.storage_nodes id) ms
  get_http_client sn
  received (answer_body (network id (put_nums nums []))) block_map

unfoldable pub run_get_tasks : Network → List (ℕ × List ℕ) → BlockMap → Action (Bool × BlockMap)
unfolding get_blocks
run_get_tasks network [] block_map = pure (true, block_map)
run_get_tasks network ((id, nums) ∷ tasks) block_map = do
  (done, block_map) ← get_blocks network id nums block_map
  (rest, block_map) ← run_get_tasks network tasks block_map
  pure (done && rest, block_map)

-- The data of the blocks, in the order of their numbers.
unfoldable pub combine : BlockMap → List ℕ
combine [] = []
combine ((bn, block) ∷ block_map) = block.bytes ++ combine block_map

get_reply : Bool × BlockMap → List Reply
unfolding combine
get_reply (true, block_map) = record { status = status_ok; body = combine block_map } ∷ []
get_reply (false, block_map) = bare internal_error ∷ []

get_stored : Network → Order ℕ → Option BlockNodeMap → Handler
unfolding choose_nodes run_get_tasks get_reply
get_stored network order none = pure (bare internal_error ∷ [])
get_stored network order (some block_node_map) = do
  tasks ← λ ms. lift (choose_nodes ms.storage_nodes block_node_map []) ms
  received ← run_get_tasks network (order tasks) []
  pure (get_reply received)

unfoldable pub get_handler : Network → Order ℕ → List ℕ → Handler
unfolding get_stored
get_handler network order key = do
  stored ← gets (λ ms. OrderedMap.find key ms.key_block_node_map)
  get_stored network order stored

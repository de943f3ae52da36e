-- ===== src/MasterServer.antt =====
-- src/master/master_server.cpp: the master's state, and the helpers that its endpoints share.
-- A task that sends a request to a storage node is a function of the node's answer, which is a
-- parameter: `Network`. The tasks of a handler run side by side; here they run one after another,
-- in an order that is a parameter too.
pub mod Getting
pub mod Putting
pub mod Deleting
pub mod Syncing
pub mod Display
pub mod Reports
pub mod Routing
pub mod Placement
pub mod Startup
mod Examples
mod ClusterExamples
mod StoredExamples
pub mod Numbers
pub mod Belonging
pub mod Keeping
pub mod RoundTrip
use rackkey.Common.{
  ℕ, zero, suc, ◌+◌, ◌-◌, ◌%◌, ◌^◌, List, [], ◌∷◌, ◌++◌, map, Bool, true, false, Option, none, some,
  ◌==◌, list_beq, if◌then◌else◌, length, u32,
}
use rackkey.Common.Results
use rackkey.Common.Results.{Result, ok, throw, fault}
use rackkey.Common.Exec.{Exec, pure, raise, lift, gets, ◌>>=◌, ◌>>◌}
use rackkey.HashRing
use rackkey.HashRing.{HashRing, VirtualNode}
use rackkey.OrderedMap
use rackkey.OrderedMap.{OrderedMap}
use rackkey.OrderedMap.Order.{nat_ord, key_ord}
use rackkey.Http.{Reply, StatusCode, status_ok, internal_error, not_implemented}
use rackkey.Payloads.{SizeInfo}
use rackkey.StorageNode.{StorageNode, new_storage_node}

-- `std::set<uint32_t>`: the elements in order.
abbrev pub NodeSet : Type 0
NodeSet = OrderedMap ℕ (Unit {0})

abbrev pub add_node_id : ℕ → NodeSet → NodeSet
add_node_id id ids = OrderedMap.insert id tt ids

abbrev pub BlockNodeMap : Type 0
BlockNodeMap = OrderedMap ℕ NodeSet

abbrev pub KeyBlockNodeMap : Type 0
KeyBlockNodeMap = OrderedMap (List ℕ) BlockNodeMap

pub record MasterConfig : Type 0 where
  pub storage_node_ips : List (List ℕ)
  pub num_storage_nodes : ℕ
  pub num_virtual_nodes : ℕ
  pub replication_factor : ℕ
  pub data_block_size : ℕ

-- A request `PUT /store/{key}` that went out to a node.
pub record SentPut : Type 0 where
  pub node_id : ℕ
  pub key : List ℕ
  pub body : List ℕ

-- A client in `openConnections` is the address that it was made for. `puts_sent` is no field of the
-- source: it is the trace of the puts that went out to nodes, the latest first. No code reads it.
pub record MasterServer : Type 0 where
  pub hash_ring : HashRing
  pub key_block_node_map : KeyBlockNodeMap
  pub storage_nodes : OrderedMap ℕ StorageNode
  pub open_connections : OrderedMap ℕ (List ℕ)
  pub config : MasterConfig
  pub puts_sent : List SentPut

abbrev pub Action : Type 0 → Type 0
Action A = Exec MasterServer A

abbrev pub Handler : Type 0
Handler = Action (List Reply)

-- What a node answers to a request's payload; `none` if it cannot be reached.
abbrev pub Network : Type 0
Network = ℕ → List ℕ → Option Reply

-- Work for each node, `std::unordered_map<uint32_t, std::vector<…>>`. The order in which the map is
-- gone through is not specified.
abbrev pub Tasks : Type 0 → Type 0
Tasks A = OrderedMap ℕ (List A)

abbrev pub Order : Type 0 → Type 0
Order A = Tasks A → List (ℕ × List A)

-- `storageNodes[nodeId]`, dereferenced: for an id that is not there the pointer is null.
unfoldable pub node_of : OrderedMap ℕ StorageNode → ℕ → Result StorageNode
node_of nodes id = elim (OrderedMap.find id nodes) [ none ↦ fault | some sn ↦ ok sn ]

-- `nodeBlockMap[nodeId].push_back(x)`
unfoldable pub push_back : {A : Type 0} → ℕ → A → Tasks A → Tasks A
push_back id x tasks = elim (OrderedMap.find id tasks) [
  | none ↦ OrderedMap.insert id (x ∷ []) tasks
  | some xs ↦ OrderedMap.insert id (xs ++ (x ∷ [])) tasks
]

unfoldable pub set_node : StorageNode → MasterServer → MasterServer
set_node sn ms = record ms { storage_nodes = OrderedMap.insert sn.id sn ms.storage_nodes }

-- The client is the one of the address, new or old.
unfoldable pub get_http_client : StorageNode → Action (List ℕ)
get_http_client sn ms = elim (OrderedMap.find sn.id ms.open_connections) [
  | none ↦ (
    ok sn.ip_port,
    record ms { open_connections = OrderedMap.insert sn.id sn.ip_port ms.open_connections },
  )
  | some client ↦ (ok client, ms)
]

abbrev pub is_ok : StatusCode → Bool
is_ok status_ok = true
is_ok internal_error = false
is_ok not_implemented = false

-- The body of an answer with status OK. Without one, or with another status, the task throws.
unfoldable pub answer_body : Option Reply → Option (List ℕ)
answer_body none = none
answer_body (some reply) = if is_ok reply.status then some reply.body else none

-- `dataTotalSize - dataUsedSize` on `uint32_t`
unfoldable pub update_node_data_sizes : StorageNode → SizeInfo → StorageNode
update_node_data_sizes sn size_info = record sn {
  stats = record (sn.stats) {
    data_bytes_used = size_info.data_used_size;
    data_bytes_total = size_info.data_total_size;
    data_bytes_free = u32 (size_info.data_total_size + 2 ^ 32 - size_info.data_used_size);
  };
}

-- The number of blocks of a key that a node stores, as the map says.
unfoldable pub count_blocks : ℕ → BlockNodeMap → ℕ
count_blocks id [] = 0
count_blocks id ((bn, ids) ∷ m) =
    let rest = count_blocks id m in
    elim (OrderedMap.find id ids) [ none ↦ rest | some _ ↦ u32 (rest + 1) ]

module _ (sha256_32 : List ℕ → ℕ) where
  add_virtual_nodes : List VirtualNode → HashRing → HashRing
  add_virtual_nodes [] ring = ring
  add_virtual_nodes (vn ∷ vns) ring = add_virtual_nodes vns (HashRing.add_node sha256_32 ring vn)

  -- The loop over the addresses; `id_generator` is the static counter.
  unfoldable pub initialise_storage_nodes : ℕ → List (List ℕ) → MasterServer → MasterServer
  unfolding add_virtual_nodes new_storage_node
  initialise_storage_nodes id_generator [] ms = ms
  initialise_storage_nodes id_generator (ip_port ∷ ips) ms =
      let sn = new_storage_node id_generator ip_port ms.config.num_virtual_nodes in
      initialise_storage_nodes (id_generator + 1) ips (record ms {
        storage_nodes = OrderedMap.insert sn.id sn ms.storage_nodes;
        hash_ring = add_virtual_nodes sn.virtual_nodes ms.hash_ring;
      })

-- The fields before the constructor's body.
abbrev pub blank_server : MasterConfig → MasterServer
blank_server config = record {
  hash_ring = [];
  key_block_node_map = [];
  storage_nodes = [];
  open_connections = [];
  config = config;
  puts_sent = [];
}

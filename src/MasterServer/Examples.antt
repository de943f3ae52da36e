-- ===== src/MasterServer/Examples.antt =====
-- The theorems on placing, splitting, starting and syncing at concrete inputs. The hash of a text is here
-- its length.
use rackkey.Common.{
  ℕ, ◌≤◌, ◌<◌, ◌≡◌, refl, arith, List, [], ◌∷◌, true, false, some, none, length, u32, take,
  get_elem?, Bool-cases, inl, inr, ltb,
}
use rackkey.Common.Results.{ok}
use rackkey.DiskStorage.Reading.{is_requested}
use rackkey.Block.{Block}
use rackkey.HashRing
use rackkey.HashRing.{HashRing, VirtualNode}
use rackkey.OrderedMap
use rackkey.OrderedMap.{OrderedMap}
use rackkey.OrderedMap.Order.{nat_ord, key_ord}
use rackkey.StorageNode.{StorageNode, no_stats}
use package.rackkey.MasterServer.{
  MasterConfig, BlockNodeMap, initialise_storage_nodes, blank_server,
}
use package.rackkey.MasterServer.Placement.{clockwise, gather, IsReady}
use package.rackkey.MasterServer.Placement.Search.{place-clockwise}
use package.rackkey.MasterServer.Placement.Starved.{place-starved}
use package.rackkey.MasterServer.Putting.{place, split_payload}
use package.rackkey.MasterServer.Putting.Requests.{IsKeyed}
use package.rackkey.MasterServer.Putting.Sending.{stores}
use package.rackkey.MasterServer.Putting.Splitting.{IsSplit, split_payload-IsSplit}
use package.rackkey.MasterServer.Startup.{initialise_storage_nodes-IsReady}
use package.rackkey.MasterServer.Syncing.{assign_nums}
use package.rackkey.MasterServer.Syncing.Interleaving.{
  World, Round, waiting, finished, look_up_new, fill, store, Run, rest, next, new_world, reports,
}
use package.rackkey.MasterServer.Syncing.Race.{lost_update}
use package.rackkey.MasterServer.Syncing.Reported.{sync_reported}

abbrev pub node_a : StorageNode
node_a = record {
  id = 0;
  ip_port = b'a' ∷ [];
  is_healthy = true;
  stats = no_stats;
  virtual_nodes = [];
}

abbrev pub node_b : StorageNode
node_b = record {
  id = 1;
  ip_port = b'b' ∷ [];
  is_healthy = true;
  stats = no_stats;
  virtual_nodes = [];
}

abbrev pub two_ring : HashRing
two_ring =
    (1, record { id = b'a' ∷ []; physical_node_id = 0 })
    ∷ (2, record { id = b'b' ∷ b'b' ∷ []; physical_node_id = 1 })
    ∷ []

abbrev pub two_nodes : OrderedMap ℕ StorageNode
two_nodes = (0, node_a) ∷ (1, node_b) ∷ []

-- The second node is down.
abbrev pub one_up : OrderedMap ℕ StorageNode
one_up = (0, node_a) ∷ (1, record node_b { is_healthy = false }) ∷ []

pub two_nodes-IsReady : IsReady length two_ring two_nodes
unfolding OrderedMap.find HashRing.hash
two_nodes-IsReady = record {
  sorted = (refl, tt);
  hashed = (refl, (refl, tt));
  known = ((node_a, refl), ((node_b, refl), tt));
}

pub one_up-IsReady : IsReady length two_ring one_up
unfolding OrderedMap.find HashRing.hash
one_up-IsReady = record {
  sorted = (refl, tt);
  hashed = (refl, (refl, tt));
  known = ((node_a, refl), ((record node_b { is_healthy = false }, refl), tt));
}

-- From every hash, both nodes are found.
pub enough_two : (h : ℕ) → 2 ≤ length (gather two_nodes (clockwise h two_ring) [])
unfolding OrderedMap.find is_requested
enough_two h = elim (Bool-cases (ltb h 1)) [
  | inl below ↦ elim (Bool-cases (ltb h 2)) [
    | inl under ↦ rw (below, under) (omega arith)
    | inr over ↦ rw (below, over) (omega arith)
  ]
  | inr above ↦ elim (Bool-cases (ltb h 2)) [
    | inl under ↦ rw (above, under) (omega arith)
    | inr over ↦ rw (above, over) (omega arith)
  ]
]

pub few_one : (h : ℕ) → length (gather one_up (clockwise h two_ring) []) < 2
unfolding OrderedMap.find is_requested
few_one h = elim (Bool-cases (ltb h 1)) [
  | inl below ↦ elim (Bool-cases (ltb h 2)) [
    | inl under ↦ rw (below, under) (omega arith)
    | inr over ↦ rw (below, over) (omega arith)
  ]
  | inr above ↦ elim (Bool-cases (ltb h 2)) [
    | inl under ↦ rw (above, under) (omega arith)
    | inr over ↦ rw (above, over) (omega arith)
  ]
]

place-clockwise_example :
    place length 2 two_ring two_nodes 2 1 [] 0
    ≡ some (ok (take 2 (gather two_nodes (clockwise 1 two_ring) [])))
place-clockwise_example =
    place-clockwise length two_ring two_nodes 2 2 1 two_nodes-IsReady (omega arith) (enough_two 1)

place-starved_example : place length 100 two_ring one_up 2 1 [] 0 ≡ none
place-starved_example =
    place-starved length two_ring one_up 2 (λ e. cc) 100 1 one_up-IsReady (few_one 1)

split_payload-IsSplit_example :
    (blocks : List Block) × (split_payload 3 (b'k' ∷ []) 2 (1 ∷ 2 ∷ 3 ∷ []) (u32 3) 0 0
      ≡ some blocks)
    × IsSplit (b'k' ∷ []) 2 0 (1 ∷ 2 ∷ 3 ∷ []) blocks
split_payload-IsSplit_example =
    split_payload-IsSplit (b'k' ∷ []) 2 (1 ∷ 2 ∷ 3 ∷ []) (omega arith) (omega arith)

abbrev two_config : MasterConfig
two_config = record {
  storage_node_ips = (b'a' ∷ []) ∷ (b'b' ∷ b'c' ∷ []) ∷ [];
  num_storage_nodes = 2;
  num_virtual_nodes = 2;
  replication_factor = 2;
  data_block_size = 2;
}

initialise_storage_nodes-IsReady_example :
    IsReady length
      (initialise_storage_nodes length 0 two_config.storage_node_ips
        (blank_server two_config)).hash_ring
      (initialise_storage_nodes length 0 two_config.storage_node_ips
        (blank_server two_config)).storage_nodes
    × IsKeyed
        (initialise_storage_nodes length 0 two_config.storage_node_ips
          (blank_server two_config)).storage_nodes
initialise_storage_nodes-IsReady_example = initialise_storage_nodes-IsReady length 0 two_config

lost_update_example :
    (last : World) × (m : BlockNodeMap) × Run last
      (record { id = 0; key = b'k' ∷ []; nums = 0 ∷ []; phase = finished }
        ∷ record { id = 1; key = b'k' ∷ []; nums = 0 ∷ 1 ∷ []; phase = finished }
        ∷ [])
      new_world
      (record { id = 0; key = b'k' ∷ []; nums = 0 ∷ []; phase = waiting }
        ∷ record { id = 1; key = b'k' ∷ []; nums = 0 ∷ 1 ∷ []; phase = waiting }
        ∷ [])
    × (OrderedMap.find (b'k' ∷ []) last.pointers ≡ some 1)
    × (get_elem? last.heap 1 ≡ some m)
    × ((bn : ℕ) → stores m 1 bn ≡ is_requested (0 ∷ 1 ∷ []) bn)
    × ((bn : ℕ) → stores m 0 bn ≡ false)
lost_update_example = lost_update (b'k' ∷ []) 0 1 (0 ∷ []) (0 ∷ 1 ∷ []) (λ e. absurd (omega arith))

-- One node syncs one key.
abbrev one_round : List Round
one_round = record { id = 3; key = b'k' ∷ []; nums = 0 ∷ []; phase = waiting } ∷ []

abbrev one_done : List Round
one_done = record { id = 3; key = b'k' ∷ []; nums = 0 ∷ []; phase = finished } ∷ []

abbrev one_world : World
one_world = record { heap = ((0, (3, tt) ∷ []) ∷ []) ∷ []; pointers = (b'k' ∷ [], 0) ∷ [] }

one_round-Run : Run one_world one_done new_world one_round
unfolding OrderedMap.find OrderedMap.insert assign_nums
one_round-Run =
    next _ _ 0 _ _ _ refl (look_up_new refl refl)
      (next _ _ 0 _ _ _ refl (fill 0 [] refl refl) (next _ _ 0 _ _ _ refl (store 0 refl) rest))

sync_reported_example : reports one_round (b'k' ∷ []) 3 0 ≡ true
sync_reported_example =
    sync_reported one_round one_done one_world (b'k' ∷ []) 0 ((0, (3, tt) ∷ []) ∷ []) 3 0 (refl, tt)
      one_round-Run (unfold OrderedMap.find in refl) refl (unfold OrderedMap.find in refl)

-- ===== src/MasterServer/StoredExamples.antt =====
-- The theorems on gets and deletes at a master that stores a key.
use rackkey.Common.{
  ℕ, zero, suc, ◌≡◌, refl, arith, List, [], ◌∷◌, map, false, inl, inr, some, none, All,
  if◌then◌else◌,
}
use mathlib.Core.List.Permᴰ
use rackkey.Common.Results.{ok, throw, no_healthy_node}
use rackkey.Http.{status_ok, internal_error, bare}
use rackkey.OrderedMap
use rackkey.OrderedMap.{OrderedMap}
use rackkey.OrderedMap.Order.{nat_ord, key_ord}
use rackkey.Payloads.{serialize_size}
use rackkey.Payloads.Numbers.{deserialize_size-serialize_size}
use rackkey.Utils.{flatten}
use package.rackkey.MasterServer.{
  MasterServer, Network, BlockNodeMap, answer_body, node_of, push_back,
}
use package.rackkey.MasterServer.Deleting.{delete_handler}
use package.rackkey.MasterServer.Deleting.Erasing.{Reacts, ids_of, map_answers, delete_handler_lem}
use package.rackkey.MasterServer.Examples.{node_a, node_b, two_nodes, one_up}
use package.rackkey.MasterServer.Getting.{choose_nodes, get_handler}
use package.rackkey.MasterServer.Getting.Choice.{nums_of}
use package.rackkey.MasterServer.Getting.Reading.{Answers, get_handler_lem}
use package.rackkey.MasterServer.Getting.Unavailable.{
  IsClosed, is_available, get_handler_unavailable,
}
use package.rackkey.MasterServer.Numbers.{value_of, value_of_num}
use package.rackkey.MasterServer.ClusterExamples.{
  k_key, two_master, sizes, two_nodes-IsKeyed, two_blocks, serving, serving_answer,
}

-- The key's map: the first block on both nodes, the last one on the second node.
abbrev stored_map : BlockNodeMap
stored_map = (0, (0, tt) ∷ (1, tt) ∷ []) ∷ (1, (1, tt) ∷ []) ∷ []

abbrev stored_master : MasterServer
stored_master = record two_master { key_block_node_map = (k_key, stored_map) ∷ [] }

stored_find : OrderedMap.find k_key stored_master.key_block_node_map ≡ some stored_map
unfolding OrderedMap.find
stored_find = refl

stored_chosen : choose_nodes two_nodes stored_map [] ≡ ok ((0, 0 ∷ []) ∷ (1, 1 ∷ []) ∷ [])
unfolding choose_nodes node_of push_back OrderedMap.find OrderedMap.insert
stored_chosen = refl

stored-Answers :
    All (Answers serving (value_of two_blocks) two_nodes) ((0, 0 ∷ []) ∷ (1, 1 ∷ []) ∷ [])
unfolding OrderedMap.find
stored-Answers =
    let (body, answer, contents) = serving_answer 0 (0 ∷ []) (refl, tt) in
    let (other_body, other_answer, other_contents) = serving_answer 1 (1 ∷ []) (refl, tt) in
    (
      (node_a, body, refl, answer, contents),
      ((node_b, other_body, refl, other_answer, other_contents), tt),
    )

get_handler_lem_example :
    (after : OrderedMap ℕ (List ℕ)) × (get_handler serving (λ tasks. tasks) k_key stored_master ≡ (
      ok (
          record {
            status = status_ok;
            body = flatten (map (λ n. (value_of two_blocks n).bytes) (nums_of stored_map));
          }
          ∷ []),
      record stored_master { open_connections = after },
    ))
get_handler_lem_example =
    get_handler_lem serving (value_of two_blocks) (value_of_num two_blocks) stored_master
      (λ tasks. tasks) k_key stored_map ((0, 0 ∷ []) ∷ (1, 1 ∷ []) ∷ []) stored_find (refl, tt)
      stored_chosen (Permᴰ.refl _) stored-Answers

-- With the second node down, the last block has no healthy node.
abbrev stored_one_up : MasterServer
stored_one_up = record stored_master { storage_nodes = one_up }

one_up-IsClosed : IsClosed one_up stored_map
unfolding OrderedMap.find
one_up-IsClosed = (
  ((node_a, refl), ((record node_b { is_healthy = false }, refl), tt)),
  (((record node_b { is_healthy = false }, refl), tt), tt),
)

one_up_unavailable : is_available one_up stored_map ≡ false
unfolding OrderedMap.find
one_up_unavailable = refl

get_handler_unavailable_example :
    get_handler serving (λ tasks. tasks) k_key stored_one_up
    ≡ (throw no_healthy_node, stored_one_up)
get_handler_unavailable_example =
    get_handler_unavailable serving (λ tasks. tasks) k_key stored_map stored_one_up stored_find
      one_up-IsClosed one_up_unavailable

two_nodes-IsClosed : IsClosed two_nodes stored_map
unfolding OrderedMap.find
two_nodes-IsClosed = (((node_a, refl), ((node_b, refl), tt)), (((node_b, refl), tt), tt))

-- The first node answers a delete, the second does not.
half : Network
half zero request = some (record { status = status_ok; body = serialize_size sizes [] })
half (suc id) request = none

half-Reacts : (id : ℕ) → Reacts half id
unfolding half answer_body
half-Reacts zero = inr (
  serialize_size sizes [],
  sizes,
  refl,
  deserialize_size-serialize_size sizes (omega arith) (omega arith),
)
half-Reacts (suc id) = inl refl

delete_handler_lem_example :
    (after : MasterServer) × (delete_handler half ids_of k_key stored_master
      ≡ (ok (bare (if map_answers half stored_map then status_ok else internal_error) ∷ []), after))
    × (after.key_block_node_map ≡ (
        if map_answers half stored_map
        then OrderedMap.erase k_key stored_master.key_block_node_map
        else stored_master.key_block_node_map))
delete_handler_lem_example =
    delete_handler_lem half ids_of k_key stored_map stored_master stored_find two_nodes-IsKeyed
      two_nodes-IsClosed half-Reacts (λ ids. Permᴰ.refl (ids_of ids))

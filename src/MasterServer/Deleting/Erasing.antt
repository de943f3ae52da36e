-- ===== src/MasterServer/Deleting/Erasing.antt =====
-- /store DEL of src/master/master_server.cpp: the whole of `StoreEndpoint::deleteHandler`.
use rackkey.Common.{
  ℕ, ◌≡◌, refl, ◌∙◌, List, [], ◌∷◌, Bool, true, false, ◌&&◌, ◌⊎◌, inl, inr, Option, some, none,
  if◌then◌else◌, All, Bool-cases, ltb, arith,
}
use mathlib.Core.List.{Permᴰ}
use rackkey.Common.Results.{ok}
use rackkey.Http.{bare, status_ok, internal_error}
use rackkey.OrderedMap
use rackkey.OrderedMap.{OrderedMap}
use rackkey.OrderedMap.Order.{nat_ord, key_ord}
use rackkey.Payloads.{SizeInfo, deserialize_size}
use rackkey.StorageNode.{StorageNode}
use package.rackkey.MasterServer.{
  MasterServer, Network, NodeSet, BlockNodeMap, add_node_id, node_of, set_node, answer_body,
  update_node_data_sizes,
}
use package.rackkey.MasterServer.Deleting.{
  add_node_ids, all_node_ids, stats_after_delete, deleted, delete_blocks, run_delete_tasks,
  finish_delete, delete_stored, delete_handler,
}
use package.rackkey.MasterServer.Getting.Choice.{All-Permᴰ}
use package.rackkey.MasterServer.Getting.Reading.{connected, get_http_client_lem}
use package.rackkey.MasterServer.Getting.Unavailable.{AreNodes, IsClosed}
use package.rackkey.MasterServer.Putting.Assigning.{All-insert}
use package.rackkey.MasterServer.Putting.Requests.{IsKeyed, set_node-IsKept}
use package.rackkey.MasterServer.Startup.{find-insert_node}

abbrev Exists : OrderedMap ℕ StorageNode → ℕ → Type 0
Exists nodes id = (sn : StorageNode) × (OrderedMap.find id nodes ≡ some sn)

-- A node answers a delete with its sizes, or not with status OK.
abbrev pub Reacts : Network → ℕ → Type 0
Reacts network id =
    (answer_body (network id []) ≡ none)
    ⊎ ((body : List ℕ) × (info : SizeInfo) × (answer_body (network id []) ≡ some body)
        × (deserialize_size body ≡ ok info))

abbrev pub answered : Option (List ℕ) → Bool
answered none = false
answered (some _) = true

abbrev pub all_answer : Network → List ℕ → Bool
all_answer network [] = true
all_answer network (id ∷ ids) = answered (answer_body (network id [])) && all_answer network ids

-- Every node that a set names, or that a set of the map names, answers.
abbrev pub set_answers : Network → NodeSet → Bool
set_answers network [] = true
set_answers network ((id, _) ∷ ids) =
    answered (answer_body (network id [])) && set_answers network ids

abbrev pub map_answers : Network → BlockNodeMap → Bool
map_answers network [] = true
map_answers network ((bn, ids) ∷ m) = set_answers network ids && map_answers network m

abbrev pub ids_of : NodeSet → List ℕ
ids_of [] = []
ids_of ((id, _) ∷ ids) = id ∷ ids_of ids

module _ (network : Network) where
  all_answer-Permᴰ : (a b : List ℕ) → Permᴰ a b → all_answer network a ≡ all_answer network b
  all_answer-Permᴰ [] [] Permᴰ.nil = refl
  all_answer-Permᴰ (x ∷ a) (y ∷ b) (Permᴰ.cons e p) = rw (e, all_answer-Permᴰ a b p) refl
  all_answer-Permᴰ (x ∷ y ∷ a) (z ∷ w ∷ b) (Permᴰ.swap e f) = rw (e, f) (ground arith)
  all_answer-Permᴰ a b (Permᴰ.trans p q) = all_answer-Permᴰ a _ p ∙ all_answer-Permᴰ _ b q

  all_answer-ids_of : (ids : NodeSet) → all_answer network (ids_of ids) ≡ set_answers network ids
  all_answer-ids_of [] = refl
  all_answer-ids_of ((id, u) ∷ ids) = rw (all_answer-ids_of ids) refl

  set_answers-add_node_id :
      (id : ℕ) (ids : NodeSet)
      → set_answers network (add_node_id id ids)
        ≡ (answered (answer_body (network id [])) && set_answers network ids)
  unfolding OrderedMap.insert
  set_answers-add_node_id id [] = refl
  set_answers-add_node_id id ((j, u) ∷ ids) = elim (Bool-cases (ltb id j)) [
    | inl below ↦ rw below refl
    | inr not_below ↦ elim (Bool-cases (ltb j id)) [
      | inl above ↦ rw (not_below, above) (ground (arith, set_answers-add_node_id id ids))
      | inr not_above ↦ let e : j ≡ id = ground arith in rw (not_below, not_above, e) (ground arith)
    ]
  ]

  set_answers-add_node_ids :
      (ids all_ids : NodeSet)
      → set_answers network (add_node_ids ids all_ids)
        ≡ (set_answers network ids && set_answers network all_ids)
  unfolding add_node_ids
  set_answers-add_node_ids [] all_ids = refl
  set_answers-add_node_ids ((id, u) ∷ ids) all_ids = ground (
    arith,
    set_answers-add_node_ids ids (add_node_id id all_ids),
    set_answers-add_node_id id all_ids,
  )

  set_answers-all_node_ids :
      (m : BlockNodeMap) (all_ids : NodeSet)
      → set_answers network (all_node_ids m all_ids)
        ≡ (map_answers network m && set_answers network all_ids)
  unfolding all_node_ids
  set_answers-all_node_ids [] all_ids = refl
  set_answers-all_node_ids ((bn, ids) ∷ m) all_ids = ground (
    arith,
    set_answers-all_node_ids m (add_node_ids ids all_ids),
    set_answers-add_node_ids ids all_ids,
  )

  -- The nodes that a delete asks are those that the key's map names, whatever their order.
  asked_all :
      (order : NodeSet → List ℕ) (m : BlockNodeMap)
      → ((ids : NodeSet) → Permᴰ (order ids) (ids_of ids))
      → all_answer network (order (all_node_ids m [])) ≡ map_answers network m
  asked_all order m perm =
      let ids = all_node_ids m [] in
      all_answer-Permᴰ (order ids) (ids_of ids) (perm ids)
      ∙ all_answer-ids_of ids
      ∙ set_answers-all_node_ids m []
      ∙ ground arith

add_node_ids-AreNodes :
    (nodes : OrderedMap ℕ StorageNode) (ids all_ids : NodeSet)
    → AreNodes nodes ids
    → AreNodes nodes all_ids
    → AreNodes nodes (add_node_ids ids all_ids)
unfolding add_node_ids
add_node_ids-AreNodes nodes [] all_ids a b = b
add_node_ids-AreNodes nodes ((id, u) ∷ ids) all_ids a b =
    add_node_ids-AreNodes nodes ids (add_node_id id all_ids) a.1 (All-insert _ id tt all_ids a.0 b)

all_node_ids-AreNodes :
    (nodes : OrderedMap ℕ StorageNode) (m : BlockNodeMap) (all_ids : NodeSet)
    → IsClosed nodes m
    → AreNodes nodes all_ids
    → AreNodes nodes (all_node_ids m all_ids)
unfolding all_node_ids
all_node_ids-AreNodes nodes [] all_ids a b = b
all_node_ids-AreNodes nodes ((bn, ids) ∷ m) all_ids a b =
    all_node_ids-AreNodes nodes m (add_node_ids ids all_ids) a.1
      (add_node_ids-AreNodes nodes ids all_ids a.0 b)

ids_of-Exists :
    (nodes : OrderedMap ℕ StorageNode) (ids : NodeSet)
    → AreNodes nodes ids
    → All (Exists nodes) (ids_of ids)
ids_of-Exists nodes [] a = tt
ids_of-Exists nodes ((id, u) ∷ ids) a = (a.0, ids_of-Exists nodes ids a.1)

-- No node is lost.
record IsGrown (ms after : MasterServer) : Type 0 where
  same_map : after.key_block_node_map ≡ ms.key_block_node_map
  kept : (id : ℕ) → Exists ms.storage_nodes id → Exists after.storage_nodes id
  keyed : IsKeyed after.storage_nodes

moved :
    (nodes after : OrderedMap ℕ StorageNode)
    → ((j : ℕ) → Exists nodes j → Exists after j)
    → (ids : List ℕ) → All (Exists nodes) ids
    → All (Exists after) ids
moved nodes after g [] a = tt
moved nodes after g (j ∷ ids) a = (g j a.0, moved nodes after g ids a.1)

module _ (network : Network) (m : BlockNodeMap) where
  delete_blocks_reacted :
      (id : ℕ) (ms : MasterServer)
      → IsKeyed ms.storage_nodes
      → Exists ms.storage_nodes id
      → Reacts network id
      → (after : MasterServer) × (delete_blocks network m id ms
          ≡ (ok (answered (answer_body (network id []))), after))
        × IsGrown ms after
  unfolding delete_blocks deleted node_of stats_after_delete update_node_data_sizes set_node
  delete_blocks_reacted id ms k (sn, f) (inl e) =
      let (client, connections, opened) = get_http_client_lem sn ms in
      (
        connected ms connections,
        rw (delete_blocks, node_of, f, opened, e, deleted) refl,
        record { same_map = refl; kept = λ j x. x; keyed = k },
      )
  delete_blocks_reacted id ms k (sn, f) (inr (body, info, e, sizes)) =
      let (client, connections, opened) = get_http_client_lem sn ms in
      let new = stats_after_delete sn m info in
      let still = set_node-IsKept (connected ms connections) id sn new k f refl refl in
      (
        set_node new (connected ms connections),
        rw (delete_blocks, node_of, f, opened, e, deleted, sizes, f) refl,
        record {
          same_map = refl;
          kept = λ j x. find-insert_node ms.storage_nodes new j x.0 x.1;
          keyed = still.keyed;
        },
      )

  run_delete_tasks_lem :
      (ids : List ℕ) (ms : MasterServer)
      → IsKeyed ms.storage_nodes
      → All (Exists ms.storage_nodes) ids
      → ((id : ℕ) → Reacts network id)
      → (after : MasterServer) × (run_delete_tasks network m ids ms
          ≡ (ok (all_answer network ids), after))
        × IsGrown ms after
  unfolding run_delete_tasks
  run_delete_tasks_lem [] ms k a r =
      (ms, refl, record { same_map = refl; kept = λ j x. x; keyed = k })
  run_delete_tasks_lem (id ∷ ids) ms k a r =
      let (middle, run, grown) = delete_blocks_reacted id ms k a.0 (r id) in
      let (after, more, same) =
        run_delete_tasks_lem ids middle grown.keyed
          (moved ms.storage_nodes middle.storage_nodes grown.kept ids a.1) r in
      (
        after,
        rw (run_delete_tasks, run, more) refl,
        record {
          same_map = same.same_map ∙ grown.same_map;
          kept = λ j x. same.kept j (grown.kept j x);
          keyed = same.keyed;
        },
      )

-- A delete of a stored key whose nodes exist and answer with their sizes or not with status OK, asked
-- in any order, is answered once. If every node that the key's map names for a block answers with
-- status OK, the answer has status OK and exactly the key's entry is gone; if one of them does not,
-- the answer is an error and the map still has every entry, also where other nodes have deleted
-- their blocks.
pub delete_handler_lem :
    (network : Network) (order : NodeSet → List ℕ) (key : List ℕ) (m : BlockNodeMap)
    (ms : MasterServer)
    → OrderedMap.find key ms.key_block_node_map ≡ some m
    → IsKeyed ms.storage_nodes
    → IsClosed ms.storage_nodes m
    → ((id : ℕ) → Reacts network id)
    → ((ids : NodeSet) → Permᴰ (order ids) (ids_of ids))
    → (after : MasterServer) × (delete_handler network order key ms
        ≡ (ok (bare (if map_answers network m then status_ok else internal_error) ∷ []), after))
      × (after.key_block_node_map ≡ (
          if map_answers network m
          then OrderedMap.erase key ms.key_block_node_map
          else ms.key_block_node_map))
unfolding delete_handler delete_stored finish_delete
delete_handler_lem network order key m ms stored k closed reacts perm =
    let all_ids = all_node_ids m [] in
    let (middle, run, grown) =
      run_delete_tasks_lem network m (order all_ids) ms k
        (All-Permᴰ (Exists ms.storage_nodes) (order all_ids) (ids_of all_ids) (perm all_ids) (
          ids_of-Exists ms.storage_nodes all_ids
            (all_node_ids-AreNodes ms.storage_nodes m [] closed tt)))
        reacts in
    let asked = asked_all network order m perm in
    elim (Bool-cases (map_answers network m)) [
      | inl yes_all ↦ (
        record middle { key_block_node_map = OrderedMap.erase key middle.key_block_node_map },
        rw (delete_handler, stored, delete_stored, run, asked, yes_all, finish_delete) refl,
        rw (yes_all, grown.same_map) refl,
      )
      | inr not_all ↦ (
        middle,
        rw (delete_handler, stored, delete_stored, run, asked, not_all, finish_delete) refl,
        rw not_all grown.same_map,
      )
    ]

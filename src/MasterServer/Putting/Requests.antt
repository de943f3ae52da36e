-- ===== src/MasterServer/Putting/Requests.antt =====
-- The tasks of a put at work on the master's state, `sendBlocks` of src/master/master_server.cpp.
use rackkey.Common.{
  ℕ, ◌≡◌, refl, sym, ap, subst, ◌∙◌, arith, List, [], ◌∷◌, true, false, Bool-cases, Option-cases,
  inl, inr, some, ◌==◌, ==_iff, length,
}
use mathlib.Core.Option.{some-injective}
use rackkey.Common.Results.{ok}
use rackkey.Block
use rackkey.Block.{Block}
use rackkey.OrderedMap
use rackkey.OrderedMap.{OrderedMap}
use rackkey.OrderedMap.Laws.{find-insert}
use rackkey.OrderedMap.Order.{nat_ord, key_ord}
use rackkey.Payloads.{SizeInfo, deserialize_size}
use rackkey.StorageNode.{StorageNode}
use package.rackkey.MasterServer.{
  MasterServer, Network, SentPut, BlockNodeMap, node_of, set_node, answer_body,
  update_node_data_sizes,
}
use package.rackkey.MasterServer.Getting.Reading.{connected, get_http_client_lem}
use package.rackkey.MasterServer.Putting.{
  record_blocks, stats_after_send, sent, request_put, send_blocks, run_send_tasks,
}
use package.rackkey.MasterServer.Putting.Assigning.{AreHealthy}
use package.rackkey.MasterServer.Putting.Sending.{record_all}
use package.rackkey.MasterServer.Placement.{healthy_in}
use package.rackkey.MasterServer.Placement.Search.{healthy_in-some}

-- Every node stands under its own id.
abbrev pub IsKeyed : OrderedMap ℕ StorageNode → Type 0
IsKeyed nodes = (id : ℕ) (sn : StorageNode) → OrderedMap.find id nodes ≡ some sn → sn.id ≡ id

-- From one state to another, the map of the keys and the nodes' health are the same.
pub record IsKept (ms after : MasterServer) : Type 0 where
  pub same_map : after.key_block_node_map ≡ ms.key_block_node_map
  pub same_health : (id : ℕ) → healthy_in after.storage_nodes id ≡ healthy_in ms.storage_nodes id
  pub keyed : IsKeyed after.storage_nodes

pub find_healthy :
    (nodes : OrderedMap ℕ StorageNode) (id : ℕ)
    → healthy_in nodes id ≡ true
    → (sn : StorageNode) × (OrderedMap.find id nodes ≡ some sn)
find_healthy nodes id h = elim (Option-cases (OrderedMap.find id nodes)) [
  | inl e ↦ absurd (let g : false ≡ true = rw (healthy_in, e) at h in cc)
  | inr s ↦ s
]

-- A node that replaces the one of the same id, with the same health.
pub set_node-IsKept :
    (ms : MasterServer) (id : ℕ) (sn new : StorageNode)
    → IsKeyed ms.storage_nodes
    → OrderedMap.find id ms.storage_nodes ≡ some sn
    → new.id ≡ sn.id
    → new.is_healthy ≡ sn.is_healthy
    → IsKept ms (set_node new ms)
unfolding set_node
set_node-IsKept ms id sn new k f e h =
    let at : new.id ≡ id = e ∙ k id sn f in
    record {
      same_map = refl;
      same_health = λ j. elim (Bool-cases (new.id == j)) [
        | inl hit ↦
            let s : OrderedMap.same new.id j ≡ true = ground arith in
            let g : OrderedMap.find j (OrderedMap.insert new.id new ms.storage_nodes) ≡ some new =
              find-insert j new.id new ms.storage_nodes ∙ rw s refl in
            healthy_in-some _ j new g
            ∙ h
            ∙ sym (
                healthy_in-some ms.storage_nodes j sn (
                  subst (λ t. OrderedMap.find t ms.storage_nodes ≡ some sn)
                    (sym at ∙ (==_iff new.id j).0 hit) f))
        | inr miss ↦
            let s : OrderedMap.same new.id j ≡ false = ground arith in
            let g : OrderedMap.find j (OrderedMap.insert new.id new ms.storage_nodes)
                ≡ OrderedMap.find j ms.storage_nodes =
              find-insert j new.id new ms.storage_nodes ∙ rw s refl in
            rw (healthy_in, g) refl
      ];
      keyed = λ j x g. elim (Bool-cases (new.id == j)) [
        | inl hit ↦
            let s : OrderedMap.same new.id j ≡ true = ground arith in
            let u : some new ≡ some x = rw (find-insert j new.id new ms.storage_nodes, s) at g in
            subst (λ t. t.id ≡ j) (some-injective new x u) ((==_iff new.id j).0 hit)
        | inr miss ↦
            let s : OrderedMap.same new.id j ≡ false = ground arith in
            k j x (rw (find-insert j new.id new ms.storage_nodes, s) at g)
      ];
    }

-- Every healthy node answers a request with serialized blocks with status OK and its sizes.
abbrev pub Accepts : Network → OrderedMap ℕ StorageNode → Type 0
Accepts network nodes =
    (id : ℕ) (blocks : List Block)
    → healthy_in nodes id ≡ true
    → (body : List ℕ) × (info : SizeInfo) × (answer_body
          (network id (Block.serialize_all blocks []))
        ≡ some body)
      × (deserialize_size body ≡ ok info)

-- The trace after the tasks have run, one after another.
abbrev pub sent_log : List ℕ → List (ℕ × List Block) → List SentPut → List SentPut
sent_log key [] log = log
sent_log key ((id, blocks) ∷ tasks) log =
    sent_log key tasks
      (record { node_id = id; key = key; body = Block.serialize_all blocks [] } ∷ log)

module _ (network : Network) (key : List ℕ) where
  send_blocks_accepted :
      (id : ℕ) (blocks : List Block) (m : BlockNodeMap) (ms : MasterServer)
      → IsKeyed ms.storage_nodes
      → Accepts network ms.storage_nodes
      → healthy_in ms.storage_nodes id ≡ true
      → (after : MasterServer) × (send_blocks network id key blocks m ms
          ≡ (ok (true, record_blocks id blocks m), after))
        × IsKept ms after
        × (after.puts_sent ≡ sent_log key ((id, blocks) ∷ []) ms.puts_sent)
  unfolding send_blocks request_put sent node_of stats_after_send update_node_data_sizes
  send_blocks_accepted id blocks m ms k a h =
      let (sn, f) = find_healthy ms.storage_nodes id h in
      let (body, info, answer, sizes) = a id blocks h in
      let (client, connections, opened) = get_http_client_lem sn ms in
      let new =
        stats_after_send sn (OrderedMap.find key ms.key_block_node_map) (length blocks) info in
      let asked = record (connected ms connections) {
        puts_sent = sent_log key ((id, blocks) ∷ []) ms.puts_sent;
      } in
      let kept = set_node-IsKept asked id sn new k f refl refl in
      (
        set_node new asked,
        rw (send_blocks, node_of, f, opened, request_put, answer, sent, sizes, f) refl,
        record { same_map = kept.same_map; same_health = kept.same_health; keyed = kept.keyed },
        unfold set_node in refl,
      )

  pub run_send_tasks_accepted :
      (tasks : List (ℕ × List Block)) (m : BlockNodeMap) (ms : MasterServer)
      → IsKeyed ms.storage_nodes
      → Accepts network ms.storage_nodes
      → AreHealthy ms.storage_nodes tasks
      → (after : MasterServer) × (run_send_tasks network key tasks m ms
          ≡ (ok (true, record_all tasks m), after))
        × IsKept ms after
        × (after.puts_sent ≡ sent_log key tasks ms.puts_sent)
  unfolding run_send_tasks
  run_send_tasks_accepted [] m ms k a h =
      (ms, refl, record { same_map = refl; same_health = λ id. refl; keyed = k }, refl)
  run_send_tasks_accepted ((id, blocks) ∷ tasks) m ms k a h =
      let (middle, run, kept, log) = send_blocks_accepted id blocks m ms k a h.0 in
      let (after, more, same, logs) =
        run_send_tasks_accepted tasks (record_blocks id blocks m) middle kept.keyed
          (λ j sent_blocks up. a j sent_blocks (sym (kept.same_health j) ∙ up))
          (All-moved ms.storage_nodes middle.storage_nodes tasks kept.same_health h.1) in
      (
        after,
        rw (run_send_tasks, run, more) refl,
        record {
          same_map = same.same_map ∙ kept.same_map;
          same_health = λ j. same.same_health j ∙ kept.same_health j;
          keyed = same.keyed;
        },
        logs ∙ ap (sent_log key tasks) log,
      )
    where
      All-moved :
          (nodes after : OrderedMap ℕ StorageNode) (tasks : List (ℕ × List Block))
          → ((j : ℕ) → healthy_in after j ≡ healthy_in nodes j)
          → AreHealthy nodes tasks
          → AreHealthy after tasks
      All-moved nodes after [] e h = tt
      All-moved nodes after ((j, blocks) ∷ tasks) e h =
          (e j ∙ h.0, All-moved nodes after tasks e h.1)

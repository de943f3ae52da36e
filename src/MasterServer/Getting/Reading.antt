-- ===== src/MasterServer/Getting/Reading.antt =====
-- /store GET of src/master/master_server.cpp: the whole of `StoreEndpoint::getHandler`.
use rackkey.Common.{
  ℕ, ◌≡◌, refl, sym, ap, ◌∙◌, arith, List, [], ◌∷◌, ◌++◌, map, Bool, true, false, ◌||◌, Bool-cases,
  Option-cases, inl, inr, none, some, ◌==◌, if◌then◌else◌, All, ==_iff,
}
use mathlib.Core.List.{Permᴰ}
use rackkey.Common.Results.{ok}
use rackkey.Utils.{flatten}
use rackkey.Block
use rackkey.Block.{Block}
use rackkey.DiskStorage.Reading.{is_requested}
use rackkey.Http.{status_ok}
use rackkey.OrderedMap
use rackkey.OrderedMap.{OrderedMap}
use rackkey.OrderedMap.Extensional.{ext}
use rackkey.OrderedMap.Laws.{IsSorted, Above}
use rackkey.OrderedMap.Order.{nat_ord, key_ord}
use rackkey.Payloads.{put_nums}
use rackkey.StorageNode.{StorageNode}
use package.rackkey.MasterServer.{
  MasterServer, Network, Order, Tasks, BlockNodeMap, node_of, get_http_client, answer_body,
}
use package.rackkey.MasterServer.Getting.{
  BlockMap, choose_nodes, insert_blocks, received, get_blocks, run_get_tasks, combine, get_reply,
  get_stored, get_handler,
}
use package.rackkey.MasterServer.Getting.Choice.{
  asked, nums_of, asked-Permᴰ, All-Permᴰ, asked-choose_nodes,
}
use package.rackkey.MasterServer.Getting.Receipt.{
  Holds, insert_blocks-Holds, insert_blocks-IsSorted,
}

abbrev pub connected : MasterServer → OrderedMap ℕ (List ℕ) → MasterServer
connected ms connections = record ms { open_connections = connections }

-- A client is there or made; nothing else changes.
pub get_http_client_lem :
    (sn : StorageNode) (ms : MasterServer)
    → (client : List ℕ) × (connections : OrderedMap ℕ (List ℕ)) × (get_http_client sn ms
        ≡ (ok client, connected ms connections))
unfolding get_http_client
get_http_client_lem sn ms = elim (Option-cases (OrderedMap.find sn.id ms.open_connections)) [
  | inl e ↦ (
    sn.ip_port,
    OrderedMap.insert sn.id sn.ip_port ms.open_connections,
    rw (get_http_client, e) refl,
  )
  | inr (client, e) ↦ (client, ms.open_connections, rw (get_http_client, e) refl)
]

-- The node of a task exists, and answers with the blocks that it is asked for.
abbrev pub Answers : Network → (ℕ → Block) → OrderedMap ℕ StorageNode → ℕ × List ℕ → Type 0
Answers network value nodes (id, nums) =
    (sn : StorageNode) × (body : List ℕ) × (OrderedMap.find id nodes ≡ some sn)
    × (answer_body (network id (put_nums nums [])) ≡ some body)
    × (Block.deserialize body ≡ ok (map value nums))

module _ (network : Network) (value : ℕ → Block) (numbered : (n : ℕ) → (value n).block_num ≡ n)
    (ms : MasterServer) where
  get_blocks_answered :
      (id : ℕ) (nums : List ℕ) (m : BlockMap) (connections : OrderedMap ℕ (List ℕ))
      → Answers network value ms.storage_nodes (id, nums)
      → (after : OrderedMap ℕ (List ℕ)) × (get_blocks network id nums m (connected ms connections)
          ≡ (ok (true, insert_blocks (map value nums) m), connected ms after))
  unfolding get_blocks received node_of
  get_blocks_answered id nums m connections (sn, body, there, answer, blocks) =
      let (client, after, opened) = get_http_client_lem sn (connected ms connections) in
      (after, rw (get_blocks, node_of, there, opened, received, answer, blocks) refl)

  insert_all : List (ℕ × List ℕ) → BlockMap → BlockMap
  insert_all [] m = m
  insert_all ((id, nums) ∷ tasks) m = insert_all tasks (insert_blocks (map value nums) m)

  run_get_tasks_answered :
      (tasks : List (ℕ × List ℕ)) (m : BlockMap) (connections : OrderedMap ℕ (List ℕ))
      → All (Answers network value ms.storage_nodes) tasks
      → (after : OrderedMap ℕ (List ℕ)) × (run_get_tasks network tasks m (connected ms connections)
          ≡ (ok (true, insert_all tasks m), connected ms after))
  unfolding run_get_tasks insert_all
  run_get_tasks_answered [] m connections a = (connections, refl)
  run_get_tasks_answered ((id, nums) ∷ tasks) m connections a =
      let (middle, e) = get_blocks_answered id nums m connections a.0 in
      let (after, f) = run_get_tasks_answered tasks (insert_blocks (map value nums) m) middle a.1 in
      (after, rw (run_get_tasks, e, f) refl)

  insert_all-Holds :
      (tasks : List (ℕ × List ℕ)) (seen : ℕ → Bool) (m : BlockMap)
      → Holds value numbered seen m
      → Holds value numbered (λ n. asked tasks n || seen n) (insert_all tasks m)
  unfolding insert_all
  insert_all-Holds [] seen m h n = h n
  insert_all-Holds ((id, nums) ∷ tasks) seen m h n =
      insert_all-Holds tasks (λ n. is_requested nums n || seen n) (insert_blocks (map value nums) m)
        (insert_blocks-Holds value numbered nums seen m h) n
      ∙ ap (λ (b : Bool). if b then some (value n) else none) (ground arith)

  insert_all-IsSorted :
      (tasks : List (ℕ × List ℕ)) (m : BlockMap) → IsSorted m → IsSorted (insert_all tasks m)
  unfolding insert_all
  insert_all-IsSorted [] m s = s
  insert_all-IsSorted ((id, nums) ∷ tasks) m s =
      insert_all-IsSorted tasks (insert_blocks (map value nums) m)
        (insert_blocks-IsSorted value numbered (map value nums) m s)

  -- The blocks of a map, by number.
  valued : BlockNodeMap → BlockMap
  valued [] = []
  valued ((bn, ids) ∷ m) = (bn, value bn) ∷ valued m

  valued-IsSorted : (m : BlockNodeMap) → IsSorted m → IsSorted (valued m)
  unfolding valued
  valued-IsSorted [] s = tt
  valued-IsSorted ((bn, ids) ∷ m) s = above bn m s
    where
      above : (bn : ℕ) (m : BlockNodeMap) → Above bn m → Above bn (valued m)
      above bn [] s = tt
      above bn ((k, ids) ∷ m) s = (s.0, above k m s.1)

  valued-Holds : (m : BlockNodeMap) → Holds value numbered (is_requested (nums_of m)) (valued m)
  unfolding valued is_requested OrderedMap.find
  valued-Holds [] n = refl
  valued-Holds ((bn, ids) ∷ m) n = elim (Bool-cases (bn == n)) [
    | inl hit ↦
        let e = (==_iff bn n).0 hit in
        let s : OrderedMap.same bn n ≡ true = ground arith in
        rw (hit, s) (ap (λ t. some (value t)) e)
    | inr miss ↦
        let s : OrderedMap.same bn n ≡ false = ground arith in rw (miss, s) (valued-Holds m n)
  ]

  combine-valued :
      (m : BlockNodeMap) → combine (valued m) ≡ flatten (map (λ n. (value n).bytes) (nums_of m))
  unfolding combine valued flatten
  combine-valued [] = refl
  combine-valued ((bn, ids) ∷ m) = ap (λ t. (value bn).bytes ++ t) (combine-valued m)

  -- If every chosen node answers with the blocks asked for, a get of a key whose map is in order is
  -- answered once, with status OK and the key's blocks joined by rising number, in whatever order
  -- the answers come; only the open connections change.
  pub get_handler_lem :
      (order : Order ℕ) (key : List ℕ) (m : BlockNodeMap) (tasks : Tasks ℕ)
      → OrderedMap.find key ms.key_block_node_map ≡ some m
      → IsSorted m
      → choose_nodes ms.storage_nodes m [] ≡ ok tasks
      → Permᴰ (order tasks) tasks
      → All (Answers network value ms.storage_nodes) tasks
      → (after : OrderedMap ℕ (List ℕ)) × (get_handler network order key ms ≡ (
        ok (
            record { status = status_ok; body = flatten (map (λ n. (value n).bytes) (nums_of m)) }
            ∷ []),
        connected ms after,
      ))
  unfolding get_handler get_stored get_reply
  get_handler_lem order key m tasks stored s chosen p a =
      let (after, run) =
        run_get_tasks_answered (order tasks) [] ms.open_connections
          (All-Permᴰ (Answers network value ms.storage_nodes) (order tasks) tasks p a) in
      let e : insert_all (order tasks) [] ≡ valued m =
        ext (insert_all (order tasks) []) (valued m) (insert_all-IsSorted (order tasks) [] tt)
          (valued-IsSorted m s)
          (λ n.
            insert_all-Holds (order tasks) (λ n. false) [] (λ n. unfold OrderedMap.find in refl) n
            ∙ ap (λ (b : Bool). if b then some (value n) else none)
                (ground (
                  arith,
                  asked-Permᴰ (order tasks) tasks n p,
                  asked-choose_nodes ms.storage_nodes m [] tasks n chosen,
                ))
            ∙ sym (valued-Holds m n)) in
      (
        after,
        rw (get_handler, stored, get_stored, chosen, run, get_reply, e, combine-valued m) refl,
      )

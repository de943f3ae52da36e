-- ===== src/MasterServer/RoundTrip.antt =====
-- A put and the get that follows it at the master, src/master/master_server.cpp.
use rackkey.Common.{
  ℕ, ◌+◌, ◌^◌, ◌≤◌, ◌<◌, ◌≡◌, ◌≢◌, refl, sym, ap, subst, ◌∙◌, List, [], ◌∷◌, map, Bool, true, false,
  Option-cases, inl, inr, some, All, IsU32, arith, length,
}
use mathlib.Core.List.{Permᴰ}
use rackkey.Common.Results.{Result, ok}
use rackkey.Block
use rackkey.Block.{Block}
use rackkey.Block.RoundTrip.{IsValid}
use rackkey.DiskStorage.Reading.{is_requested}
use rackkey.Http.{Reply, bare, status_ok}
use rackkey.OrderedMap
use rackkey.OrderedMap.{OrderedMap}
use rackkey.OrderedMap.Extensional.{All-find}
use rackkey.OrderedMap.Laws.{find-insert, same_refl}
use rackkey.OrderedMap.Order.{nat_ord, key_ord}
use rackkey.Payloads.{put_nums}
use rackkey.StorageNode.{StorageNode}
use rackkey.Utils.{flatten}
use package.rackkey.MasterServer.{
  MasterServer, Network, Order, Tasks, NodeSet, BlockNodeMap, answer_body,
}
use package.rackkey.MasterServer.Getting.{get_handler}
use package.rackkey.MasterServer.Getting.Available.{
  find-All, AllUp, IsFair, IsRising, choose_nodes_up,
}
use package.rackkey.MasterServer.Getting.Choice.{nums_of}
use package.rackkey.MasterServer.Getting.Reading.{Answers, get_handler_lem}
use package.rackkey.MasterServer.Keeping.{Keeps, AreFound, map-AreFound, kept_answer, split-IsValid}
use package.rackkey.MasterServer.Numbers.{
  value_of, value_of_num, value_of_all, nums_of-count_from, has_num_requested,
}
use package.rackkey.MasterServer.Placement.{clockwise, gather, healthy_in, IsReady}
use package.rackkey.MasterServer.Putting.{replicas, put_handler}
use package.rackkey.MasterServer.Putting.Assigning.{has_num}
use package.rackkey.MasterServer.Putting.Requests.{IsKeyed, Accepts, find_healthy}
use package.rackkey.MasterServer.Putting.Sending.{is_in, is_in_some}
use package.rackkey.MasterServer.Putting.Splitting.{count_from, block_bytes}
use package.rackkey.MasterServer.Putting.Storing.{IsStored, put_handler_lem}
use package.rackkey.MasterServer.Belonging.{
  same_bool, requested-find, find-requested, element, on, on-healthy, on-has_num, has_num-on,
}

-- A healthy node that is asked, by rising number, for one or more blocks that belong on it answers
-- with them.
abbrev Serves : Network → OrderedMap ℕ StorageNode → (ℕ → ℕ → Bool) → List Block → Type 0
Serves network nodes on blocks =
    (id : ℕ) (nums : List ℕ)
    → 0 < length nums
    → healthy_in nodes id ≡ true
    → All (λ n. on id n ≡ true) nums
    → IsRising nums
    → (body : List ℕ) × (answer_body (network id (put_nums nums [])) ≡ some body)
      × (Block.deserialize body ≡ ok (map (value_of blocks) nums))

module _ (sha256_32 : List ℕ → ℕ) (key payload : List ℕ) (ms : MasterServer) (blocks : List Block)
    (m : BlockNodeMap) (after : MasterServer)
    (stored : IsStored sha256_32 key payload ms blocks m after) (some_nodes : 0 < replicas ms)
    (enough : (h : ℕ)
      → replicas ms ≤ length (gather ms.storage_nodes (clockwise h ms.hash_ring) [])) where
  entry_on :
      (id bn : ℕ) (ids : NodeSet)
      → OrderedMap.find bn m ≡ some ids
      → is_in ids id ≡ true
      → on sha256_32 ms key blocks id bn ≡ true
  entry_on id bn ids f h = sym (stored.placed id bn) ∙ ap (λ t. is_in_some t id) f ∙ h

  filled_at : (bn : ℕ) (ids : NodeSet) → OrderedMap.find bn m ≡ some ids → ids ≢ []
  filled_at bn ids f = find-All (λ e. e.1 ≢ []) bn ids m stored.filled f

  entries_up : All (λ (e : ℕ × NodeSet). AllUp after.storage_nodes e.1) m
  entries_up =
      All-find (λ e. AllUp after.storage_nodes e.1) m stored.in_order
        (λ bn ids f. (
          filled_at bn ids f,
          λ id h.
              stored.same_health id
              ∙ on-healthy sha256_32 ms key blocks id bn (entry_on id bn ids f h),
        ))

  entries_on :
      All
        (λ (e : ℕ × NodeSet).
          (id : ℕ) → is_in e.1 id ≡ true → on sha256_32 ms key blocks id e.0 ≡ true)
        m
  entries_on =
      All-find (λ e. (id : ℕ) → is_in e.1 id ≡ true → on sha256_32 ms key blocks id e.0 ≡ true) m
        stored.in_order (λ bn ids f id h. entry_on id bn ids f h)

  stored_num : (n : ℕ) → is_requested (nums_of m) n ≡ true → has_num blocks n ≡ true
  stored_num n h =
      let (ids, f) = requested-find m n h in
      let (id, inside) = element ids (filled_at n ids f) in
      on-has_num sha256_32 ms key blocks id n (entry_on id n ids f inside)

  num_stored : (n : ℕ) → has_num blocks n ≡ true → is_requested (nums_of m) n ≡ true
  num_stored n h =
      let (id, e) = has_num-on sha256_32 ms key some_nodes enough blocks n h in
      let there : is_in_some (OrderedMap.find n m) id ≡ true = stored.placed id n ∙ e in
      elim (Option-cases (OrderedMap.find n m)) [
        | inl f ↦ absurd (let g : false ≡ true = rw f at there in cc)
        | inr (ids, f) ↦ find-requested m n ids f
      ]

  -- The map's numbers are those of the payload's blocks, in order.
  nums_stored : nums_of m ≡ count_from 0 (length blocks)
  nums_stored = nums_of-count_from m 0 (length blocks) stored.in_order (λ n.
      same_bool (is_requested (nums_of m) n) (has_num blocks n) (stored_num n) (num_stored n)
      ∙ has_num_requested blocks n
      ∙ ap (λ t. is_requested t n) stored.split.nums)

  bytes_stored : flatten (map (λ n. (value_of blocks n).bytes) (nums_of m)) ≡ payload
  bytes_stored =
      ap (λ t. flatten (map (λ n. (value_of blocks n).bytes) t)) nums_stored
      ∙ ap flatten (bytes_of (count_from 0 (length blocks)))
      ∙ ap (λ t. flatten (block_bytes t)) (value_of_all 0 blocks stored.split.nums)
      ∙ stored.split.whole
    where
      bytes_of :
          (nums : List ℕ)
          → map (λ n. (value_of blocks n).bytes) nums ≡ block_bytes (map (value_of blocks) nums)
      bytes_of [] = refl
      bytes_of (n ∷ nums) = ap (λ t. (value_of blocks n).bytes ∷ t) (bytes_of nums)

  fair_tasks-Answers :
      (network : Network) (tasks : List (ℕ × List ℕ))
      → Serves network ms.storage_nodes (on sha256_32 ms key blocks) blocks
      → All (IsFair after.storage_nodes (λ id n. on sha256_32 ms key blocks id n ≡ true) []) tasks
      → All (Answers network (value_of blocks) after.storage_nodes) tasks
  fair_tasks-Answers network [] serves a = tt
  fair_tasks-Answers network ((id, nums) ∷ tasks) serves a =
      let (sn, f) = find_healthy after.storage_nodes id a.0.healthy in
      let (body, answer, contents) =
        serves id nums a.0.some_num (sym (stored.same_health id) ∙ a.0.healthy) a.0.having
          a.0.rising in
      ((sn, body, f, answer, contents), fair_tasks-Answers network tasks serves a.1)

  get_after_put :
      (network : Network) (order : Order ℕ)
      → ((tasks : Tasks ℕ) → Permᴰ (order tasks) tasks)
      → Serves network ms.storage_nodes (on sha256_32 ms key blocks) blocks
      → (connections : OrderedMap ℕ (List ℕ)) × (get_handler network order key after ≡ (
        ok (record { status = status_ok; body = payload } ∷ []),
        record after { open_connections = connections },
      ))
  get_after_put network order perm serves =
      let there : OrderedMap.find key after.key_block_node_map ≡ some m =
        ap (OrderedMap.find key) stored.entry
        ∙ find-insert key key m ms.key_block_node_map
        ∙ rw (same_refl key) refl in
      let (tasks, chosen, fair) =
        choose_nodes_up after.storage_nodes (λ id n. on sha256_32 ms key blocks id n ≡ true) m []
          stored.in_order entries_up entries_on tt in
      let (connections, run) =
        get_handler_lem network (value_of blocks) (value_of_num blocks) after order key m tasks
          there stored.in_order chosen (perm tasks)
          (fair_tasks-Answers network tasks serves fair) in
      (
        connections,
        run
            ∙ ap
                (λ t. (
                  ok (record { status = status_ok; body = t } ∷ []),
                  record after { open_connections = connections },
                ))
                bytes_stored,
      )

  blocks_found : AreFound blocks blocks
  blocks_found =
      map-AreFound blocks blocks
        (ap (map (value_of blocks)) stored.split.nums ∙ value_of_all 0 blocks stored.split.nums)

  -- Nodes that keep what they were sent serve the payload's blocks.
  Keeps-Serves :
      (network : Network)
      → All IsValid blocks
      → Keeps network key after.puts_sent
      → Serves network ms.storage_nodes (on sha256_32 ms key blocks) blocks
  Keeps-Serves network valid keeps id [] some_num up belong rising = absurd (omega arith)
  Keeps-Serves network valid keeps id (n ∷ nums) some_num up belong rising =
      let (bs, there, share) = stored.delivered id n belong.0 in
      kept_answer network key after.puts_sent blocks bs id (n ∷ nums) keeps valid blocks_found there
        share.0 (have bs share.1 (n ∷ nums) belong) rising
    where
      have :
          (bs : List Block)
          → ((k : ℕ) → has_num bs k ≡ on sha256_32 ms key blocks id k)
          → (nums : List ℕ) → All (λ k. on sha256_32 ms key blocks id k ≡ true) nums
          → All (λ k. has_num bs k ≡ true) nums
      have bs e [] a = tt
      have bs e (k ∷ nums) a = (e k ∙ a.0, have bs e nums a.1)

-- The premises of a put: a positive block size, room below 2^32, a ready ring with healthy nodes for
-- all replicas, nodes under their ids that answer with status OK and their sizes, tasks in any order.
pub record IsAcceptable (sha256_32 : List ℕ → ℕ) (fuel : ℕ) (network : Network)
    (order : Order Block) (payload : List ℕ) (ms : MasterServer) : Type 0 where
  pub pos : 0 < ms.config.data_block_size
  pub room : length payload + ms.config.data_block_size ≤ 2 ^ 32
  pub ready : IsReady sha256_32 ms.hash_ring ms.storage_nodes
  pub long : length ms.hash_ring ≤ fuel
  pub some_nodes : 0 < replicas ms
  pub enough :
      (h : ℕ) → replicas ms ≤ length (gather ms.storage_nodes (clockwise h ms.hash_ring) [])
  pub keyed : IsKeyed ms.storage_nodes
  pub accepts : Accepts network ms.storage_nodes
  pub perm : (tasks : Tasks Block) → Permᴰ (order tasks) tasks

-- Where the premises of a put hold (a positive block size, room below 2^32, a ready ring with healthy
-- nodes for all replicas that accept their requests) and the key's length fits 32 bits, a put is
-- answered once, with status OK; and if each node then keeps the latest request that this put or an
-- earlier one sent to it for the key, and answers a request for blocks of it with these, a get of the
-- key is answered once, with status OK and the payload, in whatever orders the nodes are asked.
pub get_handler-put_handler_cluster :
    (sha256_32 : List ℕ → ℕ) (fuel : ℕ) (put_network get_network : Network)
    (put_order : Order Block) (get_order : Order ℕ) (key payload : List ℕ) (ms : MasterServer)
    → IsAcceptable sha256_32 fuel put_network put_order payload ms
    → IsU32 (length key)
    → Keeps get_network key
        (put_handler sha256_32 fuel put_network put_order key payload ms).1.puts_sent
    → ((tasks : Tasks ℕ) → Permᴰ (get_order tasks) tasks)
    → (after : MasterServer) × (connections : OrderedMap ℕ (List ℕ)) × (put_handler sha256_32 fuel
          put_network put_order key payload ms
        ≡ (ok (bare status_ok ∷ []), after))
      × (get_handler get_network get_order key after ≡ (
        ok (record { status = status_ok; body = payload } ∷ []),
        record after { open_connections = connections },
      ))
get_handler-put_handler_cluster sha256_32 fuel put_network get_network put_order get_order key
      payload ms a fits keeps perm =
    let (blocks, m, after, run, stored) =
      put_handler_lem sha256_32 key payload ms fuel put_network put_order a.pos a.room a.ready
        a.long a.enough a.keyed a.accepts a.perm in
    let kept : Keeps get_network key after.puts_sent =
      subst (λ (r : Result (List Reply) × MasterServer). Keeps get_network key r.1.puts_sent) run
        keeps in
    let valid =
      split-IsValid key ms.config.data_block_size 0 payload blocks fits stored.split
        (omega (arith, a.pos, a.room)) in
    let (connections, read) =
      get_after_put sha256_32 key payload ms blocks m after stored a.some_nodes a.enough get_network
        get_order perm
        (Keeps-Serves sha256_32 key payload ms blocks m after stored a.some_nodes a.enough
          get_network valid kept) in
    (after, connections, run, read)

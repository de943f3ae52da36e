-- ===== src/MasterServer/Putting/Storing.antt =====
-- /store PUT of src/master/master_server.cpp: the whole of `StoreEndpoint::putHandler`.
use rackkey.Common.{
  ℕ, ◌+◌, ◌^◌, ◌≤◌, ◌<◌, ◌≡◌, ◌≢◌, refl, sym, subst, ◌∙◌, inr, arith, All, List, [], ◌∷◌, true,
  false, some, length, u32,
}
use mathlib.Core.List.{Permᴰ}
use rackkey.Common.Results.{ok, fault}
use rackkey.Block.{Block}
use rackkey.Http.{bare, status_ok}
use rackkey.OrderedMap
use rackkey.OrderedMap.{OrderedMap}
use rackkey.OrderedMap.Laws.{IsSorted}
use rackkey.OrderedMap.Order.{nat_ord, key_ord}
use rackkey.Utils.{flatten}
use package.rackkey.MasterServer.{MasterServer, Network, Order, Tasks, BlockNodeMap}
use package.rackkey.MasterServer.Placement.{clockwise, gather, healthy_in, IsReady}
use package.rackkey.MasterServer.Placement.Starved.{place-starved}
use package.rackkey.MasterServer.Putting.{
  split_payload, block_hash, assign_blocks, finish_put, replicas, ended, put_handler,
}
use package.rackkey.MasterServer.Putting.Assigning.{has_num, gets_block-Permᴰ}
use package.rackkey.MasterServer.Getting.Choice.{All-Permᴰ}
use package.rackkey.MasterServer.Putting.Placed.{belongs, assign_blocks_lem}
use package.rackkey.MasterServer.Putting.Requests.{IsKeyed, Accepts, run_send_tasks_accepted}
use package.rackkey.MasterServer.Putting.Sending.{
  stores, AreFilled, record_all-AreFilled, stores-record_all, record_all, record_all-IsSorted,
}
use package.rackkey.MasterServer.Putting.Delivered.{
  IsAmong, All-IsAmong, Carries, Carries-sent_log, find-has_num,
}
use package.rackkey.MasterServer.Getting.Available.{find-All}
use rackkey.OrderedMap.Extensional.{All-find}
use package.rackkey.MasterServer.Putting.Splitting.{IsSplit, split_payload-IsSplit}

module _ (sha256_32 : List ℕ → ℕ) (key payload : List ℕ) (ms : MasterServer) where
  -- A node's blocks: some of those given, with the numbers that belong on the node.
  abbrev pub IsShare : List Block → ℕ × List Block → Type 0
  IsShare blocks (id, bs) =
      All (IsAmong blocks) bs
      × ((bn : ℕ)
          → has_num bs bn
            ≡ belongs sha256_32 ms.hash_ring ms.storage_nodes (replicas ms) key blocks id bn)

  -- What a put leaves behind: only the key's entry is new, with a map in order, with a node at least
  -- for every block, that says of every block that it is on the nodes where it belongs; and the
  -- latest put of the key that each of these nodes was sent carries the blocks that belong on it.
  pub record IsStored (blocks : List Block) (m : BlockNodeMap) (after : MasterServer) : Type 0 where
    pub cut :
        split_payload
          (length payload)
          key
          ms.config.data_block_size
          payload
          (u32 (length payload))
          0
          0
        ≡ some blocks
    pub split : IsSplit key ms.config.data_block_size 0 payload blocks
    pub entry : after.key_block_node_map ≡ OrderedMap.insert key m ms.key_block_node_map
    pub in_order : IsSorted m
    pub filled : AreFilled m
    pub placed :
        (id bn : ℕ)
        → stores m id bn
          ≡ belongs sha256_32 ms.hash_ring ms.storage_nodes (replicas ms) key blocks id bn
    pub delivered :
        (id bn : ℕ)
        → belongs sha256_32 ms.hash_ring ms.storage_nodes (replicas ms) key blocks id bn ≡ true
        → Carries key (IsShare blocks) id after.puts_sent
    pub same_health : (id : ℕ) → healthy_in after.storage_nodes id ≡ healthy_in ms.storage_nodes id

  module _ (fuel : ℕ) (network : Network) (order : Order Block)
      (pos : 0 < ms.config.data_block_size)
      (room : length payload + ms.config.data_block_size ≤ 2 ^ 32)
      (ready : IsReady sha256_32 ms.hash_ring ms.storage_nodes) where
    pub put_handler_lem :
        length ms.hash_ring ≤ fuel
        → ((h : ℕ) → replicas ms ≤ length (gather ms.storage_nodes (clockwise h ms.hash_ring) []))
        → IsKeyed ms.storage_nodes
        → Accepts network ms.storage_nodes
        → ((tasks : Tasks Block) → Permᴰ (order tasks) tasks)
        → (blocks : List Block) × (m : BlockNodeMap) × (after : MasterServer) × (put_handler
              sha256_32 fuel network order key payload ms
            ≡ (ok (bare status_ok ∷ []), after))
          × IsStored blocks m after
    unfolding put_handler ended finish_put
    put_handler_lem long enough keyed accepts perm =
        let (blocks, run, split) =
          split_payload-IsSplit key ms.config.data_block_size payload pos room in
        let (tasks, assigned, healthy, where_to, of) =
          assign_blocks_lem sha256_32 ms.hash_ring ms.storage_nodes (replicas ms) key fuel ready
            long enough (IsAmong blocks) blocks [] (All-IsAmong _ blocks (λ b h. h))
            (record { in_order = tt; each = tt }) tt in
        let (after, sent, kept, log) =
          run_send_tasks_accepted network key (order tasks) [] ms keyed accepts
            (All-Permᴰ _ (order tasks) tasks (perm tasks) healthy) in
        let m = record_all (order tasks) [] in
        (
          blocks,
          m,
          record after { key_block_node_map = OrderedMap.insert key m after.key_block_node_map },
          rw (put_handler, run, ended, assigned, sent, finish_put) refl,
          record {
            cut = run;
            split = split;
            entry = rw kept.same_map refl;
            in_order = record_all-IsSorted (order tasks) [] tt;
            filled = record_all-AreFilled (order tasks) [] tt;
            placed = λ id bn. ground (
              arith,
              stores-record_all (order tasks) [] id bn,
              nothing id bn,
              gets_block-Permᴰ (order tasks) tasks id bn (perm tasks),
              where_to id bn,
            );
            delivered = λ id bn on. subst (Carries key (IsShare blocks) id) (sym log) (
                Carries-sent_log key (IsShare blocks) id (order tasks) ms.puts_sent bn
                  (All-Permᴰ (IsShare blocks) (order tasks) tasks (perm tasks) (
                    All-find (IsShare blocks) tasks of.in_order (λ j bs f. (
                      find-All (λ (e : ℕ × List Block). All (IsAmong blocks) e.1) j bs tasks of.each
                          f,
                      λ n. find-has_num tasks j n bs of.in_order f ∙ where_to j n ∙ ground arith,
                    ))))
                  (inr (
                    gets_block-Permᴰ (order tasks) tasks id bn (perm tasks)
                    ∙ where_to id bn
                    ∙ rw on refl)));
            same_health = kept.same_health;
          },
        )
      where
        nothing : (id bn : ℕ) → stores [] id bn ≡ false
        nothing id bn = unfold OrderedMap.find in refl

    -- With a payload that is not empty and fewer healthy nodes than replicas, a put is never answered
    -- and changes nothing: the search for the first block's nodes does not end, whatever the fuel.
    pub put_handler_starved :
        ms.hash_ring ≢ []
        → payload ≢ []
        → ((h : ℕ) → length (gather ms.storage_nodes (clockwise h ms.hash_ring) []) < replicas ms)
        → put_handler sha256_32 fuel network order key payload ms ≡ (fault, ms)
    unfolding put_handler assign_blocks ended flatten
    put_handler_starved full some_bytes few =
        starved (split_payload-IsSplit key ms.config.data_block_size payload pos room)
      where
        starved :
            (blocks : List Block) × (split_payload
                  (length payload)
                  key
                  ms.config.data_block_size
                  payload
                  (u32 (length payload))
                  0
                  0
                ≡ some blocks)
              × IsSplit key ms.config.data_block_size 0 payload blocks
            → put_handler sha256_32 fuel network order key payload ms ≡ (fault, ms)
        starved ([], run, split) = absurd (some_bytes (sym split.whole))
        starved (block ∷ blocks, run, split) =
            let none_left =
              place-starved sha256_32 ms.hash_ring ms.storage_nodes (replicas ms) full fuel
                (block_hash sha256_32 key block) ready (few (block_hash sha256_32 key block)) in
            rw (put_handler, run, ended, assign_blocks, none_left, ended) refl

-- ===== src/MasterServer/Putting/Placed.antt =====
-- Which node gets which block, in `StoreEndpoint::putHandler` of src/master/master_server.cpp.
use rackkey.Common.{
  ℕ, ◌≤◌, ◌≡◌, refl, arith, List, [], ◌∷◌, Bool, false, ◌||◌, ◌&&◌, ◌==◌, length, take, All,
}
use rackkey.Common.Results.{ok}
use rackkey.Block.{Block}
use rackkey.DiskStorage.Reading.{is_requested}
use rackkey.HashRing.{HashRing}
use rackkey.OrderedMap.{OrderedMap}
use rackkey.StorageNode.{StorageNode}
use package.rackkey.MasterServer.{Tasks}
use package.rackkey.MasterServer.Putting.{push_all, ended, block_hash, assign_blocks}
use package.rackkey.MasterServer.Placement.{clockwise, gather, IsReady}
use package.rackkey.MasterServer.Placement.Search.{place-clockwise}
use package.rackkey.MasterServer.Putting.Delivered.{AreOf, push_all-AreOf}
use package.rackkey.MasterServer.Putting.Assigning.{
  gets_block, gets_block-push_all, AreHealthy, push_all-AreHealthy, gather_healthy, All-take,
}

module _ (sha256_32 : List ℕ → ℕ) (ring : HashRing) (nodes : OrderedMap ℕ StorageNode) (r : ℕ)
    (key : List ℕ) where
  -- The first `r` distinct healthy nodes clockwise of the block's hash.
  abbrev pub nodes_for : Block → List ℕ
  nodes_for block = take r (gather nodes (clockwise (block_hash sha256_32 key block) ring) [])

  -- A block numbered `bn` belongs on the node `id`.
  abbrev pub belongs : List Block → ℕ → ℕ → Bool
  belongs [] id bn = false
  belongs (block ∷ blocks) id bn =
      is_requested (nodes_for block) id && block.block_num == bn || belongs blocks id bn

  module _ (fuel : ℕ) (ready : IsReady sha256_32 ring nodes) (long : length ring ≤ fuel)
      (enough : (h : ℕ) → r ≤ length (gather nodes (clockwise h ring) [])) where
    -- Every block goes to the nodes where it belongs, which are healthy, and the tasks hold no others.
    pub assign_blocks_lem :
        (P : Block → Type 0) (blocks : List Block) (tasks : Tasks Block)
        → All P blocks
        → AreOf P tasks
        → AreHealthy nodes tasks
        → (out : Tasks Block) × (assign_blocks sha256_32 fuel ring nodes r key blocks tasks
            ≡ ok out)
          × AreHealthy nodes out
          × ((id bn : ℕ) → gets_block out id bn ≡ (belongs blocks id bn || gets_block tasks id bn))
          × AreOf P out
    unfolding assign_blocks ended
    assign_blocks_lem P [] tasks p q a = (tasks, refl, a, λ id bn. refl, q)
    assign_blocks_lem P (block ∷ blocks) tasks p q a =
        let h = block_hash sha256_32 key block in
        let (out, e, b, f, of) =
          assign_blocks_lem P blocks (push_all block (nodes_for block) tasks) p.1
            (push_all-AreOf P block (nodes_for block) tasks p.0 q)
            (push_all-AreHealthy nodes block (nodes_for block) tasks
              (All-take nodes r _ (gather_healthy nodes (clockwise h ring) [] tt)) a) in
        (
          out,
          rw
              (
                assign_blocks,
                place-clockwise sha256_32 ring nodes r fuel h ready long (enough h),
                ended,
              )
              e,
          b,
          λ id bn. ground (arith, f id bn, gets_block-push_all block (nodes_for block) tasks id bn),
          of,
        )

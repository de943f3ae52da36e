-- ===== src/MasterServer/Startup.antt =====
-- The ring and the nodes that `initialiseStorageNodes` of src/master/master_server.cpp sets up.
use rackkey.Common.{
  ℕ, zero, suc, ◌+◌, ◌≡◌, refl, sym, subst, ◌∙◌, arith, List, [], ◌∷◌, true, false, Bool-cases, inl,
  inr, some, ◌==◌, ==_iff, All,
}
use mathlib.Core.Option.{some-injective}
use rackkey.HashRing
use rackkey.HashRing.{HashRing, VirtualNode}
use rackkey.OrderedMap
use rackkey.OrderedMap.{OrderedMap}
use rackkey.OrderedMap.Laws.{find-insert, insert-IsSorted}
use rackkey.OrderedMap.Order.{nat_ord}
use rackkey.StorageNode.{StorageNode, virtual_nodes_from, create_virtual_nodes, new_storage_node}
use package.rackkey.MasterServer.{
  MasterServer, MasterConfig, add_virtual_nodes, initialise_storage_nodes, blank_server,
}
use package.rackkey.MasterServer.Placement.{IsReady}
use package.rackkey.MasterServer.Putting.Assigning.{All-insert}
use package.rackkey.MasterServer.Putting.Requests.{IsKeyed}

-- The new node's own virtual nodes.
abbrev BelongTo : ℕ → List VirtualNode → Type 0
BelongTo id vns = All (λ (vn : VirtualNode). vn.physical_node_id ≡ id) vns

virtual_nodes_from-BelongTo :
    (ip_port : List ℕ) (id i left : ℕ) → BelongTo id (virtual_nodes_from ip_port id i left)
unfolding virtual_nodes_from
virtual_nodes_from-BelongTo ip_port id i zero = tt
virtual_nodes_from-BelongTo ip_port id i (suc left) =
    (refl, virtual_nodes_from-BelongTo ip_port id (i + 1) left)

-- A node that is inserted is found, and no other is lost.
pub find-insert_node :
    (nodes : OrderedMap ℕ StorageNode) (new : StorageNode) (id : ℕ) (sn : StorageNode)
    → OrderedMap.find id nodes ≡ some sn
    → (after : StorageNode) × (OrderedMap.find id (OrderedMap.insert new.id new nodes) ≡ some after)
find-insert_node nodes new id sn f = elim (Bool-cases (OrderedMap.same new.id id)) [
  | inl hit ↦ (new, find-insert id new.id new nodes ∙ rw hit refl)
  | inr miss ↦ (sn, find-insert id new.id new nodes ∙ rw miss f)
]

module _ (sha256_32 : List ℕ → ℕ) where
  add_virtual_nodes-IsReady :
      (vns : List VirtualNode) (ring : HashRing) (nodes : OrderedMap ℕ StorageNode) (id : ℕ)
      (sn : StorageNode)
      → OrderedMap.find id nodes ≡ some sn
      → BelongTo id vns
      → IsReady sha256_32 ring nodes
      → IsReady sha256_32 (add_virtual_nodes sha256_32 vns ring) nodes
  unfolding add_virtual_nodes HashRing.add_node
  add_virtual_nodes-IsReady [] ring nodes id sn f b ready = ready
  add_virtual_nodes-IsReady (vn ∷ vns) ring nodes id sn f b ready =
      let h = HashRing.hash sha256_32 vn in
      add_virtual_nodes-IsReady vns (OrderedMap.insert h vn ring) nodes id sn f b.1 (record {
        sorted = insert-IsSorted h vn ring ready.sorted;
        hashed = All-insert _ h vn ring refl ready.hashed;
        known =
            All-insert _ h vn ring (sn, subst (λ t. OrderedMap.find t nodes ≡ some sn) (sym b.0) f)
              ready.known;
      })

  insert-IsReady :
      (ring : HashRing) (nodes : OrderedMap ℕ StorageNode) (new : StorageNode)
      → IsReady sha256_32 ring nodes
      → IsReady sha256_32 ring (OrderedMap.insert new.id new nodes)
  insert-IsReady ring nodes new ready = record {
    sorted = ready.sorted;
    hashed = ready.hashed;
    known = still ring ready.known;
  }
    where
      still :
          (path : HashRing)
          → All
              (λ (e : ℕ × VirtualNode).
                (sn : StorageNode) × (OrderedMap.find e.1.physical_node_id nodes ≡ some sn))
              path
          → All
              (λ (e : ℕ × VirtualNode).
                (sn : StorageNode) × (OrderedMap.find e.1.physical_node_id
                    (OrderedMap.insert new.id new nodes)
                  ≡ some sn))
              path
      still [] k = tt
      still ((h, vn) ∷ path) k =
          (find-insert_node nodes new vn.physical_node_id k.0.0 k.0.1, still path k.1)

  insert-IsKeyed :
      (nodes : OrderedMap ℕ StorageNode) (new : StorageNode)
      → IsKeyed nodes
      → IsKeyed (OrderedMap.insert new.id new nodes)
  insert-IsKeyed nodes new k id sn f = elim (Bool-cases (new.id == id)) [
    | inl hit ↦
        let s : OrderedMap.same new.id id ≡ true = ground arith in
        let e : some new ≡ some sn = sym (find-insert id new.id new nodes ∙ rw s refl) ∙ f in
        subst (λ t. t.id ≡ id) (some-injective new sn e) ((==_iff new.id id).0 hit)
    | inr miss ↦
        let s : OrderedMap.same new.id id ≡ false = ground arith in
        k id sn (sym (find-insert id new.id new nodes ∙ rw s refl) ∙ f)
  ]

  initialise_from :
      (id_generator : ℕ) (ips : List (List ℕ)) (ms : MasterServer)
      → IsReady sha256_32 ms.hash_ring ms.storage_nodes
      → IsKeyed ms.storage_nodes
      → IsReady sha256_32
          (initialise_storage_nodes sha256_32 id_generator ips ms).hash_ring
          (initialise_storage_nodes sha256_32 id_generator ips ms).storage_nodes
        × IsKeyed (initialise_storage_nodes sha256_32 id_generator ips ms).storage_nodes
  unfolding initialise_storage_nodes new_storage_node create_virtual_nodes
  initialise_from id_generator [] ms ready k = (ready, k)
  initialise_from id_generator (ip_port ∷ ips) ms ready k =
      let sn = new_storage_node id_generator ip_port ms.config.num_virtual_nodes in
      let nodes = OrderedMap.insert sn.id sn ms.storage_nodes in
      let there : OrderedMap.find sn.id nodes ≡ some sn =
        find-insert sn.id sn.id sn ms.storage_nodes
        ∙ (let s : OrderedMap.same sn.id sn.id ≡ true = ground arith in rw s refl) in
      initialise_from (id_generator + 1) ips
        (record ms {
          storage_nodes = nodes;
          hash_ring = add_virtual_nodes sha256_32 sn.virtual_nodes ms.hash_ring;
        })
        (add_virtual_nodes-IsReady sn.virtual_nodes ms.hash_ring nodes sn.id sn there
          (virtual_nodes_from-BelongTo ip_port id_generator 0 ms.config.num_virtual_nodes)
          (insert-IsReady ms.hash_ring ms.storage_nodes sn ready))
        (insert-IsKeyed ms.storage_nodes sn k)

  -- After the start, whatever the configuration and the hash, the ring is in order, its entries stand
  -- at their nodes' hashes and belong to nodes that exist, and every node stands under its own id.
  pub initialise_storage_nodes-IsReady :
      (id_generator : ℕ) (config : MasterConfig)
      → IsReady sha256_32
          (initialise_storage_nodes sha256_32 id_generator config.storage_node_ips
            (blank_server config)).hash_ring
          (initialise_storage_nodes sha256_32 id_generator config.storage_node_ips
            (blank_server config)).storage_nodes
        × IsKeyed
            (initialise_storage_nodes sha256_32 id_generator config.storage_node_ips
              (blank_server config)).storage_nodes
  initialise_storage_nodes-IsReady id_generator config =
      initialise_from id_generator config.storage_node_ips (blank_server config)
        (record { sorted = tt; hashed = tt; known = tt })
        (λ id sn f. absurd (unfold OrderedMap.find in cc))

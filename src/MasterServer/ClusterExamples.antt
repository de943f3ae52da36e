-- ===== src/MasterServer/ClusterExamples.antt =====
-- The theorems on puts, and on a put with a get, at a master with two nodes. The hash of a text is here its length.
use rackkey.Common.{
  ℕ, ◌≡◌, refl, sym, ap, subst, ◌∙◌, arith, List, [], ◌∷◌, map, true, false, inl, inr, Option, some,
  none, All, IsU32, length, Bool-cases, ==_iff, ◌==◌,
}
use mathlib.Core.List.Permᴰ
use mathlib.Core.Option.{some-injective}
use rackkey.Common.Results.{Result, ok, fault, throw}
use rackkey.Block
use rackkey.Block.{Block, serialize_all}
use rackkey.Block.RoundTrip.{IsValid, deserialize-serialize_all}
use rackkey.Http.{Reply, status_ok, bare}
use rackkey.OrderedMap
use rackkey.OrderedMap.{OrderedMap}
use rackkey.OrderedMap.Order.{nat_ord, key_ord}
use rackkey.Payloads.{
  BlockNumList, SizeInfo, serialize_size, put_nums, serialize_nums, deserialize_nums,
}
use rackkey.Payloads.Numbers.{deserialize_nums-serialize_nums, deserialize_size-serialize_size}
use rackkey.StorageNode.{StorageNode}
use package.rackkey.MasterServer.{MasterServer, Network, SentPut, answer_body}
use package.rackkey.MasterServer.Examples.{
  node_a, node_b, two_ring, two_nodes, one_up, two_nodes-IsReady, one_up-IsReady, enough_two,
  few_one,
}
use package.rackkey.MasterServer.Getting.{get_handler}
use package.rackkey.MasterServer.Numbers.{value_of}
use package.rackkey.MasterServer.Putting.{replicas, put_handler}
use package.rackkey.MasterServer.Putting.Assigning.{has_num}
use package.rackkey.MasterServer.Putting.Requests.{IsKeyed, Accepts}
use package.rackkey.MasterServer.Putting.Storing.{put_handler_starved}
use package.rackkey.MasterServer.RoundTrip.{IsAcceptable, get_handler-put_handler_cluster}
use package.rackkey.MasterServer.Keeping.{Keeps}
use package.rackkey.MasterServer.Putting.Delivered.{latest}

abbrev pub k_key : List ℕ
k_key = b'k' ∷ []

abbrev pub two_blocks_payload : List ℕ
two_blocks_payload = 1 ∷ 2 ∷ 3 ∷ []

-- A master of two nodes that stores every block on both.
abbrev pub two_master : MasterServer
two_master = record {
  hash_ring = two_ring;
  key_block_node_map = [];
  storage_nodes = two_nodes;
  open_connections = [];
  config = record {
    storage_node_ips = [];
    num_storage_nodes = 2;
    num_virtual_nodes = 1;
    replication_factor = 2;
    data_block_size = 2;
  };
  puts_sent = [];
}

abbrev pub one_up_master : MasterServer
one_up_master = record two_master { storage_nodes = one_up }

abbrev pub sizes : SizeInfo
sizes = record { data_used_size = 10; data_total_size = 100 }

-- Every node answers with its sizes.
sizing : Network
sizing id request = some (record { status = status_ok; body = serialize_size sizes [] })

sizing-Accepts : (nodes : OrderedMap ℕ StorageNode) → Accepts sizing nodes
unfolding sizing answer_body
sizing-Accepts nodes id request h = (
  serialize_size sizes [],
  sizes,
  refl,
  deserialize_size-serialize_size sizes (omega arith) (omega arith),
)

pub two_nodes-IsKeyed : IsKeyed two_nodes
unfolding OrderedMap.find
two_nodes-IsKeyed id sn f = elim (Bool-cases (0 == id)) [
  | inl hit ↦
      let e = (==_iff 0 id).0 hit in
      let s : OrderedMap.same 0 id ≡ true = ground arith in
      let g : some node_a ≡ some sn = rw s at f in
      sym (ap (λ (t : StorageNode). t.id) (some-injective node_a sn g)) ∙ e
  | inr miss ↦ elim (Bool-cases (1 == id)) [
    | inl hit ↦
        let e = (==_iff 1 id).0 hit in
        let r : OrderedMap.same 0 id ≡ false = ground arith in
        let s : OrderedMap.same 1 id ≡ true = ground arith in
        let g : some node_b ≡ some sn = rw (r, s) at f in
        sym (ap (λ (t : StorageNode). t.id) (some-injective node_b sn g)) ∙ e
    | inr off ↦
        let r : OrderedMap.same 0 id ≡ false = ground arith in
        let s : OrderedMap.same 1 id ≡ false = ground arith in
        let g : none ≡ some sn = rw (r, s) at f in cc
  ]
]

put_handler_starved_example :
    put_handler length 100 sizing (λ tasks. tasks) k_key two_blocks_payload one_up_master
    ≡ (fault, one_up_master)
put_handler_starved_example =
    put_handler_starved length k_key two_blocks_payload one_up_master 100 sizing (λ tasks. tasks)
      (omega arith) (omega arith) one_up-IsReady (λ e. cc) (λ e. cc) (unfold replicas in few_one)

-- A node with the blocks of its latest put reads the numbers that it is asked for and answers with
-- the blocks.
answer_with : List Block → Result BlockNumList → Option Reply
answer_with kept (ok bnl) =
    some
      (record { status = status_ok; body = serialize_all (map (value_of kept) bnl.block_nums) [] })
answer_with kept (throw e) = none
answer_with kept fault = none

stored_answer : Result (List Block) → Result BlockNumList → Option Reply
unfolding answer_with
stored_answer (ok kept) nums = answer_with kept nums
stored_answer (throw e) nums = none
stored_answer fault nums = none

node_answer : Option (List ℕ) → Result BlockNumList → Option Reply
unfolding stored_answer
node_answer none nums = none
node_answer (some body) nums = stored_answer (Block.deserialize body) nums

remembering : List ℕ → List SentPut → Network
unfolding node_answer
remembering key log id request = node_answer (latest id key log) (deserialize_nums request)

-- The numbers of valid blocks fit 32 bits, and are those of valid blocks.
value_of-IsValid :
    (kept : List Block) (n : ℕ)
    → All IsValid kept
    → has_num kept n ≡ true
    → IsU32 n × IsValid (value_of kept n)
value_of-IsValid [] n v h = absurd cc
value_of-IsValid (b ∷ kept) n v h = elim (Bool-cases (b.block_num == n)) [
  | inl hit ↦ (subst IsU32 ((==_iff b.block_num n).0 hit) v.0.num_fits, rw hit v.0)
  | inr miss ↦
      let (fits, valid) = value_of-IsValid kept n v.1 (rw miss at h) in (fits, rw miss valid)
]

values-IsValid :
    (kept : List Block) (nums : List ℕ)
    → All IsValid kept
    → All (λ n. has_num kept n ≡ true) nums
    → All IsU32 nums × All IsValid (map (value_of kept) nums)
values-IsValid kept [] v a = (tt, tt)
values-IsValid kept (n ∷ nums) v a =
    let (x, y) = value_of-IsValid kept n v a.0 in
    let (xs, ys) = values-IsValid kept nums v a.1 in ((x, xs), (y, ys))

remembering-Keeps : (key : List ℕ) (log : List SentPut) → Keeps (remembering key log) key log
unfolding remembering node_answer stored_answer answer_with answer_body serialize_nums
remembering-Keeps key log id body kept nums there contents valid having rising =
    let bnl : BlockNumList = record { block_nums = nums } in
    let (fit, answers) = values-IsValid kept nums valid having in
    let e : deserialize_nums (put_nums nums []) ≡ ok bnl =
      deserialize_nums-serialize_nums bnl fit in
    (
      serialize_all (map (value_of kept) nums) [],
      rw (there, contents, e) refl,
      deserialize-serialize_all (map (value_of kept) nums) answers,
    )

-- The payload's two blocks.
abbrev first_block : Block
first_block = record { key = k_key; block_num = 0; data_size = 2; bytes = 1 ∷ 2 ∷ [] }

abbrev last_block : Block
last_block = record { key = k_key; block_num = 1; data_size = 1; bytes = 3 ∷ [] }

abbrev pub two_blocks : List Block
two_blocks = first_block ∷ last_block ∷ []

two_blocks-IsValid : All IsValid two_blocks
two_blocks-IsValid = (
  record { key_fits = omega arith; num_fits = omega arith; size_fits = omega arith; sized = refl },
  (
    record {
      key_fits = omega arith;
      num_fits = omega arith;
      size_fits = omega arith;
      sized = refl;
    },
    tt,
  ),
)

-- Every node answers with these blocks.
pub serving : Network
unfolding answer_with
serving id request = answer_with two_blocks (deserialize_nums request)

pub serving_answer :
    (id : ℕ) (nums : List ℕ)
    → All (λ n. has_num two_blocks n ≡ true) nums
    → (body : List ℕ) × (answer_body (serving id (put_nums nums [])) ≡ some body)
      × (Block.deserialize body ≡ ok (map (value_of two_blocks) nums))
unfolding serving answer_with answer_body serialize_nums
serving_answer id nums having =
    let bnl : BlockNumList = record { block_nums = nums } in
    let (fit, answers) = values-IsValid two_blocks nums two_blocks-IsValid having in
    let e : deserialize_nums (put_nums nums []) ≡ ok bnl =
      deserialize_nums-serialize_nums bnl fit in
    (
      serialize_all (map (value_of two_blocks) nums) [],
      rw e refl,
      deserialize-serialize_all (map (value_of two_blocks) nums) answers,
    )

-- The puts that the nodes were sent.
abbrev sent_puts : List SentPut
sent_puts =
    (put_handler length 2 sizing (λ tasks. tasks) k_key two_blocks_payload two_master).1.puts_sent

two_master-IsAcceptable :
    IsAcceptable length 2 sizing (λ tasks. tasks) two_blocks_payload two_master
unfolding replicas
two_master-IsAcceptable = record {
  pos = omega arith;
  room = omega arith;
  ready = two_nodes-IsReady;
  long = omega arith;
  some_nodes = omega arith;
  enough = enough_two;
  keyed = two_nodes-IsKeyed;
  accepts = sizing-Accepts two_nodes;
  perm = λ tasks. Permᴰ.refl tasks;
}

get_handler-put_handler_cluster_example :
    (after : MasterServer) × (connections : OrderedMap ℕ (List ℕ)) × (put_handler length 2 sizing
        (λ tasks. tasks)
        k_key
        two_blocks_payload
        two_master
      ≡ (ok (bare status_ok ∷ []), after))
    × (get_handler (remembering k_key sent_puts) (λ tasks. tasks) k_key after ≡ (
      ok (record { status = status_ok; body = two_blocks_payload } ∷ []),
      record after { open_connections = connections },
    ))
get_handler-put_handler_cluster_example =
    get_handler-put_handler_cluster length 2 sizing (remembering k_key sent_puts) (λ tasks. tasks)
      (λ tasks. tasks) k_key two_blocks_payload two_master two_master-IsAcceptable (omega arith)
      (remembering-Keeps k_key sent_puts) (λ tasks. Permᴰ.refl tasks)

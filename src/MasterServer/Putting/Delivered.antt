-- ===== src/MasterServer/Putting/Delivered.antt =====
-- What a put sends to the nodes, `StoreEndpoint::putHandler` of src/master/master_server.cpp: each node's
-- blocks, and the trace of the requests.
use rackkey.Common.{
  ℕ, ◌≡◌, refl, subst, arith, List, [], ◌∷◌, ◌++◌, true, false, ◌&&◌, ◌⊎◌, Bool-cases, Option-cases,
  inl, inr, Option, none, some, ◌==◌, ==_iff, All, All-append, if◌then◌else◌, list_beq,
  list_beq_refl,
}
use mathlib.Core.Option.{some-injective}
use rackkey.Block
use rackkey.Block.{Block}
use rackkey.OrderedMap
use rackkey.OrderedMap.{OrderedMap}
use rackkey.OrderedMap.Laws.{IsSorted, Above-IsSorted, insert-IsSorted, find_lower, same→eq}
use rackkey.OrderedMap.Order.{nat_ord}
use package.rackkey.MasterServer.{Tasks, SentPut, push_back}
use package.rackkey.MasterServer.Getting.Available.{find-All}
use package.rackkey.MasterServer.Putting.{push_all}
use package.rackkey.MasterServer.Putting.Assigning.{has_num, gets_block, All-insert}
use package.rackkey.MasterServer.Putting.Requests.{sent_log}

-- The body of the latest put of a key that went out to a node.
abbrev pub latest : ℕ → List ℕ → List SentPut → Option (List ℕ)
latest id key [] = none
latest id key (put ∷ log) =
    if put.node_id == id && list_beq put.key key then some put.body else latest id key log

-- The block is one of those.
abbrev pub IsAmong : List Block → Block → Type 0
IsAmong [] b = ⊥
IsAmong (c ∷ blocks) b = (c ≡ b) ⊎ IsAmong blocks b

pub IsAmong-All :
    (P : Block → Type 0) (blocks : List Block) (b : Block) → All P blocks → IsAmong blocks b → P b
IsAmong-All P [] b a h = absurd h
IsAmong-All P (c ∷ blocks) b a (inl e) = subst P e a.0
IsAmong-All P (c ∷ blocks) b a (inr h) = IsAmong-All P blocks b a.1 h

pub All-IsAmong :
    (P : Block → Type 0) (blocks : List Block)
    → ((b : Block) → IsAmong blocks b → P b)
    → All P blocks
All-IsAmong P [] f = tt
All-IsAmong P (b ∷ blocks) f = (f b (inl refl), All-IsAmong P blocks (λ c h. f c (inr h)))

-- Every task is in order, and all its blocks satisfy `P`.
pub record AreOf (P : Block → Type 0) (tasks : Tasks Block) : Type 0 where
  pub in_order : IsSorted tasks
  pub each : All (λ (e : ℕ × List Block). All P e.1) tasks

pub push_all-AreOf :
    (P : Block → Type 0) (b : Block) (ids : List ℕ) (tasks : Tasks Block)
    → P b
    → AreOf P tasks
    → AreOf P (push_all b ids tasks)
unfolding push_all push_back
push_all-AreOf P b [] tasks h a = a
push_all-AreOf P b (id ∷ ids) tasks h a =
    push_all-AreOf P b ids (push_back id b tasks) h
      (elim (Option-cases (OrderedMap.find id tasks)) [
        | inl e ↦
            rw (push_back, e)
              (record {
                in_order = insert-IsSorted id (b ∷ []) tasks a.in_order;
                each = All-insert _ id (b ∷ []) tasks (h, tt) a.each;
              })
        | inr (xs, e) ↦
            let old : All P xs =
              find-All (λ (e : ℕ × List Block). All P e.1) id xs tasks a.each e in
            rw (push_back, e)
              (record {
                in_order = insert-IsSorted id (xs ++ b ∷ []) tasks a.in_order;
                each =
                    All-insert _ id (xs ++ b ∷ []) tasks (All-append P xs (b ∷ []) old (h, tt))
                      a.each;
              })
      ])

none-gets_block :
    (tasks : Tasks Block) (id bn : ℕ)
    → OrderedMap.find id tasks ≡ none
    → gets_block tasks id bn ≡ false
unfolding OrderedMap.find
none-gets_block [] id bn f = refl
none-gets_block ((j, w) ∷ tasks) id bn f = elim (Bool-cases (OrderedMap.same j id)) [
  | inl hit ↦ absurd (let g = rw hit at f in cc)
  | inr miss ↦
      let n : (j == id) ≡ false = ground arith in rw n (none-gets_block tasks id bn (rw miss at f))
]

-- A node's task holds all the blocks that the node gets.
pub find-has_num :
    (tasks : Tasks Block) (id bn : ℕ) (bs : List Block)
    → IsSorted tasks
    → OrderedMap.find id tasks ≡ some bs
    → has_num bs bn ≡ gets_block tasks id bn
unfolding OrderedMap.find
find-has_num [] id bn bs s f = cc
find-has_num ((j, w) ∷ tasks) id bn bs s f = elim (Bool-cases (OrderedMap.same j id)) [
  | inl hit ↦
      let e : w ≡ bs = some-injective w bs (rw hit at f) in
      let n : (j == id) ≡ true = (==_iff j id).1 (same→eq j id hit) in
      let rest = none-gets_block tasks id bn (find_lower j id tasks s hit) in
      rw (n, rest, e) (ground arith)
  | inr miss ↦
      let n : (j == id) ≡ false = ground arith in
      rw n (find-has_num tasks id bn bs (Above-IsSorted j tasks s) (rw miss at f))
]

module _ (key : List ℕ) (Q : ℕ × List Block → Type 0) (id : ℕ) where
  -- The latest put to the node carries blocks that are as `Q` says.
  abbrev pub Carries : List SentPut → Type 0
  Carries log =
      (bs : List Block) × (latest id key log ≡ some (Block.serialize_all bs [])) × Q (id, bs)

  pub Carries-sent_log :
      (tasks : List (ℕ × List Block)) (log : List SentPut) (bn : ℕ)
      → All Q tasks
      → Carries log ⊎ (gets_block tasks id bn ≡ true)
      → Carries (sent_log key tasks log)
  Carries-sent_log [] log bn a (inl c) = c
  Carries-sent_log [] log bn a (inr g) = absurd cc
  Carries-sent_log ((j, w) ∷ tasks) log bn a h = elim (Bool-cases (j == id)) [
    | inl hit ↦
        let e = (==_iff j id).0 hit in
        Carries-sent_log tasks _ bn a.1
          (inl (w, rw (hit, list_beq_refl key) refl, subst (λ t. Q (t, w)) e a.0))
    | inr miss ↦ Carries-sent_log tasks _ bn a.1 (passed miss h)
  ]
    where
      passed :
          (j == id) ≡ false
          → Carries log ⊎ (gets_block ((j, w) ∷ tasks) id bn ≡ true)
          → Carries (record { node_id = j; key = key; body = Block.serialize_all w [] } ∷ log)
            ⊎ (gets_block tasks id bn ≡ true)
      passed miss (inl (bs, there, q)) = inl (bs, rw miss there, q)
      passed miss (inr g) = inr (rw miss at g)

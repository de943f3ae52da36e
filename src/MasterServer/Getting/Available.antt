-- ===== src/MasterServer/Getting/Available.antt =====
-- The nodes that a get asks, in `StoreEndpoint::getHandler` of src/master/master_server.cpp, where
-- every node that the key's map names is healthy.
use rackkey.Common.{
  ℕ, ◌≡◌, ◌≢◌, refl, sym, subst, ◌∙◌, List, [], ◌∷◌, ◌++◌, true, Bool-cases, Option-cases, inl, inr,
  some, All, All-append, ◌<◌, ltb→lt, arith, length, length-append,
}
use mathlib.Core.Option.{some-injective}
use rackkey.Common.Results.{ok}
use rackkey.OrderedMap
use rackkey.OrderedMap.{OrderedMap}
use rackkey.OrderedMap.Laws.{same_refl, same→eq, Above, IsSorted, Above-trans, Above-IsSorted}
use rackkey.OrderedMap.Order.{nat_ord}
use rackkey.StorageNode.{StorageNode}
use package.rackkey.MasterServer.{Tasks, NodeSet, BlockNodeMap, node_of, push_back}
use package.rackkey.MasterServer.Getting.{first_healthy, choose_nodes}
use package.rackkey.MasterServer.Placement.{healthy_in}
use package.rackkey.MasterServer.Placement.Search.{healthy_in-some}
use package.rackkey.MasterServer.Putting.Assigning.{All-insert}
use package.rackkey.MasterServer.Putting.Sending.{is_in}
use package.rackkey.MasterServer.Putting.Requests.{find_healthy}

-- A set has an element, and all its elements are healthy nodes.
abbrev pub AllUp : OrderedMap ℕ StorageNode → NodeSet → Type 0
AllUp nodes ids = (ids ≢ []) × ((id : ℕ) → is_in ids id ≡ true → healthy_in nodes id ≡ true)

is_in_head : (id : ℕ) (u : Unit {0}) (ids : NodeSet) → is_in ((id, u) ∷ ids) id ≡ true
unfolding OrderedMap.find
is_in_head id u ids = rw (same_refl id) refl

-- The first node of the set is asked.
first_healthy_up :
    (nodes : OrderedMap ℕ StorageNode) (ids : NodeSet)
    → AllUp nodes ids
    → (id : ℕ) × (first_healthy nodes ids ≡ ok (some id))
      × (healthy_in nodes id ≡ true)
      × (is_in ids id ≡ true)
unfolding first_healthy node_of
first_healthy_up nodes [] up = absurd (up.0 refl)
first_healthy_up nodes ((id, u) ∷ ids) up =
    let h = up.1 id (is_in_head id u ids) in
    let (sn, f) = find_healthy nodes id h in
    let on : sn.is_healthy ≡ true = sym (healthy_in-some nodes id sn f) ∙ h in
    (id, rw (first_healthy, node_of, f, on) refl, h, is_in_head id u ids)

pub find-All {ℓ} :
    {V : Type ℓ} (P : ℕ × V → Type 0) (k : ℕ) (v : V) (m : OrderedMap ℕ V)
    → All P m
    → OrderedMap.find k m ≡ some v
    → P (k, v)
unfolding OrderedMap.find
find-All P k v [] a f = cc
find-All P k v ((j, w) ∷ m) a f = elim (Bool-cases (OrderedMap.same j k)) [
  | inl hit ↦
      let e = some-injective w v (rw hit at f) in
      let i = same→eq j k hit in subst (λ t. P (t, v)) i (subst (λ t. P (j, t)) e a.0)
  | inr miss ↦ find-All P k v m a.1 (rw miss at f)
]

-- Each number is above those before it.
abbrev pub IsRising : List ℕ → Type 0
IsRising [] = Unit {0}
IsRising (x ∷ xs) = All (λ y. x < y) xs × IsRising xs

IsRising-snoc : (xs : List ℕ) (n : ℕ) → All (λ x. x < n) xs → IsRising xs → IsRising (xs ++ n ∷ [])
IsRising-snoc [] n below r = (tt, tt)
IsRising-snoc (x ∷ xs) n below r =
    (All-append (λ y. x < y) xs (n ∷ []) r.0 (below.0, tt), IsRising-snoc xs n below.1 r.1)

module _ (nodes : OrderedMap ℕ StorageNode) (on : ℕ → ℕ → Type 0) where
  -- A task's node is healthy and has the blocks that it is asked for, one at least, by rising number,
  -- all below those of `m`.
  pub record IsFair (m : BlockNodeMap) (task : ℕ × List ℕ) : Type 0 where
    pub healthy : healthy_in nodes task.0 ≡ true
    pub having : All (on task.0) task.1
    pub rising : IsRising task.1
    pub below : All (λ n. Above n m) task.1
    pub some_num : 0 < length task.1

  below_head :
      (bn : ℕ) (ids : NodeSet) (m : BlockNodeMap) (xs : List ℕ)
      → All (λ n. Above n ((bn, ids) ∷ m)) xs
      → All (λ n. n < bn) xs × All (λ n. Above n m) xs
  below_head bn ids m [] a = (tt, tt)
  below_head bn ids m (x ∷ xs) a =
      let (b, c) = below_head bn ids m xs a.1 in
      ((ltb→lt x bn a.0.0, b), (Above-trans x bn m a.0.0 a.0.1, c))

  still-IsFair :
      (bn : ℕ) (ids : NodeSet) (m : BlockNodeMap) (tasks : List (ℕ × List ℕ))
      → All (IsFair ((bn, ids) ∷ m)) tasks
      → All (IsFair m) tasks
  still-IsFair bn ids m [] a = tt
  still-IsFair bn ids m ((id, xs) ∷ tasks) a = (
    record {
      healthy = a.0.healthy;
      having = a.0.having;
      rising = a.0.rising;
      below = (below_head bn ids m xs a.0.below).1;
      some_num = a.0.some_num;
    },
    still-IsFair bn ids m tasks a.1,
  )

  push_back-IsFair :
      (id bn : ℕ) (ids : NodeSet) (m : BlockNodeMap) (tasks : Tasks ℕ)
      → healthy_in nodes id ≡ true
      → on id bn
      → Above bn m
      → All (IsFair ((bn, ids) ∷ m)) tasks
      → All (IsFair m) (push_back id bn tasks)
  unfolding push_back
  push_back-IsFair id bn ids m tasks h o s a = elim (Option-cases (OrderedMap.find id tasks)) [
    | inl e ↦
        rw (push_back, e)
          (All-insert (IsFair m) id (bn ∷ []) tasks
            (record {
              healthy = h;
              having = (o, tt);
              rising = (tt, tt);
              below = (s, tt);
              some_num = omega arith;
            })
            (still-IsFair bn ids m tasks a))
    | inr (xs, e) ↦
        let old : IsFair ((bn, ids) ∷ m) (id, xs) =
          find-All (IsFair ((bn, ids) ∷ m)) id xs tasks a e in
        let (under, above) = below_head bn ids m xs old.below in
        rw (push_back, e)
          (All-insert (IsFair m) id (xs ++ bn ∷ []) tasks
            (record {
              healthy = h;
              having = All-append (on id) xs (bn ∷ []) old.having (o, tt);
              rising = IsRising-snoc xs bn under old.rising;
              below = All-append (λ n. Above n m) xs (bn ∷ []) above (s, tt);
              some_num = omega (arith, length-append xs (bn ∷ []));
            })
            (still-IsFair bn ids m tasks a))
  ]

  -- The choice of nodes succeeds, and is fair.
  pub choose_nodes_up :
      (m : BlockNodeMap) (tasks : Tasks ℕ)
      → IsSorted m
      → All (λ (e : ℕ × NodeSet). AllUp nodes e.1) m
      → All (λ (e : ℕ × NodeSet). (id : ℕ) → is_in e.1 id ≡ true → on id e.0) m
      → All (IsFair m) tasks
      → (out : Tasks ℕ) × (choose_nodes nodes m tasks ≡ ok out) × All (IsFair []) out
  unfolding choose_nodes
  choose_nodes_up [] tasks s up o a = (tasks, refl, a)
  choose_nodes_up ((bn, ids) ∷ m) tasks s up o a =
      let (id, e, h, inside) = first_healthy_up nodes ids up.0 in
      let (out, f, b) =
        choose_nodes_up m (push_back id bn tasks) (Above-IsSorted bn m s) up.1 o.1
          (push_back-IsFair id bn ids m tasks h (o.0 id inside) s a) in
      (out, rw (choose_nodes, e) f, b)

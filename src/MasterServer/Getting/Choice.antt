-- ===== src/MasterServer/Getting/Choice.antt =====
-- The nodes that a get asks, in `StoreEndpoint::getHandler` of src/master/master_server.cpp: each
-- block of the key is asked for.
use rackkey.Common.{
  ℕ, ◌≡◌, refl, sym, ap, subst, ◌∙◌, arith, List, [], ◌∷◌, ◌++◌, Bool, true, false, ◌||◌,
  Bool-cases, Option-cases, inl, inr, Option, none, some, ◌==◌, ltb, All,
}
use mathlib.Core.List.{Permᴰ}
use mathlib.Core.Option.{some-injective}
use rackkey.Common.Results.{Result, ok, throw, fault}
use rackkey.DiskStorage.Reading.{is_requested}
use rackkey.OrderedMap
use rackkey.OrderedMap.{OrderedMap}
use rackkey.OrderedMap.Order.{nat_ord}
use rackkey.StorageNode.{StorageNode}
use package.rackkey.MasterServer.{Tasks, NodeSet, BlockNodeMap, push_back}
use package.rackkey.MasterServer.Getting.{first_healthy, choose_nodes}

-- Some task asks for the block.
abbrev pub asked : List (ℕ × List ℕ) → ℕ → Bool
asked [] n = false
asked ((id, nums) ∷ tasks) n = is_requested nums n || asked tasks n

abbrev pub nums_of : BlockNodeMap → List ℕ
nums_of [] = []
nums_of ((bn, ids) ∷ m) = bn ∷ nums_of m

pub asked-Permᴰ : (a b : List (ℕ × List ℕ)) (n : ℕ) → Permᴰ a b → asked a n ≡ asked b n
asked-Permᴰ [] [] n Permᴰ.nil = refl
asked-Permᴰ ((i, xs) ∷ a) ((j, ys) ∷ b) n (Permᴰ.cons e p) =
    ground (arith, ap (λ (t : ℕ × List ℕ). is_requested t.1 n) e, asked-Permᴰ a b n p)
asked-Permᴰ ((i, xs) ∷ (j, ys) ∷ a) ((k, zs) ∷ (l, us) ∷ b) n (Permᴰ.swap e f) = ground (
  arith,
  ap (λ (t : ℕ × List ℕ). is_requested t.1 n) e,
  ap (λ (t : ℕ × List ℕ). is_requested t.1 n) f,
)
asked-Permᴰ a b n (Permᴰ.trans p q) = asked-Permᴰ a _ n p ∙ asked-Permᴰ _ b n q

pub All-Permᴰ {ℓ} : {A : Type ℓ} (P : A → Type 0) (a b : List A) → Permᴰ a b → All P b → All P a
All-Permᴰ P [] [] Permᴰ.nil h = tt
All-Permᴰ P (x ∷ a) (y ∷ b) (Permᴰ.cons e p) h = (subst P (sym e) h.0, All-Permᴰ P a b p h.1)
All-Permᴰ P (x ∷ y ∷ a) (z ∷ w ∷ b) (Permᴰ.swap e f) h =
    (subst P (sym e) h.1.0, (subst P (sym f) h.0, h.1.1))
All-Permᴰ P a b (Permᴰ.trans p q) h = All-Permᴰ P a _ p (All-Permᴰ P _ b q h)

is_requested-snoc :
    (xs : List ℕ) (bn n : ℕ) → is_requested (xs ++ bn ∷ []) n ≡ (bn == n || is_requested xs n)
unfolding is_requested
is_requested-snoc [] bn n = refl
is_requested-snoc (x ∷ xs) bn n = ground (arith, is_requested-snoc xs bn n)

find-asked :
    (id : ℕ) (xs : List ℕ) (tasks : Tasks ℕ) (n : ℕ)
    → OrderedMap.find id tasks ≡ some xs
    → is_requested xs n ≡ true
    → asked tasks n ≡ true
unfolding OrderedMap.find
find-asked id xs [] n f h = cc
find-asked id xs ((j, w) ∷ tasks) n f h = elim (Bool-cases (OrderedMap.same j id)) [
  | inl hit ↦ let e : w ≡ xs = some-injective w xs (rw hit at f) in rw (e, h) refl
  | inr miss ↦ ground (arith, find-asked id xs tasks n (rw miss at f) h)
]

asked-insert_new :
    (id bn : ℕ) (tasks : Tasks ℕ) (n : ℕ)
    → OrderedMap.find id tasks ≡ none
    → asked (OrderedMap.insert id (bn ∷ []) tasks) n ≡ (bn == n || asked tasks n)
unfolding OrderedMap.find OrderedMap.insert is_requested
asked-insert_new id bn [] n f = ground arith
asked-insert_new id bn ((j, w) ∷ tasks) n f = elim (Bool-cases (ltb id j)) [
  | inl below ↦ rw below (ground arith)
  | inr not_below ↦ elim (Bool-cases (ltb j id)) [
    | inl above ↦
        rw (not_below, above)
          (ground (arith, asked-insert_new id bn tasks n (rw (not_below, above) at f)))
    | inr not_above ↦ absurd (let g = rw (not_below, not_above) at f in cc)
  ]
]

asked-insert_more :
    (id bn : ℕ) (xs : List ℕ) (tasks : Tasks ℕ) (n : ℕ)
    → OrderedMap.find id tasks ≡ some xs
    → asked (OrderedMap.insert id (xs ++ bn ∷ []) tasks) n ≡ (bn == n || asked tasks n)
unfolding OrderedMap.find OrderedMap.insert
asked-insert_more id bn xs [] n f = cc
asked-insert_more id bn xs ((j, w) ∷ tasks) n f = elim (Bool-cases (ltb id j)) [
  | inl below ↦
      let known = find-asked id xs ((j, w) ∷ tasks) n f in
      rw below (ground (arith, is_requested-snoc xs bn n, known))
  | inr not_below ↦ elim (Bool-cases (ltb j id)) [
    | inl above ↦
        rw (not_below, above)
          (ground (arith, asked-insert_more id bn xs tasks n (rw (not_below, above) at f)))
    | inr not_above ↦
        let e : w ≡ xs = some-injective w xs (rw (not_below, not_above) at f) in
        rw (not_below, not_above, e) (ground (arith, is_requested-snoc xs bn n))
  ]
]

asked-push_back :
    (id bn : ℕ) (tasks : Tasks ℕ) (n : ℕ)
    → asked (push_back id bn tasks) n ≡ (bn == n || asked tasks n)
unfolding push_back
asked-push_back id bn tasks n = elim (Option-cases (OrderedMap.find id tasks)) [
  | inl e ↦ rw (push_back, e) (asked-insert_new id bn tasks n e)
  | inr (xs, e) ↦ rw (push_back, e) (asked-insert_more id bn xs tasks n e)
]

choose_nodes-cons :
    (nodes : OrderedMap ℕ StorageNode) (bn : ℕ) (ids : NodeSet) (m : BlockNodeMap)
    (tasks out : Tasks ℕ) (c : Result (Option ℕ))
    → first_healthy nodes ids ≡ c
    → choose_nodes nodes ((bn, ids) ∷ m) tasks ≡ ok out
    → (id : ℕ) × (choose_nodes nodes m (push_back id bn tasks) ≡ ok out)
unfolding choose_nodes
choose_nodes-cons nodes bn ids m tasks out (ok none) f e =
    absurd (let g = rw (choose_nodes, f) at e in cc)
choose_nodes-cons nodes bn ids m tasks out (ok (some id)) f e = (id, rw (choose_nodes, f) at e)
choose_nodes-cons nodes bn ids m tasks out (throw x) f e =
    absurd (let g = rw (choose_nodes, f) at e in cc)
choose_nodes-cons nodes bn ids m tasks out fault f e =
    absurd (let g = rw (choose_nodes, f) at e in cc)

-- The tasks ask for the blocks of the map, beside those asked for before.
pub asked-choose_nodes :
    (nodes : OrderedMap ℕ StorageNode) (m : BlockNodeMap) (tasks out : Tasks ℕ) (n : ℕ)
    → choose_nodes nodes m tasks ≡ ok out
    → asked out n ≡ (is_requested (nums_of m) n || asked tasks n)
unfolding choose_nodes is_requested
asked-choose_nodes nodes [] tasks out n e = ground arith
asked-choose_nodes nodes ((bn, ids) ∷ m) tasks out n e =
    let (id, f) = choose_nodes-cons nodes bn ids m tasks out (first_healthy nodes ids) refl e in
    ground (
      arith,
      asked-choose_nodes nodes m (push_back id bn tasks) out n f,
      asked-push_back id bn tasks n,
    )

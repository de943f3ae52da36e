-- ===== src/MasterServer/Placement/Starved.antt =====
-- The loop `while (cnt < R)` of `putHandler`, src/master/master_server.cpp, where fewer than R nodes
-- are healthy.
use rackkey.Common.{
  ℕ, zero, suc, ◌<◌, ◌≡◌, ◌≢◌, refl, sym, ap, subst, ◌∙◌, arith, List, [], ◌∷◌, ◌++◌, true, false,
  ltb, lt→ltb, All, All-append, All-split, Bool-cases, inl, inr, Option-cases, some, none,
  if◌then◌else◌, length, length-append, ==-refl,
}
use mathlib.Core.Option.{some-injective}
use rackkey.Common.Results.{ok}
use rackkey.DiskStorage.Reading.{is_requested}
use rackkey.HashRing
use rackkey.HashRing.{HashRing, VirtualNode, find_next_node}
use rackkey.OrderedMap
use rackkey.OrderedMap.{OrderedMap}
use rackkey.OrderedMap.Order.{nat_ord}
use rackkey.StorageNode.{StorageNode}
use package.rackkey.MasterServer.Putting.{place}
use package.rackkey.MasterServer.Placement.{
  after, until, clockwise, healthy_in, gather, chosen, IsReady,
}
use package.rackkey.MasterServer.Placement.Walk.{IsWalk, clockwise-IsWalk, until-after}
use package.rackkey.MasterServer.Placement.Search.{
  IsKnown, gather-extends, count-chosen, place-step,
}

is_requested-append :
    (used more : List ℕ) (id : ℕ)
    → is_requested used id ≡ true
    → is_requested (used ++ more) id ≡ true
unfolding is_requested
is_requested-append [] more id h = ground arith
is_requested-append (n ∷ used) more id h = ground (arith, is_requested-append used more id)

is_requested_last : (used : List ℕ) (id : ℕ) → is_requested (used ++ id ∷ []) id ≡ true
unfolding is_requested
is_requested_last [] id = rw (==-refl id) refl
is_requested_last (n ∷ used) id = ground (arith, is_requested_last used id)

module _ (nodes : OrderedMap ℕ StorageNode) where
  -- No entry gives a node that is still to be chosen.
  abbrev pub IsSettled : List ℕ → HashRing → Type 0
  IsSettled used ring =
      All (λ (e : ℕ × VirtualNode). chosen nodes used e.1.physical_node_id ≡ false) ring

  chosen-extends :
      (used more : List ℕ) (id : ℕ)
      → chosen nodes used id ≡ false
      → chosen nodes (used ++ more) id ≡ false
  chosen-extends used more id c = elim (Bool-cases (is_requested used id)) [
    | inl hit ↦ rw (is_requested-append used more id hit) refl
    | inr miss ↦
        let unhealthy : healthy_in nodes id ≡ false = rw miss at c in rw unhealthy (ground arith)
  ]

  chosen_then :
      (used : List ℕ) (id : ℕ)
      → chosen nodes (if chosen nodes used id then used ++ id ∷ [] else used) id ≡ false
  chosen_then used id = elim (Bool-cases (chosen nodes used id)) [
    | inl hit ↦ rw (hit, is_requested_last used id) refl
    | inr miss ↦ rw (miss, miss) refl
  ]

  chosen-gather :
      (path : HashRing) (used : List ℕ) (id : ℕ)
      → chosen nodes used id ≡ false
      → chosen nodes (gather nodes path used) id ≡ false
  chosen-gather path used id c =
      let (more, e) = gather-extends nodes path used in
      subst (λ t. chosen nodes t id ≡ false) (sym e) (chosen-extends used more id c)

  gather-IsSettled : (path : HashRing) (used : List ℕ) → IsSettled (gather nodes path used) path
  gather-IsSettled [] used = tt
  gather-IsSettled ((k, vn) ∷ path) used =
      let id = vn.physical_node_id in
      let used' = if chosen nodes used id then used ++ id ∷ [] else used in
      (chosen-gather path used' id (chosen_then used id), gather-IsSettled path used')

upper_bound-All :
    (P : VirtualNode → Type 0) (h k : ℕ) (vn : VirtualNode) (m : HashRing)
    → All (λ (e : ℕ × VirtualNode). P e.1) m
    → OrderedMap.upper_bound h m ≡ some (k, vn)
    → P vn
unfolding OrderedMap.upper_bound
upper_bound-All P h k vn [] a e = cc
upper_bound-All P h k vn ((i, x) ∷ m) a e = elim (Bool-cases (ltb h i)) [
  | inl l ↦
      let f : some (i, x) ≡ some (k, vn) = rw l at e in
      subst P (ap (λ t. t.1) (some-injective _ _ f)) a.0
  | inr l ↦ upper_bound-All P h k vn m a.1 (rw l at e)
]

-- The next node of a ring that is not empty is the node of one of its entries.
find_next_node-All :
    (P : VirtualNode → Type 0) (ring : HashRing) (h : ℕ)
    → ring ≢ []
    → All (λ (e : ℕ × VirtualNode). P e.1) ring
    → (vn : VirtualNode) × (find_next_node ring h ≡ ok vn) × P vn
unfolding find_next_node
find_next_node-All P [] h full a = absurd (full refl)
find_next_node-All P ((j, w) ∷ ring) h full a =
    elim (Option-cases (OrderedMap.upper_bound h ((j, w) ∷ ring))) [
      | inl e ↦ (w, rw (find_next_node, e) refl, a.0)
      | inr ((k, vn), e) ↦
          (vn, rw (find_next_node, e) refl, upper_bound-All P h k vn ((j, w) ∷ ring) a e)
    ]

module _ (sha256_32 : List ℕ → ℕ) (ring : HashRing) (nodes : OrderedMap ℕ StorageNode) (r : ℕ)
    (full : ring ≢ []) where
  -- Where no node is left to choose, no fuel is enough.
  place-settled :
      (fuel h : ℕ) (used : List ℕ) (cnt : ℕ)
      → IsKnown nodes ring
      → IsSettled nodes used ring
      → ltb cnt r ≡ true
      → place sha256_32 fuel ring nodes r h used cnt ≡ none
  unfolding place
  place-settled zero h used cnt k s l = rw l refl
  place-settled (suc fuel) h used cnt k s l =
      let (vn, e, ((sn, f), c)) =
        find_next_node-All
          (λ vn.
            ((sn : StorageNode) × (OrderedMap.find vn.physical_node_id nodes ≡ some sn))
            × (chosen nodes used vn.physical_node_id ≡ false))
          ring h full (both ring k s) in
      let next : ℕ = HashRing.hash sha256_32 vn in
      place-step sha256_32 ring nodes r fuel h used cnt vn sn l e f
      ∙ rw c (place-settled fuel next used cnt k s l)
    where
      both :
          (m : HashRing)
          → IsKnown nodes m
          → IsSettled nodes used m
          → All
              (λ (e : ℕ × VirtualNode).
                ((sn : StorageNode) × (OrderedMap.find e.1.physical_node_id nodes ≡ some sn))
                × (chosen nodes used e.1.physical_node_id ≡ false))
              m
      both [] k s = tt
      both (e ∷ m) k s = ((k.0, s.0), both m k.1 s.1)

  place-starving :
      (path : HashRing) (fuel h : ℕ) (used : List ℕ)
      → IsWalk sha256_32 ring h path
      → IsKnown nodes path
      → IsKnown nodes ring
      → IsSettled nodes (gather nodes path used) ring
      → length (gather nodes path used) < r
      → place sha256_32 fuel ring nodes r h used (length used) ≡ none
  unfolding place
  place-starving [] fuel h used w k known s few =
      place-settled fuel h used (length used) known s (lt→ltb (length used) r few)
  place-starving ((j, vn) ∷ path) zero h used w k known s few =
      let (more, e) = gather-extends nodes ((j, vn) ∷ path) used in
      let l : ltb (length used) r ≡ true =
        lt→ltb (length used) r (omega (arith, ap length e, length-append used more)) in
      rw (place, l) refl
  place-starving ((j, vn) ∷ path) (suc fuel) h used w k known s few =
      let (more, e) = gather-extends nodes ((j, vn) ∷ path) used in
      let l : ltb (length used) r ≡ true =
        lt→ltb (length used) r (omega (arith, ap length e, length-append used more)) in
      let id = vn.physical_node_id in
      let c = chosen nodes used id in
      let used' = if c then used ++ id ∷ [] else used in
      place-step sha256_32 ring nodes r fuel h used (length used) vn k.0.0 l w.0 k.0.1
      ∙ ap (λ n. place sha256_32 fuel ring nodes r (HashRing.hash sha256_32 vn) used' n)
          (count-chosen c id used)
      ∙ place-starving path fuel (HashRing.hash sha256_32 vn) used' w.1 k.1 known s few

  -- On a ready ring that is not empty and has fewer than `r` distinct healthy nodes, the loop never
  -- ends: no number of rounds is enough.
  pub place-starved :
      (fuel h : ℕ)
      → IsReady sha256_32 ring nodes
      → length (gather nodes (clockwise h ring) []) < r
      → place sha256_32 fuel ring nodes r h [] 0 ≡ none
  place-starved fuel h ready few =
      let e = until-after h ring ready.sorted in
      let (before, behind) =
        All-split _ (until h ring) (after h ring) (subst (IsKnown nodes) (sym e) ready.known) in
      let settled = gather-IsSettled nodes (clockwise h ring) [] in
      let (behind', before') = All-split _ (after h ring) (until h ring) settled in
      place-starving (clockwise h ring) fuel h []
        (clockwise-IsWalk sha256_32 ring h ready.sorted ready.hashed)
        (All-append _ (after h ring) (until h ring) behind before) ready.known
        (subst (IsSettled nodes (gather nodes (clockwise h ring) [])) e
          (All-append _ (until h ring) (after h ring) before' behind'))
        few

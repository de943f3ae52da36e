-- ===== src/HashRing/Laws.antt =====
-- Which node the ring answers for a hash, and what adding and removing a node does to it.
use rackkey.Common.{
  ℕ, ◌≤◌, ◌<◌, ◌≡◌, ◌≢◌, refl, arith, List, [], ◌∷◌, false, ltb, ltb→lt, lt→ltb, Option, none, some,
  inl, inr, Option-cases,
}
use rackkey.Common.Results.{ok, fault}
use rackkey.OrderedMap
use rackkey.OrderedMap.Laws.{
  IsSorted, upper_bound-IsNext, insert-IsSorted, erase-IsSorted, head_least,
}
use rackkey.OrderedMap.Order.{nat_ord}
use package.rackkey.HashRing.{VirtualNode, HashRing, hash, add_node, remove_node, find_next_node}

-- The node at hash `h`.
abbrev pub node_at : HashRing → ℕ → Option VirtualNode
node_at ring h = OrderedMap.find h ring

-- `vn` is the first node clockwise of `h`: at the least hash above `h`, or, when no hash is above
-- `h`, at the least hash of all.
pub data Clockwise (ring : HashRing) (h : ℕ) (vn : VirtualNode) : Type 0 where
  ahead :
      (at : ℕ)
      → node_at ring at ≡ some vn
      → h < at
      → ((i : ℕ) (x : VirtualNode) → node_at ring i ≡ some x → h < i → at ≤ i)
      → Clockwise ring h vn
  wrapped :
      (at : ℕ)
      → node_at ring at ≡ some vn
      → ((i : ℕ) (x : VirtualNode) → node_at ring i ≡ some x → (i ≤ h) × (at ≤ i))
      → Clockwise ring h vn

-- On a ring that is not empty, in key order, the search returns the first node clockwise.
pub find_next_node-Clockwise :
    (ring : HashRing) (h : ℕ)
    → IsSorted ring
    → ring ≢ []
    → (vn : VirtualNode) × (find_next_node ring h ≡ ok vn) × Clockwise ring h vn
unfolding find_next_node
find_next_node-Clockwise [] h s full = absurd (full refl)
find_next_node-Clockwise ((j, w) ∷ m) h s full =
    elim (Option-cases (OrderedMap.upper_bound h ((j, w) ∷ m))) [
      | inl e ↦ (
        w,
        rw (e, find_next_node),
        wrapped j (head_least j w m s).0 (λ i x f.
            (ground (arith, none_above e i x f), ground (arith, (head_least j w m s).1 i x f))),
      )
      | inr ((at, vn), e) ↦
          let (above, here, least) = rw e at (upper_bound-IsNext h ((j, w) ∷ m) s) in
          (
            vn,
            rw (e, find_next_node),
            ahead at here (ltb→lt h at above)
                (λ i x f l. ground (arith, least i x f (lt→ltb h i l))),
          )
    ]
  where
    none_above :
        OrderedMap.upper_bound h ((j, w) ∷ m) ≡ none
        → (i : ℕ) (x : VirtualNode) → node_at ((j, w) ∷ m) i ≡ some x
        → ltb h i ≡ false
    none_above e = rw e at (upper_bound-IsNext h ((j, w) ∷ m) s)

-- An empty ring has no first node: the dereferenced `begin()` is undefined.
pub find_next_node-empty : (h : ℕ) → find_next_node [] h ≡ fault
unfolding find_next_node OrderedMap.upper_bound
find_next_node-empty h = refl

module _ (sha256_32 : List ℕ → ℕ) (ring : HashRing) (vn : VirtualNode) where
  pub add_node-IsSorted : IsSorted ring → IsSorted (add_node sha256_32 ring vn)
  unfolding add_node
  add_node-IsSorted = insert-IsSorted (hash sha256_32 vn) vn ring

  pub remove_node-IsSorted : IsSorted ring → IsSorted (remove_node sha256_32 ring vn)
  unfolding remove_node
  remove_node-IsSorted = erase-IsSorted (hash sha256_32 vn) ring

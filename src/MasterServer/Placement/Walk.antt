-- ===== src/MasterServer/Placement/Walk.antt =====
-- Asking for the next node again and again walks the ring clockwise.
use rackkey.Common.{
  ℕ, ◌≡◌, refl, sym, ap, subst, ◌∙◌, arith, List, [], ◌∷◌, ◌++◌, append-nil, append_assoc, true,
  false, ltb, All, All-append, All-split, Bool-cases, inl, inr, some, none,
}
use rackkey.Common.Results.{ok}
use rackkey.HashRing
use rackkey.HashRing.{HashRing, VirtualNode, find_next_node}
use rackkey.OrderedMap
use rackkey.OrderedMap.Laws.{IsSorted, Above}
use rackkey.OrderedMap.Order.{nat_ord, ltb_trans, ltb_irrefl}
use package.rackkey.MasterServer.Placement.{after, until, clockwise}

-- No entry is above `h`.
abbrev pub Upto : ℕ → HashRing → Type 0
Upto h ring = All (λ (e : ℕ × VirtualNode). ltb h e.0 ≡ false) ring

upper_bound-skip :
    (h k : ℕ) (vn : VirtualNode) (pre post : HashRing)
    → Upto h pre
    → ltb h k ≡ true
    → OrderedMap.upper_bound h (pre ++ (k, vn) ∷ post) ≡ some (k, vn)
unfolding OrderedMap.upper_bound
upper_bound-skip h k vn [] post u l = rw l refl
upper_bound-skip h k vn ((j, w) ∷ pre) post u l = rw u.0 (upper_bound-skip h k vn pre post u.1 l)

upper_bound-none : (h : ℕ) (ring : HashRing) → Upto h ring → OrderedMap.upper_bound h ring ≡ none
unfolding OrderedMap.upper_bound
upper_bound-none h [] u = refl
upper_bound-none h ((j, w) ∷ ring) u = rw u.0 (upper_bound-none h ring u.1)

find_next_node-skip :
    (h k : ℕ) (vn : VirtualNode) (pre post : HashRing)
    → Upto h pre
    → ltb h k ≡ true
    → find_next_node (pre ++ (k, vn) ∷ post) h ≡ ok vn
unfolding find_next_node
find_next_node-skip h k vn pre post u l =
    rw (find_next_node, upper_bound-skip h k vn pre post u l) refl

find_next_node-first :
    (h k : ℕ) (vn : VirtualNode) (ring : HashRing)
    → Upto h ((k, vn) ∷ ring)
    → find_next_node ((k, vn) ∷ ring) h ≡ ok vn
unfolding find_next_node
find_next_node-first h k vn ring u = rw (find_next_node, upper_bound-none h ((k, vn) ∷ ring) u) refl

Upto-trans : (h k : ℕ) (ring : HashRing) → ltb h k ≡ true → Upto h ring → Upto k ring
Upto-trans h k [] l u = tt
Upto-trans h k ((j, w) ∷ ring) l u = (ground (arith, u.0), Upto-trans h k ring l u.1)

after_all : (h k : ℕ) (ring : HashRing) → ltb h k ≡ true → Above k ring → after h ring ≡ ring
after_all h k [] l a = refl
after_all h k ((j, w) ∷ ring) l a =
    let m = ltb_trans h k j l a.0 in rw m (ap (λ t. (j, w) ∷ t) (after_all h j ring m a.1))

until_none : (h k : ℕ) (ring : HashRing) → ltb h k ≡ true → Above k ring → until h ring ≡ []
until_none h k [] l a = refl
until_none h k ((j, w) ∷ ring) l a =
    let m = ltb_trans h k j l a.0 in rw m (until_none h j ring m a.1)

tail-IsSorted : (j : ℕ) (w : VirtualNode) (ring : HashRing) → Above j ring → IsSorted ring
tail-IsSorted j w [] a = tt
tail-IsSorted j w ((k, x) ∷ ring) a = a.1

-- A ring in order is its entries up to a hash, and then those above it.
pub until-after : (h : ℕ) (ring : HashRing) → IsSorted ring → until h ring ++ after h ring ≡ ring
until-after h [] s = refl
until-after h ((k, vn) ∷ ring) s = elim (Bool-cases (ltb h k)) [
  | inl l ↦ rw (l, until_none h k ring l s, after_all h k ring l s) refl
  | inr l ↦ rw l (ap (λ t. (k, vn) ∷ t) (until-after h ring (tail-IsSorted k vn ring s)))
]

until-Upto : (h : ℕ) (ring : HashRing) → Upto h (until h ring)
until-Upto h [] = tt
until-Upto h ((k, vn) ∷ ring) = elim (Bool-cases (ltb h k)) [
  | inl l ↦ rw l (until-Upto h ring)
  | inr l ↦ rw l (l, until-Upto h ring)
]

after-Above : (h : ℕ) (ring : HashRing) → IsSorted ring → Above h (after h ring)
after-Above h [] s = tt
after-Above h ((k, vn) ∷ ring) s = elim (Bool-cases (ltb h k)) [
  | inl l ↦ rw (l, after_all h k ring l s) (l, s)
  | inr l ↦ rw l (after-Above h ring (tail-IsSorted k vn ring s))
]

module _ (sha256_32 : List ℕ → ℕ) where
  abbrev pub IsHashed : HashRing → Type 0
  IsHashed ring = All (λ (e : ℕ × VirtualNode). HashRing.hash sha256_32 e.1 ≡ e.0) ring

  -- From `h`, the search for the next node, repeated from each node's hash, finds these entries.
  abbrev pub IsWalk : HashRing → ℕ → HashRing → Type 0
  IsWalk ring h [] = Unit {0}
  IsWalk ring h ((k, vn) ∷ path) =
      (find_next_node ring h ≡ ok vn) × IsWalk ring (HashRing.hash sha256_32 vn) path

  -- The entries `mid` above `h` are walked, and then `path`.
  append-IsWalk :
      (ring pre mid post path : HashRing) (h : ℕ)
      → ring ≡ pre ++ (mid ++ post)
      → Upto h pre
      → Above h (mid ++ post)
      → IsHashed mid
      → ((h' : ℕ) → Upto h' (pre ++ mid) → IsWalk ring h' path)
      → IsWalk ring h (mid ++ path)
  append-IsWalk ring pre [] post path h e u a d next = next h (rw (append-nil pre) u)
  append-IsWalk ring pre ((k, vn) ∷ mid) post path h e u a d next = (
    ap (λ r. find_next_node r h) e ∙ find_next_node-skip h k vn pre (mid ++ post) u a.0,
    rw d.0 (
        append-IsWalk ring (pre ++ (k, vn) ∷ []) mid post path k
          (e ∙ sym (append_assoc pre ((k, vn) ∷ []) (mid ++ post)))
          (All-append _ pre ((k, vn) ∷ []) (Upto-trans h k pre a.0 u) (ltb_irrefl k, tt)) a.1 d.1
          (λ h' u'. next h' (subst (Upto h') (append_assoc pre ((k, vn) ∷ []) mid) u'))),
  )

  -- Where no entry is above `h`, the walk starts at the first entry.
  wrapped-IsWalk :
      (ring pre post : HashRing) (h : ℕ)
      → ring ≡ pre ++ post
      → IsSorted ring
      → IsHashed pre
      → Upto h ring
      → IsWalk ring h pre
  wrapped-IsWalk ring [] post h e s d u = tt
  wrapped-IsWalk ring ((k, vn) ∷ pre) post h e s d u =
      let sorted : Above k (pre ++ post) = rw e at s in
      let more =
        append-IsWalk ring ((k, vn) ∷ []) pre post [] k e (ltb_irrefl k, tt) sorted d.1
          (λ h' u'. tt) in
      (
        ap (λ r. find_next_node r h) e
            ∙ find_next_node-first h k vn (pre ++ post) (subst (Upto h) e u),
        rw d.0 (subst (IsWalk ring k) (append-nil pre) more),
      )

  -- One round of a ring in order is a walk.
  pub clockwise-IsWalk :
      (ring : HashRing) (h : ℕ) → IsSorted ring → IsHashed ring → IsWalk ring h (clockwise h ring)
  clockwise-IsWalk ring h s d =
      let e = until-after h ring s in
      let hashed = subst IsHashed (sym e) d in
      let (before, behind) = All-split _ (until h ring) (after h ring) hashed in
      append-IsWalk ring (until h ring) (after h ring) [] (until h ring) h
        (sym e ∙ ap (λ t. until h ring ++ t) (sym (append-nil (after h ring)))) (until-Upto h ring)
        (rw (append-nil (after h ring)) (after-Above h ring s)) behind
        (λ h' u.
          wrapped-IsWalk ring (until h ring) (after h ring) h' (sym e) s before
            (subst (Upto h') e u))

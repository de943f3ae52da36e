-- ===== src/MasterServer/Placement/Search.antt =====
-- The loop `while (cnt < R)` of `putHandler`, src/master/master_server.cpp, finds the first healthy
-- nodes clockwise, and does not end where there are too few.
use rackkey.Common.{
  ℕ, zero, suc, ◌+◌, ◌≤◌, ◌≡◌, refl, sym, ap, subst, ◌∙◌, arith, List, [], ◌∷◌, ◌++◌, append-nil,
  append_assoc, Bool, true, false, ltb, ltb→lt, All, All-append, All-split, Bool-cases, inl, inr,
  some, if◌then◌else◌, length, length-append, take, take_all, take-append_self,
}
use rackkey.Common.Results.{ok}
use rackkey.HashRing
use rackkey.HashRing.{HashRing, VirtualNode, find_next_node}
use rackkey.OrderedMap
use rackkey.OrderedMap.{OrderedMap}
use rackkey.OrderedMap.Order.{nat_ord}
use rackkey.StorageNode.{StorageNode}
use package.rackkey.MasterServer.{node_of}
use package.rackkey.MasterServer.Putting.{place}
use package.rackkey.MasterServer.Placement.{
  after, until, clockwise, healthy_in, gather, chosen, IsReady,
}
use package.rackkey.MasterServer.Placement.Walk.{IsWalk, clockwise-IsWalk, until-after}

abbrev pub IsKnown : OrderedMap ℕ StorageNode → HashRing → Type 0
IsKnown nodes ring =
    All
      (λ (e : ℕ × VirtualNode).
        (sn : StorageNode) × (OrderedMap.find e.1.physical_node_id nodes ≡ some sn))
      ring

pub gather-extends :
    (nodes : OrderedMap ℕ StorageNode) (path : HashRing) (used : List ℕ)
    → (more : List ℕ) × (gather nodes path used ≡ used ++ more)
gather-extends nodes [] used = ([], sym (append-nil used))
gather-extends nodes ((k, vn) ∷ path) used =
    let id = vn.physical_node_id in
    elim (Bool-cases (chosen nodes used id)) [
      | inl hit ↦
          let (more, e) = gather-extends nodes path (used ++ id ∷ []) in
          (id ∷ more, rw hit (e ∙ append_assoc used (id ∷ []) more))
      | inr miss ↦ let (more, e) = gather-extends nodes path used in (more, rw miss e)
    ]

take-gather :
    (nodes : OrderedMap ℕ StorageNode) (path : HashRing) (used : List ℕ)
    → take (length used) (gather nodes path used) ≡ used
take-gather nodes path used =
    let (more, e) = gather-extends nodes path used in rw e (take-append_self used more)

pub count-chosen :
    (c : Bool) (id : ℕ) (used : List ℕ)
    → (if c then length used + 1 else length used) ≡ length (if c then used ++ id ∷ [] else used)
count-chosen true id used = omega (arith, length-append used (id ∷ []))
count-chosen false id used = refl

count_grows : (c : Bool) (n : ℕ) → (if c then n + 1 else n) ≤ n + 1
count_grows true n = omega arith
count_grows false n = omega arith

pub healthy_in-some :
    (nodes : OrderedMap ℕ StorageNode) (id : ℕ) (sn : StorageNode)
    → OrderedMap.find id nodes ≡ some sn
    → healthy_in nodes id ≡ sn.is_healthy
healthy_in-some nodes id sn f = rw (healthy_in, f) refl

module _ (sha256_32 : List ℕ → ℕ) (ring : HashRing) (nodes : OrderedMap ℕ StorageNode) (r : ℕ) where
  -- With enough nodes the loop has ended, whatever the fuel.
  place-full :
      (fuel h : ℕ) (used : List ℕ) (cnt : ℕ)
      → ltb cnt r ≡ false
      → place sha256_32 fuel ring nodes r h used cnt ≡ some (ok used)
  unfolding place
  place-full zero h used cnt full = rw (place, full) refl
  place-full (suc fuel) h used cnt full = rw (place, full) refl

  pub place-step :
      (fuel h : ℕ) (used : List ℕ) (cnt : ℕ) (vn : VirtualNode) (sn : StorageNode)
      → ltb cnt r ≡ true
      → find_next_node ring h ≡ ok vn
      → OrderedMap.find vn.physical_node_id nodes ≡ some sn
      → place sha256_32 (suc fuel) ring nodes r h used cnt
        ≡ place sha256_32 fuel ring nodes r
            (HashRing.hash sha256_32 vn)
            (if chosen nodes used vn.physical_node_id
              then used ++ vn.physical_node_id ∷ []
              else used)
            (if chosen nodes used vn.physical_node_id then cnt + 1 else cnt)
  unfolding place node_of
  place-step fuel h used cnt vn sn l e f =
      rw (healthy_in-some nodes vn.physical_node_id sn f, place, l, e, node_of, f) refl

  place-walk :
      (path : HashRing) (fuel h : ℕ) (used : List ℕ)
      → IsWalk sha256_32 ring h path
      → IsKnown nodes path
      → length path ≤ fuel
      → length used ≤ r
      → r ≤ length (gather nodes path used)
      → place sha256_32 fuel ring nodes r h used (length used)
        ≡ some (ok (take r (gather nodes path used)))
  place-walk [] fuel h used w k long few enough =
      place-full fuel h used (length used) (ground arith)
      ∙ ap (λ t. some (ok t)) (sym (take_all r used few))
  place-walk ((j, vn) ∷ path) zero h used w k long few enough = absurd (omega arith)
  place-walk ((j, vn) ∷ path) (suc fuel) h used w k long few enough =
      elim (Bool-cases (ltb (length used) r)) [
        | inl l ↦
            let id = vn.physical_node_id in
            let c = chosen nodes used id in
            let more = if c then used ++ id ∷ [] else used in
            place-step fuel h used (length used) vn k.0.0 l w.0 k.0.1
            ∙ ap (λ n. place sha256_32 fuel ring nodes r (HashRing.hash sha256_32 vn) more n)
                (count-chosen c id used)
            ∙ place-walk path fuel (HashRing.hash sha256_32 vn) more w.1 k.1 (omega arith)
                (omega (
                  arith,
                  count-chosen c id used,
                  count_grows c (length used),
                  ltb→lt (length used) r l,
                ))
                enough
        | inr full ↦
            let e : r ≡ length used = ground arith in
            place-full (suc fuel) h used (length used) full
            ∙ ap (λ t. some (ok t)) (sym (rw e (take-gather nodes ((j, vn) ∷ path) used)))
      ]

  -- On a ready ring with `r` healthy nodes or more, as many rounds as the ring has entries are enough:
  -- the loop chooses the first `r` distinct healthy nodes clockwise of the hash, in that order.
  pub place-clockwise :
      (fuel h : ℕ)
      → IsReady sha256_32 ring nodes
      → length ring ≤ fuel
      → r ≤ length (gather nodes (clockwise h ring) [])
      → place sha256_32 fuel ring nodes r h [] 0
        ≡ some (ok (take r (gather nodes (clockwise h ring) [])))
  place-clockwise fuel h ready long enough =
      let e = until-after h ring ready.sorted in
      let (before, behind) =
        All-split _ (until h ring) (after h ring) (subst (IsKnown nodes) (sym e) ready.known) in
      place-walk (clockwise h ring) fuel h []
        (clockwise-IsWalk sha256_32 ring h ready.sorted ready.hashed)
        (All-append _ (after h ring) (until h ring) behind before)
        (omega (
          arith,
          length-append (after h ring) (until h ring),
          length-append (until h ring) (after h ring),
          ap length e,
        ))
        (omega arith) enough

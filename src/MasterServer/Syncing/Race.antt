-- ===== src/MasterServer/Syncing/Race.antt =====
-- What the threads of `syncWithStorageNodes`, src/master/master_server.cpp, can and cannot do to the
-- map of the keys.
use rackkey.Common.{
  ℕ, ◌≡◌, ◌≢◌, refl, ap, ◌∙◌, arith, List, [], ◌∷◌, false, ◌||◌, ◌&&◌, Option-cases, inl, inr, none,
  some, get_elem?, ◌==◌, ==-refl,
}
use rackkey.DiskStorage.Reading.{is_requested}
use rackkey.OrderedMap
use rackkey.OrderedMap.{OrderedMap}
use rackkey.OrderedMap.Laws.{find-insert, same_refl}
use rackkey.OrderedMap.Order.{nat_ord, key_ord}
use package.rackkey.MasterServer.{BlockNodeMap}
use package.rackkey.MasterServer.Putting.{record_block}
use package.rackkey.MasterServer.Putting.Sending.{stores, stores-record_block}
use package.rackkey.MasterServer.Syncing.{assign_nums}
use package.rackkey.MasterServer.Syncing.Interleaving.{
  World, waiting, finished, look_up_new, fill, store, Run, rest, next, new_world,
}

assign_nums-cons :
    (id bn : ℕ) (nums : List ℕ) (m : BlockNodeMap)
    → assign_nums id (bn ∷ nums) m ≡ assign_nums id nums (record_block id bn m)
unfolding assign_nums record_block
assign_nums-cons id bn nums m = elim (Option-cases (OrderedMap.find bn m)) [
  | inl e ↦ rw (assign_nums, record_block, e) refl
  | inr (ids, e) ↦ rw (assign_nums, record_block, e) refl
]

pub stores-assign_nums :
    (id : ℕ) (nums : List ℕ) (m : BlockNodeMap) (i bn : ℕ)
    → stores (assign_nums id nums m) i bn ≡ (id == i && is_requested nums bn || stores m i bn)
unfolding assign_nums is_requested
stores-assign_nums id [] m i bn = ground arith
stores-assign_nums id (n ∷ nums) m i bn =
    ap (λ t. stores t i bn) (assign_nums-cons id n nums m)
    ∙ ground (
      arith,
      stores-assign_nums id nums (record_block id n m) i bn,
      stores-record_block id n m i bn,
    )

nowhere : (key : List ℕ) → OrderedMap.find {V = ℕ} key [] ≡ none
unfolding OrderedMap.find
nowhere key = refl

-- Two rounds for the same new key can both start from a map of their own; the pointer stored last
-- wins, and what the other node sent for the key is lost.
pub lost_update :
    (key : List ℕ) (first second : ℕ) (first_nums second_nums : List ℕ)
    → first ≢ second
    → (last : World) × (m : BlockNodeMap) × Run last
        (record { id = first; key = key; nums = first_nums; phase = finished }
          ∷ record { id = second; key = key; nums = second_nums; phase = finished }
          ∷ [])
        new_world
        (record { id = first; key = key; nums = first_nums; phase = waiting }
          ∷ record { id = second; key = key; nums = second_nums; phase = waiting }
          ∷ [])
      × (OrderedMap.find key last.pointers ≡ some 1)
      × (get_elem? last.heap 1 ≡ some m)
      × ((bn : ℕ) → stores m second bn ≡ is_requested second_nums bn)
      × ((bn : ℕ) → stores m first bn ≡ false)
lost_update key first second first_nums second_nums differ =
    let a = assign_nums first first_nums [] in
    let b = assign_nums second second_nums [] in
    let once : OrderedMap (List ℕ) ℕ = OrderedMap.insert key 0 [] in
    (
      record { heap = a ∷ b ∷ []; pointers = OrderedMap.insert key 1 once },
      b,
      next _ _ 0 _ _ _ refl (look_up_new refl (nowhere key)) (
          next _ _ 1 _ _ _ refl (look_up_new refl (nowhere key)) (
            next _ _ 0 _ _ _ refl (fill 0 [] refl refl) (
              next _ _ 1 _ _ _ refl (fill 1 [] refl refl) (
                next _ _ 0 _ _ _ refl (store 0 refl)
                  (next _ _ 1 _ _ _ refl (store 1 refl) rest))))),
      find-insert key key 1 once ∙ rw (same_refl key) refl,
      refl,
      λ bn. stored second bn ∙ own bn,
      λ bn. stored first bn ∙ other bn,
    )
  where
    nothing : (id bn : ℕ) → stores [] id bn ≡ false
    nothing id bn = unfold OrderedMap.find in refl

    stored :
        (id bn : ℕ)
        → stores (assign_nums second second_nums []) id bn
          ≡ (second == id && is_requested second_nums bn)
    stored id bn = ground (arith, stores-assign_nums second second_nums [] id bn, nothing id bn)

    own : (bn : ℕ) → (second == second && is_requested second_nums bn) ≡ is_requested second_nums bn
    own bn = rw (==-refl second) refl

    other : (bn : ℕ) → (second == first && is_requested second_nums bn) ≡ false
    other bn = let e : (second == first) ≡ false = ground arith in rw e refl

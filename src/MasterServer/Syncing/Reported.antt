-- ===== src/MasterServer/Syncing/Reported.antt =====
-- No interleaving of the threads of `syncWithStorageNodes`, src/master/master_server.cpp, puts
-- anything into the map that no node sent.
use rackkey.Common.{
  ℕ, zero, suc, ◌≡◌, refl, sym, ap, subst, ◌∙◌, arith, List, [], ◌∷◌, true, ◌||◌, ◌&&◌, none, some,
  get_elem?, list_beq, list_beq_refl, ◌==◌, ==-refl, All,
}
use mathlib.Core.Option.{some-injective}
use rackkey.DiskStorage.Reading.{is_requested}
use rackkey.OrderedMap
use rackkey.OrderedMap.{OrderedMap}
use rackkey.OrderedMap.Order.{nat_ord, key_ord}
use package.rackkey.MasterServer.{BlockNodeMap}
use package.rackkey.MasterServer.Putting.Sending.{stores}
use package.rackkey.MasterServer.Syncing.Interleaving.{
  World, Round, waiting, Run, new_world, reports,
}
use package.rackkey.MasterServer.Syncing.Honest.{address_of, IsHonest, Run-IsHonest}

reports_one :
    (rounds : List Round) (i bn : ℕ) (round : Round)
    → get_elem? rounds i ≡ some round
    → is_requested round.nums bn ≡ true
    → reports rounds round.key round.id bn ≡ true
reports_one [] i bn round e h = cc
reports_one (r ∷ rounds) zero bn round e h =
    let f : r ≡ round = some-injective r round e in
    subst
      (λ t.
        (list_beq t.key round.key && t.id == round.id && is_requested t.nums bn
          || reports rounds round.key round.id bn)
        ≡ true)
      (sym f) (rw (list_beq_refl round.key, ==-refl round.id, h) refl)
reports_one (r ∷ rounds) (suc i) bn round e h =
    rw (reports_one rounds i bn round e h) (ground arith)

-- In any order of the steps of any rounds, from an empty map on: where the map of a key says that a
-- node stores a block, some round of that node for that key has the block's number.
pub sync_reported :
    (rounds ends : List Round) (last : World) (key : List ℕ) (a : ℕ) (m : BlockNodeMap) (id bn : ℕ)
    → All (λ (r : Round). r.phase ≡ waiting) rounds
    → Run last ends new_world rounds
    → OrderedMap.find key last.pointers ≡ some a
    → get_elem? last.heap a ≡ some m
    → stores m id bn ≡ true
    → reports rounds key id bn ≡ true
sync_reported rounds ends last key a m id bn still run f g h =
    let honest : IsHonest (reports rounds) last ends =
      Run-IsHonest (reports rounds) last ends new_world rounds run (record {
        owners = [];
        sized = refl;
        pointed = λ key a e. absurd (unfold OrderedMap.find in cc);
        worked = λ i a r e p. absurd (idle rounds i a r still e p);
        told = λ i bn r e q. reports_one rounds i bn r e q;
        held = λ a key m id bn e f g. cc;
      }) in
    honest.held a key m id bn g (honest.pointed key a f) h
  where
    idle :
        (rounds : List Round) (i a : ℕ) (r : Round)
        → All (λ (r : Round). r.phase ≡ waiting) rounds
        → get_elem? rounds i ≡ some r
        → address_of r.phase ≡ some a
        → ⊥
    idle [] i a r still e p = cc
    idle (x ∷ rounds) zero a r still e p =
        let f : none ≡ some a =
          sym (ap address_of still.0)
          ∙ ap (λ (t : Round). address_of t.phase) (some-injective x r e)
          ∙ p in
        cc
    idle (x ∷ rounds) (suc i) a r still e p = idle rounds i a r still.1 e p

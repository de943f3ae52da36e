-- ===== src/MasterServer/Syncing/Interleaving.antt =====
-- The loop over a node's keys in `syncWithStorageNode`, src/master/master_server.cpp, as the threads of
-- several nodes run it: a round looks the key's map up under the lock, fills it without the lock,
-- and stores its pointer under the lock again.
use rackkey.Common.{
  ℕ, ◌≡◌, List, [], ◌∷◌, ◌++◌, Bool, false, ◌||◌, ◌&&◌, none, some, get_elem?, set, length,
  list_beq, ◌==◌,
}
use rackkey.DiskStorage.Reading.{is_requested}
use rackkey.OrderedMap
use rackkey.OrderedMap.{OrderedMap}
use rackkey.OrderedMap.Order.{nat_ord, key_ord}
use package.rackkey.MasterServer.{BlockNodeMap}
use package.rackkey.MasterServer.Syncing.{assign_nums}

-- The maps that pointers lead to, by address, and the pointers of the keys.
pub record World : Type 0 where
  pub heap : List BlockNodeMap
  pub pointers : OrderedMap (List ℕ) ℕ

pub data Phase : Type 0 where
  waiting : Phase
  holding : ℕ → Phase
  filled : ℕ → Phase
  finished : Phase

-- A round for one key and the numbers that the node sent for it.
pub record Round : Type 0 where
  pub id : ℕ
  pub key : List ℕ
  pub nums : List ℕ
  pub phase : Phase

abbrev pub at_phase : Round → Phase → Round
at_phase round phase = record round { phase = phase }

pub data Step (w : World) (round : Round) : World → Round → Type 0 where
  -- The key is not there: the round keeps its new map.
  look_up_new :
      round.phase ≡ waiting
      → OrderedMap.find round.key w.pointers ≡ none
      → Step w round
          (record w { heap = w.heap ++ [] ∷ [] })
          (at_phase round (holding (length w.heap)))
  look_up_old :
      (address : ℕ)
      → round.phase ≡ waiting
      → OrderedMap.find round.key w.pointers ≡ some address
      → Step w round w (at_phase round (holding address))
  fill :
      (address : ℕ) (m : BlockNodeMap)
      → round.phase ≡ holding address
      → get_elem? w.heap address ≡ some m
      → Step w round
          (record w { heap = set w.heap address (assign_nums round.id round.nums m) })
          (at_phase round (filled address))
  store :
      (address : ℕ)
      → round.phase ≡ filled address
      → Step w round
          (record w { pointers = OrderedMap.insert round.key address w.pointers })
          (at_phase round finished)

-- The rounds of all threads, in any order of their steps.
pub data Run (last : World) (ends : List Round) : World → List Round → Type 0 where
  rest : Run last ends last ends
  next :
      (w : World) (rounds : List Round) (i : ℕ) (round after : Round) (middle : World)
      → get_elem? rounds i ≡ some round
      → Step w round middle after
      → Run last ends middle (set rounds i after)
      → Run last ends w rounds

abbrev pub new_world : World
new_world = record { heap = []; pointers = [] }

-- A round of the node for the key has the number.
abbrev pub reports : List Round → List ℕ → ℕ → ℕ → Bool
reports [] key id bn = false
reports (round ∷ rounds) key id bn =
    list_beq round.key key && round.id == id && is_requested round.nums bn
    || reports rounds key id bn

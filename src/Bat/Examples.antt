-- ===== src/Bat/Examples.antt =====
-- The search in a table of two rows.
use rackkey.Common.{◌≡◌, refl, arith, zero, suc, [], ◌∷◌, some, replicate}
use package.rackkey.Bat.{BatEntry, Bat, find_bat_entry}
use package.rackkey.Bat.Laws.{DistinctHashes, find_bat_entry_unique}

abbrev first : BatEntry
first = record {
  key = replicate 50 b'a';
  key_hash = 17;
  starting_disk_block_num = 0;
  num_bytes = 9;
}

abbrev second : BatEntry
second = record {
  key = replicate 50 b'b';
  key_hash = 4;
  starting_disk_block_num = 1;
  num_bytes = 7;
}

abbrev two_rows : Bat
two_rows = record { num_entries = 2; table = first ∷ second ∷ [] }

two_rows-DistinctHashes : DistinctHashes two_rows.table
two_rows-DistinctHashes zero zero e e' h h' s = refl
two_rows-DistinctHashes zero (suc zero) e e' h h' s = absurd (ground (arith, h, h', s))
two_rows-DistinctHashes (suc zero) zero e e' h h' s = absurd (ground (arith, h, h', s))
two_rows-DistinctHashes (suc zero) (suc zero) e e' h h' s = refl
two_rows-DistinctHashes (suc (suc i)) j e e' h h' s = absurd (ground (arith, h))
two_rows-DistinctHashes i (suc (suc j)) e e' h h' s = absurd (ground (arith, h'))

find_bat_entry_unique_example : find_bat_entry two_rows 4 ≡ some (1, second)
find_bat_entry_unique_example =
    find_bat_entry_unique two_rows 4 1 second two_rows-DistinctHashes refl refl

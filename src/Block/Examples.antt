-- ===== src/Block/Examples.antt =====
-- The round trip of two blocks.
use rackkey.Common.{◌≡◌, ◌↔◌, refl, arith, [], ◌∷◌, All, true}
use rackkey.Common.Results.{ok}
use package.rackkey.Block.{Block, serialize_all, deserialize, equals}
use package.rackkey.Block.RoundTrip.{IsValid, deserialize-serialize_all, equals_iff}

abbrev first : Block
first = record { key = b'k' ∷ []; block_num = 0; data_size = 2; bytes = 10 ∷ 20 ∷ [] }

abbrev second : Block
second = record { key = b'k' ∷ []; block_num = 3; data_size = 1; bytes = 30 ∷ [] }

valid : All IsValid (first ∷ second ∷ [])
valid = (
  record { key_fits = omega arith; num_fits = omega arith; size_fits = omega arith; sized = refl },
  (
    record {
      key_fits = omega arith;
      num_fits = omega arith;
      size_fits = omega arith;
      sized = refl;
    },
    tt,
  ),
)

deserialize-serialize_all_example :
    deserialize (serialize_all (first ∷ second ∷ []) []) ≡ ok (first ∷ second ∷ [])
deserialize-serialize_all_example = deserialize-serialize_all (first ∷ second ∷ []) valid

equals_iff_example : (equals first second ≡ true) ↔ (first ≡ second)
equals_iff_example = equals_iff first second

-- ===== src/Payloads/Examples.antt =====
-- The round trips of small payloads.
use rackkey.Common.{◌≡◌, refl, arith, [], ◌∷◌, replicate}
use rackkey.Common.Results.{ok}
use package.rackkey.Payloads.{
  BlockNumList, SizeInfo, SyncInfo, serialize_nums, deserialize_nums, serialize_sync,
  deserialize_sync,
}
use package.rackkey.Payloads.Numbers.{deserialize_nums-serialize_nums}
use package.rackkey.Payloads.Sync.{deserialize_sync-serialize_sync}

abbrev nums : BlockNumList
nums = record { block_nums = 4 ∷ 70000 ∷ [] }

deserialize_nums-serialize_nums_example : deserialize_nums (serialize_nums nums []) ≡ ok nums
deserialize_nums-serialize_nums_example =
    deserialize_nums-serialize_nums nums (omega arith, (omega arith, tt))

abbrev sizes : SizeInfo
sizes = record { data_used_size = 100; data_total_size = 500 }

abbrev info : SyncInfo
info = record { key_block_num_map = (replicate 50 b'a', 1 ∷ 2 ∷ []) ∷ []; size_info = sizes }

deserialize_sync-serialize_sync_example : deserialize_sync (serialize_sync info []) ≡ ok info
deserialize_sync-serialize_sync_example =
    deserialize_sync-serialize_sync info tt
      (
        record { key_length = refl; count = omega arith; nums = (omega arith, (omega arith, tt)) },
        tt,
      )
      (omega arith) (omega arith)

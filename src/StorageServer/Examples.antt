-- ===== src/StorageServer/Examples.antt =====
-- A put and a get at an empty disk of eight blocks, and a delete of a key that it does not have.
-- The hash of a key is here its length.
use rackkey.Common.{
  ℕ, ◌≡◌, refl, arith, List, [], ◌∷◌, All, some, none, inl, inr, false, ◌==◌, if◌then◌else◌, length,
}
use rackkey.Common.Results.{ok}
use rackkey.Utils.{ceil_div}
use rackkey.ByteBuffer.{u32_bytes}
use rackkey.Block.{Block, serialize_all, deserialize}
use rackkey.Block.RoundTrip.{IsValid}
use rackkey.FreeSpace
use rackkey.Payloads.{put_nums}
use rackkey.StoreFile.{blank, healthy}
use rackkey.Bat.{find_bat_entry}
use rackkey.DiskStorage.{DiskStorage, table_bytes, get_num_disk_blocks}
use rackkey.DiskStorage.Selection.{IsOneOf, Selects, take_block, leave_block, done}
use rackkey.DiskStorage.Updating.{free_existing}
use rackkey.DiskStorage.Consistent.{IsConsistent, contents}
use rackkey.DiskStorage.Steps.{IsWritable}
use rackkey.DiskStorage.Writing.{freed_map, section_blocks}
use package.rackkey.StorageServer.{
  Config, size_reply, answered, status_ok, get_handler, put_handler, delete_handler,
}
use package.rackkey.StorageServer.Requests.{get_handler-put_handler}
use package.rackkey.StorageServer.Removal.{delete_outcome, delete_handler_all}

abbrev config : Config
config = record { data_block_size = 3; key_length_max = 50 }

abbrev disk : DiskStorage
disk = record {
  header = record {
    magic_number = 0;
    bat_offset = 24;
    bat_size = 376;
    disk_block_size = 4;
    max_data_size = 32;
    block_store_offset = 400;
  };
  bat = record { num_entries = 0; table = [] };
  free_space_map = record { block_capacity = 8; bit_map = 0 ∷ [] };
  key_length_max = 50;
  file = blank 432;
  stream_stuck = false;
}

disk-IsConsistent : IsConsistent disk
disk-IsConsistent = record {
  small = omega arith;
  block_size = omega arith;
  addresses = omega arith;
  counted = refl;
  distinct = λ i j e e' at at' _. absurd (ground (arith, at));
  held = λ i e at. absurd (ground (arith, at));
  apart = λ i j e e' differ at at'. absurd (ground (arith, at));
}

abbrev some_key : List ℕ
some_key = b'a' ∷ b'b' ∷ []

abbrev last_block : Block
last_block = record { key = some_key; block_num = 2; data_size = 1; bytes = 5 ∷ [] }

abbrev blocks : List Block
blocks =
    record { key = some_key; block_num = 0; data_size = 3; bytes = 7 ∷ 8 ∷ 9 ∷ [] }
    ∷ last_block
    ∷ []

blocks-IsValid : All IsValid blocks
blocks-IsValid = (
  record { key_fits = omega arith; num_fits = omega arith; size_fits = omega arith; sized = refl },
  (
    record {
      key_fits = omega arith;
      num_fits = omega arith;
      size_fits = omega arith;
      sized = refl;
    },
    tt,
  ),
)

blocks-IsWritable : IsWritable disk some_key 3 blocks
unfolding table_bytes u32_bytes
blocks-IsWritable = record {
  usable = refl;
  some_block = omega arith;
  storable = (
    record { of_key = refl; sized = refl; num_fits = omega arith },
    refl,
    (record { of_key = refl; sized = refl; num_fits = omega arith }, omega arith),
  );
  countable = omega arith;
  table_room = omega arith;
}

section_found :
    FreeSpace.find_n_free_blocks
      (freed_map length disk some_key 3 blocks)
      (section_blocks length disk some_key 3 blocks)
    ≡ some 0
unfolding free_existing find_bat_entry FreeSpace.find_n_free_blocks FreeSpace.scan_entries
    FreeSpace.scan_bits get_num_disk_blocks ceil_div u32_bytes
section_found = refl

unasked : ¬ IsOneOf 0 (2 ∷ [])
unasked (inl e) = absurd (omega (arith, e))
unasked (inr e) = e

-- The second block is the one asked for.
two_selected : Selects (2 ∷ []) blocks (last_block ∷ [])
two_selected = leave_block unasked (take_block (inl refl) done)

get_handler-put_handler_example :
    (after : DiskStorage) × (body : List ℕ) × (put_handler length config some_key
        (serialize_all blocks [])
        healthy
        healthy
        disk
      ≡ (ok (answered (size_reply after)), after))
    × (get_handler length config some_key (put_nums (2 ∷ []) []) healthy after
        ≡ (ok (answered (record { status = status_ok; body = body })), after))
    × (deserialize body ≡ ok (last_block ∷ []))
    × IsConsistent after
get_handler-put_handler_example =
    get_handler-put_handler length config disk some_key blocks blocks-IsValid disk-IsConsistent
      blocks-IsWritable 0 section_found (2 ∷ []) (omega arith, tt) ((λ h. h), tt) (last_block ∷ [])
      two_selected refl

delete_handler_all_example :
    (after : DiskStorage) × (delete_handler length config some_key disk
      ≡ (ok (delete_outcome (find_bat_entry disk.bat (length some_key)) after), after))
    × IsConsistent after
    × ((h : ℕ) → contents after h ≡ (if length some_key == h then none else contents disk h))
delete_handler_all_example =
    delete_handler_all length config disk some_key disk-IsConsistent (omega arith)

-- ===== src/Common/Results.antt =====
-- The outcome of code that may throw. `fault` stands for what C++ leaves undefined (an index or
-- an iterator out of range) and for a failed `assert`; no handler catches it.
use mathlib.Core.Bool.{Bool, true, false}

-- One constructor for each message of a `std::runtime_error`.
pub data Error : Type 0 where
  block_not_mapped no_bat_entry no_data_blocks no_contiguous_section bad_copy : Error
  bad_read bad_write open_failed wrong_block_count no_store_file capacity_mismatch failed_status
        no_healthy_node :
      Error

pub data Result {ℓ} (A : Type ℓ) : Type ℓ where
  ok : A → Result A
  throw : Error → Result A
  fault : Result A

infixl 5 ◌>>=◌
abbrev pub ◌>>=◌ {ℓ κ} : {A : Type ℓ} {B : Type κ} → Result A → (A → Result B) → Result B
ok a >>= f = f a
throw e >>= f = throw e
fault >>= f = fault

-- `assert` and the range check of an access.
abbrev pub require {ℓ} : {A : Type ℓ} → Bool → Result A → Result A
require true r = r
require false r = fault

-- ===== src/BlockSelect.antt =====
-- libraries/eosiolib/wasmql/eosio/block_select.hpp: the block that a selection names. An `int32_t` is
-- its two's complement; a sum of two that overflows, undefined in the source, is the processor's.
mod Tests
use history_tools.Common.{ℕ, ◌+◌, ◌-◌, ◌^◌, ◌%◌, ◌<◌, ◌≤◌, ◌≡◌, Bool, leb, if◌then◌else◌, arith}

pub data BlockSelect : Type 0 where
  absolute head irreversible : ℕ → BlockSelect

-- The fields of `database_status` that are read.
pub record DatabaseStatus : Type 0 where
  pub head_num : ℕ
  pub irreversible_num : ℕ

-- `std::max((int32_t)0, value)`
unfoldable pub at_least_zero : ℕ → ℕ
at_least_zero value = if leb (2 ^ 31) value then 0 else value

unfoldable pub get_block_num : BlockSelect → DatabaseStatus → ℕ
unfolding at_least_zero
get_block_num (absolute i) status = at_least_zero i
get_block_num (head i) status = at_least_zero ((status.head_num + i) % 2 ^ 32)
get_block_num (irreversible i) status = at_least_zero ((status.irreversible_num + i) % 2 ^ 32)

-- A negative offset of an `int32_t` from the head, if the head fits one, names the block so many
-- before the head, and block zero where there are not so many.
pub get_block_num-behind :
    (status : DatabaseStatus) (k : ℕ)
    → status.head_num < 2 ^ 31
    → 0 < k
    → k ≤ 2 ^ 31
    → get_block_num (head (2 ^ 32 - k)) status ≡ status.head_num - k
unfolding get_block_num at_least_zero
get_block_num-behind status k h pos small = ground arith

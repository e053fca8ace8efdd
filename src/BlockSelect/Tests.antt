-- ===== src/BlockSelect/Tests.antt =====
-- Tests and the witness for the selection of a block.
use history_tools.Common.{◌-◌, ◌^◌, ◌≡◌, refl, arith}
use history_tools.BlockSelect.{
  absolute, head, DatabaseStatus, get_block_num, get_block_num-behind, at_least_zero,
}

abbrev status : DatabaseStatus
status = record { head_num = 100; irreversible_num = 90 }

negative_block : get_block_num (absolute (2 ^ 32 - 1)) status ≡ 0
unfolding get_block_num at_least_zero
negative_block = refl

get_block_num-behind_example : get_block_num (head (2 ^ 32 - 10)) status ≡ 90
get_block_num-behind_example =
    get_block_num-behind status 10 (omega arith) (omega arith) (omega arith)

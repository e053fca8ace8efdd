-- ===== src/Connection/Start.antt =====
-- The block that the connection asks to start with.
use history_tools.Common.{ℕ, ◌<◌, ◌≤◌, ◌⊎◌, Bool, List, Bytes, arith}
use history_tools.Connection.State.{Status, request_blocks, make_request, nodeos_start, no_block}

-- That nodeos has a block, in its traces or in its chain state.
abbrev pub Has : Status → ℕ → Type 0
Has s n =
    ((s.trace_begin_block ≤ n) × (n < s.trace_end_block))
    ⊎ ((s.chain_state_begin_block ≤ n) × (n < s.chain_state_end_block))

-- No block that is wanted and that nodeos has is left out: every such block below the greatest
-- `uint32_t`, from the wanted start on, is at or behind the start that is asked for, and that start
-- is not before the wanted one.
pub request_blocks-start :
    (v1 : Bool) (status : Status) (start n : ℕ) (positions : List (ℕ × Bytes))
    → start ≤ n
    → n < no_block
    → Has status n
    → let request = request_blocks v1 status start positions in
      (start ≤ request.start_block_num) × (request.start_block_num ≤ n)
unfolding request_blocks make_request nodeos_start
request_blocks-start v1 status start n positions wanted small has = (ground arith, ground arith)

-- ===== src/History.antt =====
-- src/state_history.hpp: the fill status, the check of a variant's index, and the filters that
-- choose the transaction traces to store.
pub mod Filter
pub mod Variant
mod Tests
use history_tools.Common.{ℕ, Bool, true, false, List, Option, ◌&&◌, ◌==◌}

-- A `checksum256` is the number that its 256 bits spell; 0 is the value-initialised one.
pub record FillStatus : Type 0 where
  pub head : ℕ
  pub head_id : ℕ
  pub irreversible : ℕ
  pub irreversible_id : ℕ
  pub first : ℕ

-- `operator==` on `fill_status`: the ties agree.
unfoldable pub fill_status_eq : FillStatus → FillStatus → Bool
fill_status_eq a b =
    (a.head == b.head)
    && (a.head_id == b.head_id)
    && (a.irreversible == b.irreversible)
    && (a.irreversible_id == b.irreversible_id)
    && (a.first == b.first)

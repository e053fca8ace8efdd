-- ===== src/FillPg/State.antt =====
-- The state of `fpg_session` and what a block of the state history plugin brings.
use history_tools.Common.{ℕ, Bool, List, Option, Bytes}
use history_tools.History.Filter.{TrxFilter, ActionTrace}
use history_tools.SqlConverter.Types.{AbiType, Converter}
use history_tools.SqlConverter.Value.{Library}

-- `fill_postgresql_config`, less the address of the server; the schema is the converter's.
pub record Config : Type 0 where
  pub skip_to : ℕ
  pub stop_before : ℕ
  pub trx_filters : List TrxFilter
  pub enable_trim : Bool

-- An entry of `connection->abi.tables`.
pub record AbiTable : Type 0 where
  pub type : Bytes
  pub key_names : List Bytes

-- A member of `table_streams`: the table, and the lines that wait for the writer's completion.
abbrev pub Stream : Type 0
Stream = Bytes × List Bytes

pub record Session : Type 0 where
  pub config : Config
  pub converter : Converter
  pub abi_types : Bytes → Option AbiType
  pub tables : List AbiTable
  pub created_trim : Bool
  pub head : ℕ
  pub head_id : Bytes
  pub irreversible : ℕ
  pub irreversible_id : Bytes
  pub first : ℕ
  pub first_bulk : ℕ
  pub table_streams : List Stream

-- Code that is not of this repository: the conversions of abieos and pqxx that the converter
-- calls, `boost::algorithm::join`, and abieos's text of a `checksum256`.
pub record Services : Type 0 where
  pub library : Library
  pub join : List Bytes → Bytes → Bytes
  pub checksum_text : ℕ → Bytes

-- `block_position`
pub record BlockPosition : Type 0 where
  pub block_num : ℕ
  pub block_id : ℕ

-- A row of a `table_delta`: its `present` field and its data.
pub record DeltaRow : Type 0 where
  pub present : ℕ
  pub bin : Bytes

pub record TableDelta : Type 0 where
  pub name : Bytes
  pub rows : List DeltaRow

-- A `transaction_trace`: its status, its action traces and its bytes, and the trace of the failed
-- deferred transaction if there is one.
pub data Trace : Type 0 where
  plain : ℕ → List ActionTrace → Bytes → Trace
  with_failed : ℕ → List ActionTrace → Bytes → Trace → Trace

-- A `get_blocks_result`. The three versions of it differ in how the header's bytes are had; an
-- absent or empty part is `none` or an empty list. `deltas_size` is `num_bytes(result.deltas)`.
pub record BlocksResult : Type 0 where
  pub this_block : Option BlockPosition
  pub prev_block : Option BlockPosition
  pub last_irreversible : BlockPosition
  pub block_header : Option Bytes
  pub deltas : List TableDelta
  pub deltas_size : ℕ
  pub traces : List Trace

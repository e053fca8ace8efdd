-- ===== src/FillRocks/State.antt =====
-- The state of `flm_session` of src/fill_rocksdb_plugin.cpp, and the values that it reads and
-- writes. A `checksum256`, a name and a `block_timestamp` are numbers, a signed number is the
-- unsigned one of the same bits, and a `producer_schedule`, which is only passed on, is its bytes.
use history_tools.Common.{ℕ, Bool, ◌++◌, List, Bytes, Option, Result, length}
use history_tools.Kv.Types.{KvType, Abieos}
use history_tools.Kv.Positions.{Field, Table}
use history_tools.History.{FillStatus}
use history_tools.History.Filter.{TrxFilter}
use history_tools.SqlConverter.Types.{AbiType}
use history_tools.Rdb.Database.{WriteBatch, Rocksdb}

-- The parts of `kv::index` and of `kv::table` that are read.
pub record Index : Type 0 where
  pub short_name : ℕ
  pub sort_keys : List Field

pub record KvTable : Type 0 where
  pub table : Table
  pub indexes : List Index
  pub trim_index_obj : Option Index
  pub is_delta : Bool

-- `rocksdb_field`, with its name and the type of its ABI field. One of `type`, `array_of` and
-- `optional_of` is set; of the table below the latter two only the fields are read.
mutual
  pub data RocksField : Type 0 where
    plain : Bytes → AbiType → KvType → RocksField
    array_of : Bytes → AbiType → RocksFields → RocksField
    optional_of : Bytes → AbiType → RocksFields → RocksField

  pub data RocksFields : Type 0 where
    no_fields : RocksFields
    field : RocksField → RocksFields → RocksFields

-- `rocksdb_table`, less its name, by which `tables` holds it.
pub record RocksTable : Type 0 where
  pub kv_table : KvTable
  pub abi_type : AbiType
  pub fields : RocksFields

pub record Config : Type 0 where
  pub skip_to : ℕ
  pub stop_before : ℕ
  pub trx_filters : List TrxFilter
  pub enable_trim : Bool
  pub enable_check : Bool

-- The maps of the query configuration: of tables, by name and by short name, and of indexes with
-- their tables; and its tables.
pub record QueryConfig : Type 0 where
  pub table_map : Bytes → Option KvTable
  pub table_name_map : ℕ → Option KvTable
  pub index_name_map : ℕ → Option (Index × KvTable)
  pub tables : List KvTable

pub record Session : Type 0 where
  pub config : Config
  pub query_config : QueryConfig
  pub abi_types : Bytes → Option AbiType
  pub active_content_batch : WriteBatch
  pub active_index_batch : WriteBatch
  pub tables : List (Bytes × RocksTable)
  pub current_db_status : Option FillStatus
  pub head : ℕ
  pub head_id : ℕ
  pub irreversible : ℕ
  pub irreversible_id : ℕ
  pub first : ℕ

-- The session and the database that it writes to.
pub record World (r : Rocksdb) : Type 0 where
  pub session : Session
  pub db : r.Db

pub record BlockPosition : Type 0 where
  pub block_num : ℕ
  pub block_id : ℕ

-- `get_blocks_result_v0`
pub record BlocksResult : Type 0 where
  pub last_irreversible : BlockPosition
  pub this_block : Option BlockPosition
  pub prev_block : Option BlockPosition
  pub block : Option Bytes
  pub traces : Option Bytes
  pub deltas : Option Bytes

-- The fields of `signed_block` that are stored.
pub record SignedBlock : Type 0 where
  pub timestamp : ℕ
  pub producer : ℕ
  pub confirmed : ℕ
  pub previous : ℕ
  pub transaction_mroot : ℕ
  pub action_mroot : ℕ
  pub schedule_version : ℕ
  pub new_producers : Option Bytes

pub record DeltaRow : Type 0 where
  pub present : Bool
  pub bin : Bytes

pub record TableDelta : Type 0 where
  pub name : Bytes
  pub rows : List DeltaRow

pub record Receipt : Type 0 where
  pub receiver : ℕ
  pub act_digest : ℕ
  pub global_sequence : ℕ
  pub recv_sequence : ℕ
  pub code_sequence : ℕ
  pub abi_sequence : ℕ

-- `action_trace_v0`
pub record ActionTraceV0 : Type 0 where
  pub action_ordinal : ℕ
  pub creator_action_ordinal : ℕ
  pub receipt : Option Receipt
  pub receiver : ℕ
  pub act_account : ℕ
  pub act_name : ℕ
  pub act_bin : Bytes
  pub context_free : Bool
  pub elapsed : ℕ
  pub console : Bytes
  pub except : Option Bytes
  pub error_code : Option ℕ

-- `transaction_trace_v0`, and the trace of the failed deferred transaction if there is one.
pub record TransactionTrace : Type 0 where
  pub id : ℕ
  pub status : ℕ
  pub action_traces : List ActionTraceV0

pub data Trace : Type 0 where
  plain : TransactionTrace → Trace
  with_failed : TransactionTrace → Trace → Trace

-- Code of abieos: what it writes and reads of the values above.
pub record Serial : Type 0 where
  pub abieos : Abieos
  pub varuint32_to_bin : ℕ → Bytes
  pub fill_status_to_bin : FillStatus → Bytes
  pub bin_to_fill_status : Bytes → Result FillStatus
  pub received_block_to_bin : BlockPosition → Bytes
  pub bin_to_received_block : Bytes → Result BlockPosition
  pub bin_to_signed_block : Bytes → Result (SignedBlock × Bytes)
  pub empty_schedule : Bytes
  pub bin_to_table_delta : Bytes → Result (TableDelta × Bytes)
  pub bin_to_trace : Bytes → Result (Trace × Bytes)

-- `native_to_bin` of a string or of bytes.
abbrev pub string_to_bin : Serial → Bytes → Bytes
string_to_bin n s = n.varuint32_to_bin (length s) ++ s

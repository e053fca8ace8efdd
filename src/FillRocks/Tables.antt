-- ===== src/FillRocks/Tables.antt =====
-- `add_table` and `init_tables` of src/fill_rocksdb_plugin.cpp. The ABI's JSON is read by abieos:
-- what is left of it is the name and the type of each table.
use history_tools.Common.{
  Bool, true, false, ◌&&◌, not, List, [], ◌∷◌, ◌++◌, if◌then◌else◌, Bytes, codes, Option, none,
  some, Result, ok, err, ◌>>=◌, ◌>>◌, throw_if, or_throw,
}
use history_tools.SqlConverter.Types.{AbiType, Fields}
use history_tools.FillRocks.State.{KvTable, RocksFields, RocksTable, QueryConfig, Session}
use history_tools.FillRocks.Fields.{fill_fields, fill_all_fields}
use history_tools.FillRocks.Blocks.{find_table}

abbrev pub Tables : Type 0
Tables = List (Bytes × RocksTable)

unfoldable pub get_kv_table_by_name : QueryConfig → Bytes → Result KvTable
get_kv_table_by_name c name = or_throw (c.table_map name) "missing in query-config"

-- The fields of a variant's one struct.
unfoldable pub struct_of_variant : AbiType → Result Fields
struct_of_variant (AbiType.variant n (Fields.field f (AbiType.struct_ m gs) Fields.no_fields)) =
    ok gs
struct_of_variant t = err "don't know how to process"

unfoldable pub is_known : Bytes → Tables → Bool
unfolding find_table
is_known name tables = elim (find_table name tables) [ none ↦ false | some t ↦ true ]

module _ (c : QueryConfig) (abi_types : Bytes → Option AbiType) where
  abbrev type_of : Bytes → Result AbiType
  type_of name = or_throw (abi_types name) "abi: unknown type"

  unfoldable pub add_table : Bytes → Bytes → Tables → Result Tables
  unfolding struct_of_variant is_known get_kv_table_by_name
  add_table table_name table_type tables = do
    throw_if (is_known table_name tables) "duplicate table"
    kv_table ← get_kv_table_by_name c table_name
    abi_type ← type_of table_type
    fs ← struct_of_variant abi_type
    fields ← fill_all_fields [] fs RocksFields.no_fields
    ok (
        tables
        ++ (table_name, record { kv_table = kv_table; abi_type = abi_type; fields = fields }) ∷ [])

  unfoldable pub add_tables : List (Bytes × Bytes) → Tables → Result Tables
  unfolding add_table
  add_tables [] tables = ok tables
  add_tables ((name, type) ∷ entries) tables = add_table name type tables >>= add_tables entries

  -- The calls of `fill_fields` for a table whose fields are given by name and type.
  unfoldable pub fill_named : List (Bytes × Bytes) → RocksFields → Result RocksFields
  fill_named [] fields = ok fields
  fill_named ((name, type) ∷ entries) fields = do
    t ← type_of type
    fields' ← fill_fields [] name t fields
    fill_named entries fields'

  -- A table that the ABI does not have. Its `abi_type` is not set.
  unfoldable pub add_own_table : Bytes → List (Bytes × Bytes) → Tables → Result Tables
  unfolding is_known get_kv_table_by_name fill_named
  add_own_table name entries tables = do
    throw_if (is_known name tables) "duplicate field"
    kv_table ← get_kv_table_by_name c name
    fields ← fill_named entries RocksFields.no_fields
    ok (
        tables
        ++ (name, record { kv_table = kv_table; abi_type = AbiType.builtin []; fields = fields })
          ∷ [])

abbrev pub block_info_fields : List (Bytes × Bytes)
block_info_fields =
    (codes "block_num", codes "uint32")
    ∷ (codes "block_id", codes "checksum256")
    ∷ (codes "timestamp", codes "block_timestamp_type")
    ∷ (codes "producer", codes "name")
    ∷ (codes "confirmed", codes "uint16")
    ∷ (codes "previous", codes "checksum256")
    ∷ (codes "transaction_mroot", codes "checksum256")
    ∷ (codes "action_mroot", codes "checksum256")
    ∷ (codes "schedule_version", codes "uint32")
    ∷ []

abbrev pub action_trace_fields : List (Bytes × Bytes)
action_trace_fields =
    (codes "block_num", codes "uint32")
    ∷ (codes "transaction_id", codes "checksum256")
    ∷ (codes "transaction_status", codes "uint8")
    ∷ (codes "action_ordinal", codes "varuint32")
    ∷ (codes "creator_action_ordinal", codes "varuint32")
    ∷ (codes "receiver", codes "name")
    ∷ (codes "act_account", codes "name")
    ∷ (codes "act_name", codes "name")
    ∷ (codes "act_data", codes "bytes")
    ∷ (codes "context_free", codes "bool")
    ∷ (codes "elapsed", codes "int64")
    ∷ (codes "console", codes "string")
    ∷ (codes "except", codes "string")
    ∷ (codes "error_code", codes "uint64")
    ∷ []

unfoldable pub has_trim_index : KvTable → Bool
has_trim_index t = elim t.trim_index_obj [ none ↦ false | some i ↦ true ]

unfoldable pub check_trim_indexes : List KvTable → Result (Unit {0})
unfolding has_trim_index
check_trim_indexes [] = ok tt
check_trim_indexes (t ∷ tables) = do
  throw_if (t.is_delta && not (has_trim_index t)) "delta table is missing a trim index"
  throw_if (not t.is_delta && has_trim_index t) "non-delta table has a trim index"
  check_trim_indexes tables

-- The source's `tables["block_info"]` is the ABI's table of that name where there is one, and the
-- fields that it shares are duplicates; here such a table is an error.
unfoldable pub init_tables : List (Bytes × Bytes) → Session → Result Tables
unfolding add_tables add_own_table check_trim_indexes
init_tables entries s = do
  tables ← add_tables s.query_config s.abi_types entries s.tables
  tables' ← add_own_table s.query_config s.abi_types (codes "block_info") block_info_fields tables
  tables'' ←
      add_own_table s.query_config s.abi_types (codes "action_trace") action_trace_fields tables'
  (if s.config.enable_trim then check_trim_indexes s.query_config.tables else ok tt)
  ok tables''

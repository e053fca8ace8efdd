-- ===== src/QueryConfig/Prepare.antt =====
-- `prepare` of src/query_config.hpp, and of `kv::defs::config` in src/state_history_kv.hpp, which then
-- numbers the fields of each table: here they are numbered where they are made. A map that is filled in a loop holds the last value of a key.
use history_tools.Common.{
  ℕ, ◌+◌, Bool, true, false, ◌||◌, ◌++◌, List, [], ◌∷◌, map, if◌then◌else◌, Bytes, Option, none,
  some, Result, ok, ◌>>=◌, ◌>>◌, or_throw, throw_if, check, ◌==◌, is_empty,
}
use history_tools.SqlConverter.Types.{bytes_eq}
use history_tools.Kv.Types.{KvType}
use history_tools.QueryConfig.Types.{
  FieldDef, KeyDef, TableDef, IndexDef, QueryDef, FieldObj, TableObj, IndexObj, JoinObj,
  PreparedConfig,
}

-- The last element that passes a test.
unfoldable pub find_last : {A : Type 0} → (A → Bool) → List A → Option A
find_last p [] = none
find_last p (x ∷ xs) = elim (find_last p xs) [
  | some y ↦ some y
  | none ↦ if p x then some x else none
]

abbrev pub is_table : Bytes → TableObj → Bool
is_table name t = bytes_eq t.name name

-- `table_map.find(name)`
unfoldable pub find_table_obj : Bytes → List TableObj → Option TableObj
unfolding find_last
find_table_obj name tables = find_last (is_table name) tables

-- `index_map.find(name)`; two indexes have not the same name.
unfoldable pub find_index_obj : Bytes → List IndexObj → Option IndexObj
unfolding find_last
find_index_obj name indexes = find_last (λ i. bytes_eq i.index name) indexes

abbrev pub is_some : {A : Type 0} → Option A → Bool
is_some none = false
is_some (some a) = true

-- A change of the table that the map of tables has under a name.
unfoldable pub modify_table : Bytes → (TableObj → TableObj) → List TableObj → List TableObj
unfolding find_last
modify_table name f [] = []
modify_table name f (t ∷ tables) =
    if is_some (find_last (is_table name) tables)
    then t ∷ modify_table name f tables
    else (if is_table name t then f t ∷ tables else t ∷ tables)

-- `field_map.find(name)`
unfoldable pub find_field : Bytes → List FieldObj → Option FieldObj
unfolding find_last
find_field name fields = find_last (λ f. bytes_eq f.name name) fields

unfoldable pub set_key_fields : List FieldObj → List KeyDef → Result (List FieldObj)
unfolding find_field
set_key_fields fields [] = ok []
set_key_fields fields (k ∷ keys) = do
  f ← or_throw (find_field k.name fields) "key references unknown field"
  fs ← set_key_fields fields keys
  ok (f ∷ fs)

unfoldable pub set_join_key_fields : List FieldObj → List KeyDef → Result (List FieldObj)
unfolding find_field
set_join_key_fields fields [] = ok []
set_join_key_fields fields (k ∷ keys) = do
  f ← or_throw (find_field k.join_src_name fields) "key references unknown field"
  fs ← set_join_key_fields fields keys
  ok (f ∷ fs)

module _ (type_map : Bytes → Option KvType) where
  -- The fields of a table, from the one numbered `i` on.
  unfoldable pub prepare_fields : ℕ → List FieldDef → Result (List FieldObj)
  prepare_fields i [] = ok []
  prepare_fields i (f ∷ fields) = do
    t ← or_throw (type_map f.type) "unknown type"
    fs ← prepare_fields (i + 1) fields
    ok (
        record {
          name = f.name;
          type = f.type;
          field = record {
            type_obj = t;
            begin_optional = f.begin_optional;
            end_optional = f.end_optional;
            field_index = i;
          };
        }
        ∷ fs)

  unfoldable pub prepare_table : TableDef → Result TableObj
  unfolding prepare_fields set_key_fields
  prepare_table t = do
    fields ← prepare_fields 0 t.fields
    keys ← set_key_fields fields t.keys
    ok (record {
      name = t.name;
      short_name = t.short_name;
      fields = fields;
      is_delta = t.is_delta;
      trim_index = t.trim_index;
      keys = keys;
      indexes = [];
      trim_index_obj = none;
    })

  unfoldable pub prepare_tables : List TableDef → Result (List TableObj)
  unfolding prepare_table
  prepare_tables [] = ok []
  prepare_tables (t ∷ tables) = do t' ← prepare_table t; ts ← prepare_tables tables; ok (t' ∷ ts)

  unfoldable pub add_types : List FieldObj → List KeyDef → Result (List KvType)
  unfolding find_field
  add_types fields [] = ok []
  add_types fields (k ∷ keys) = do
    f ← or_throw (find_field k.name fields) "unknown field"
    t ← or_throw (type_map f.type) "unknown type"
    ts ← add_types fields keys
    ok (t ∷ ts)

  unfoldable pub prepare_index : IndexDef → PreparedConfig → Result PreparedConfig
  unfolding find_index_obj find_last find_table_obj modify_table set_key_fields add_types
  prepare_index d c = do
    throw_if (is_some (find_index_obj d.index c.indexes)) "duplicate index"
    throw_if (is_some (find_last (λ i. i.short_name == d.short_name) c.indexes)) "duplicate index"
    t ← or_throw (find_table_obj d.table c.tables) "unknown table"
    throw_if (is_some (find_last (λ i. bytes_eq i d.index) t.indexes)) "table has duplicate index"
    sort_keys ← set_key_fields t.fields d.sort_keys
    range_types ← add_types t.fields d.sort_keys
    ok (record c {
      tables =
          modify_table d.table (λ t. record t { indexes = t.indexes ++ d.index ∷ [] }) c.tables;
      indexes =
          c.indexes
          ++ record {
            short_name = d.short_name;
            index = d.index;
            table_obj = d.table;
            only_for_trim = d.only_for_trim;
            sort_keys = sort_keys;
            range_types = range_types;
          }
            ∷ [];
    })

  unfoldable pub prepare_indexes : List IndexDef → PreparedConfig → Result PreparedConfig
  unfolding prepare_index
  prepare_indexes [] c = ok c
  prepare_indexes (d ∷ ds) c = prepare_index d c >>= prepare_indexes ds

-- The join of a query, whose own name is in the map already.
unfoldable pub prepare_join : QueryDef → PreparedConfig → Result (Option JoinObj)
unfolding find_table_obj find_last set_key_fields
prepare_join d c = if is_empty d.join then ok none else (do
  t ← or_throw (find_table_obj d.join c.tables) "unknown table"
  fields_from_join ← set_key_fields t.fields d.fields_from_join
  check
      (d.join_query_short_name == d.short_name
        || is_some (find_last (λ q. q.short_name == d.join_query_short_name) c.queries))
      "unknown join_query_short_name"
  ok (
      some (record {
        join_table = d.join;
        join_query = d.join_query_short_name;
        fields_from_join = fields_from_join;
      })))

-- A copy of a field, whose index is not set yet.
abbrev pub copy_field : FieldObj → FieldDef
copy_field f = record {
  name = f.name;
  type = f.type;
  begin_optional = f.field.begin_optional;
  end_optional = f.field.end_optional;
}

abbrev pub joined_fields : Option JoinObj → List FieldObj
joined_fields none = []
joined_fields (some j) = j.fields_from_join

unfoldable pub prepare_query : QueryDef → PreparedConfig → Result PreparedConfig
unfolding find_index_obj find_table_obj set_join_key_fields prepare_join
prepare_query d c = do
  i ← or_throw (find_index_obj d.index c.indexes) "unknown index"
  t ← or_throw (find_table_obj d.table c.tables) "unknown table"
  throw_if i.only_for_trim "index is marked only_for_trim"
  join_key_values ← set_join_key_fields t.fields d.join_key_values
  join ← prepare_join d c
  ok (record c {
    queries =
        c.queries
        ++ record {
          short_name = d.short_name;
          index_obj = d.index;
          table_obj = d.table;
          has_block_snapshot = d.has_block_snapshot;
          max_results = d.max_results;
          join_key_values = join_key_values;
          result_fields = map copy_field (t.fields ++ joined_fields join);
          join = join;
        }
          ∷ [];
  })

unfoldable pub prepare_queries : List QueryDef → PreparedConfig → Result PreparedConfig
unfolding prepare_query
prepare_queries [] c = ok c
prepare_queries (d ∷ ds) c = prepare_query d c >>= prepare_queries ds

unfoldable pub set_trim_index : TableObj → Result TableObj
unfolding find_last
set_trim_index t = if is_empty t.trim_index then ok t else (do
  i ← or_throw (find_last (λ i. bytes_eq i t.trim_index) t.indexes) "trim_index does not exist"
  ok (record t { trim_index_obj = some i }))

unfoldable pub set_trim_indexes : List TableObj → Result (List TableObj)
unfolding set_trim_index
set_trim_indexes [] = ok []
set_trim_indexes (t ∷ tables) = do t' ← set_trim_index t; ts ← set_trim_indexes tables; ok (t' ∷ ts)

unfoldable pub prepare :
    (Bytes → Option KvType) → List TableDef → List IndexDef → List QueryDef → Result PreparedConfig
unfolding prepare_tables prepare_indexes prepare_queries set_trim_indexes
prepare type_map table_defs index_defs query_defs = do
  tables ← prepare_tables type_map table_defs
  c1 ← prepare_indexes type_map index_defs (record { tables = tables; indexes = []; queries = [] })
  c2 ← prepare_queries query_defs c1
  tables' ← set_trim_indexes c2.tables
  ok (record c2 { tables = tables' })

-- ===== src/QueryConfig/Tests.antt =====
-- A configuration of one table, and the witness for the query configuration.
use history_tools.Common.{
  ℕ, ◌≡◌, refl, true, false, List, [], ◌∷◌, if◌then◌else◌, Bytes, codes, Option, none, some, ok,
}
use history_tools.SqlConverter.Types.{bytes_eq}
use history_tools.Kv.Types.{KvType}
use history_tools.QueryConfig.Types.{
  FieldDef, KeyDef, TableDef, IndexDef, QueryDef, FieldObj, PreparedConfig,
}
use history_tools.QueryConfig.Prepare.{
  find_last, find_table_obj, modify_table, find_field, find_index_obj, set_key_fields,
  set_join_key_fields, prepare_fields, prepare_table, prepare_tables, add_types, prepare_index,
  prepare_indexes, prepare_join, prepare_query, prepare_queries, set_trim_index, set_trim_indexes,
  prepare,
}
use history_tools.QueryConfig.Resolved.{IsResolved}
use history_tools.QueryConfig.Prepared.{prepare-IsResolved}

abbrev types : Bytes → Option KvType
types t = if bytes_eq t (codes "uint32") then some KvType.uint32 else none

abbrev field : Bytes → FieldDef
field name = record {
  name = name;
  type = codes "uint32";
  begin_optional = false;
  end_optional = false;
}

abbrev key_def : Bytes → KeyDef
key_def name = record { name = name; join_src_name = name }

abbrev field_obj : Bytes → ℕ → FieldObj
field_obj name i = record {
  name = name;
  type = codes "uint32";
  field = record {
    type_obj = KvType.uint32;
    begin_optional = false;
    end_optional = false;
    field_index = i;
  };
}

abbrev table : TableDef
table = record {
  name = codes "t";
  short_name = 1;
  fields = field (codes "a") ∷ field (codes "b") ∷ [];
  is_delta = false;
  trim_index = codes "i";
  keys = key_def (codes "a") ∷ [];
}

abbrev index : IndexDef
index = record {
  short_name = 2;
  index = codes "i";
  table = codes "t";
  only_for_trim = false;
  sort_keys = key_def (codes "b") ∷ [];
}

-- It joins its own table, by itself.
abbrev query : QueryDef
query = record {
  short_name = 3;
  index = codes "i";
  table = codes "t";
  has_block_snapshot = true;
  max_results = 10;
  join = codes "t";
  join_query_short_name = 3;
  join_key_values = key_def (codes "b") ∷ [];
  fields_from_join = key_def (codes "a") ∷ [];
}

abbrev fields : List FieldObj
fields = field_obj (codes "a") 0 ∷ field_obj (codes "b") 1 ∷ []

abbrev config : PreparedConfig
config = record {
  tables =
      record {
        name = codes "t";
        short_name = 1;
        fields = fields;
        is_delta = false;
        trim_index = codes "i";
        keys = field_obj (codes "a") 0 ∷ [];
        indexes = codes "i" ∷ [];
        trim_index_obj = some (codes "i");
      }
      ∷ [];
  indexes =
      record {
        short_name = 2;
        index = codes "i";
        table_obj = codes "t";
        only_for_trim = false;
        sort_keys = field_obj (codes "b") 1 ∷ [];
        range_types = KvType.uint32 ∷ [];
      }
      ∷ [];
  queries =
      record {
        short_name = 3;
        index_obj = codes "i";
        table_obj = codes "t";
        has_block_snapshot = true;
        max_results = 10;
        join_key_values = field_obj (codes "b") 1 ∷ [];
        result_fields = field (codes "a") ∷ field (codes "b") ∷ field (codes "a") ∷ [];
        join = some (record {
          join_table = codes "t";
          join_query = 3;
          fields_from_join = field_obj (codes "a") 0 ∷ [];
        });
      }
      ∷ [];
}

prepared : prepare types (table ∷ []) (index ∷ []) (query ∷ []) ≡ ok config
unfolding bytes_eq find_last find_table_obj modify_table find_field find_index_obj set_key_fields
    set_join_key_fields prepare_fields prepare_table prepare_tables add_types prepare_index
    prepare_indexes prepare_join prepare_query prepare_queries set_trim_index set_trim_indexes
    prepare
prepared = refl

prepare-IsResolved_example : IsResolved config
prepare-IsResolved_example =
    prepare-IsResolved types (table ∷ []) (index ∷ []) (query ∷ []) config prepared

-- ===== src/QueryConfig/Types.antt =====
-- The records of src/query_config.hpp, as they are read from JSON, and as `prepare` makes them. A
-- pointer to a field is the field, one to a table, an index or a query is its name. A copied field of
-- `result_fields` has no index yet, so it is its definition.
use history_tools.Common.{ℕ, Bool, List, Bytes, Option}
use history_tools.Kv.Types.{KvType}
use history_tools.Kv.Positions.{Field}

pub record FieldDef : Type 0 where
  pub name : Bytes
  pub type : Bytes
  pub begin_optional : Bool
  pub end_optional : Bool

pub record KeyDef : Type 0 where
  pub name : Bytes
  pub join_src_name : Bytes

pub record TableDef : Type 0 where
  pub name : Bytes
  pub short_name : ℕ
  pub fields : List FieldDef
  pub is_delta : Bool
  pub trim_index : Bytes
  pub keys : List KeyDef

pub record IndexDef : Type 0 where
  pub short_name : ℕ
  pub index : Bytes
  pub table : Bytes
  pub only_for_trim : Bool
  pub sort_keys : List KeyDef

pub record QueryDef : Type 0 where
  pub short_name : ℕ
  pub index : Bytes
  pub table : Bytes
  pub has_block_snapshot : Bool
  pub max_results : ℕ
  pub join : Bytes
  pub join_query_short_name : ℕ
  pub join_key_values : List KeyDef
  pub fields_from_join : List KeyDef

-- A field with its `type_obj` and, as the key-value database adds it, its `field_index`.
pub record FieldObj : Type 0 where
  pub name : Bytes
  pub type : Bytes
  pub field : Field

pub record TableObj : Type 0 where
  pub name : Bytes
  pub short_name : ℕ
  pub fields : List FieldObj
  pub is_delta : Bool
  pub trim_index : Bytes
  pub keys : List FieldObj
  pub indexes : List Bytes
  pub trim_index_obj : Option Bytes

pub record IndexObj : Type 0 where
  pub short_name : ℕ
  pub index : Bytes
  pub table_obj : Bytes
  pub only_for_trim : Bool
  pub sort_keys : List FieldObj
  pub range_types : List KvType

pub record JoinObj : Type 0 where
  pub join_table : Bytes
  pub join_query : ℕ
  pub fields_from_join : List FieldObj

pub record QueryObj : Type 0 where
  pub short_name : ℕ
  pub index_obj : Bytes
  pub table_obj : Bytes
  pub has_block_snapshot : Bool
  pub max_results : ℕ
  pub join_key_values : List FieldObj
  pub result_fields : List FieldDef
  pub join : Option JoinObj

pub record PreparedConfig : Type 0 where
  pub tables : List TableObj
  pub indexes : List IndexObj
  pub queries : List QueryObj

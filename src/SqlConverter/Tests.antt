-- ===== src/SqlConverter/Tests.antt =====
-- Witnesses and tests for the conversion to SQL.
use history_tools.Common.{
  ℕ, ◌≡◌, inl, refl, ◌++◌, Bool, List, [], ◌∷◌, some, codes, Bytes, Result, ok, err, arith, length,
  ◌==◌, to_string,
}
use history_tools.SqlConverter.Escape.{
  FieldKind, escape_table_field, escape_composite_field, quote_name,
}
use history_tools.SqlConverter.Escaped.{
  read_copy, read_copy-escape_table_field, read_composite, read_composite-escape_composite_field,
}
use history_tools.SqlConverter.Types.{
  AbiType, builtin, struct_, variant, Fields, no_fields, field, FieldDef, Converter, get_field_def,
  field_type, basic_type, bytes_eq,
}
use history_tools.SqlConverter.Union.{
  union_fields, add_alternatives, add_alternative, add_struct, add_field,
}
use history_tools.SqlConverter.Value.{
  Library, row_values, variant_values, read_variant, fill_union, columns, alternatives,
  struct_columns, to_sql_value, read_basic, basic_text, is_column, absent_text, starts_with,
}
use history_tools.SqlConverter.Create.{
  Created, create_table, table_fields, create_fields, create_elements, create_sql_type,
  create_struct, finish_struct, contains, exec, emplace, column_defs, column_def, table_query,
}
use history_tools.SqlConverter.Width.{table_columns, length-row_values, create_table_columns}

read_copy-escape_table_field_example :
    read_copy (escape_table_field (9 ∷ 200 ∷ 92 ∷ [])) ≡ 9 ∷ 200 ∷ 92 ∷ []
read_copy-escape_table_field_example =
    read_copy-escape_table_field (9 ∷ 200 ∷ 92 ∷ []) (omega arith)

read_composite-escape_composite_field_example :
    read_composite (escape_composite_field (codes "a\"b") ++ codes ",2)")
    ≡ some (codes "a\"b", codes ",2)")
read_composite-escape_composite_field_example =
    read_composite-escape_composite_field (codes "a\"b") (codes "2)") b',' (inl refl)

byte_to_sql : Bytes → Result (Bytes × Bytes)
byte_to_sql [] = err "end of stream"
byte_to_sql (c ∷ s) = ok (to_string c, s)

byte : Bytes → Result (ℕ × Bytes)
byte [] = err "end of stream"
byte (c ∷ s) = ok (c, s)

flag : Bytes → Result (Bool × Bytes)
flag [] = err "end of stream"
flag (c ∷ s) = ok (c == 1, s)

join : Bytes → List Bytes → Bytes
join sep [] = []
join sep (v ∷ []) = v
join sep (v ∷ w ∷ vs) = v ++ (sep ++ join sep (w ∷ vs))

abbrev library : Library
library = record { read_bool = flag; varuint32_from_bin = byte; separated_list = join }

abbrev converter : Converter
converter = record {
  schema_name = codes "chain";
  basic_converters = λ n. some (record { name = codes "smallint"; bin_to_sql = some byte_to_sql });
}

abbrev id_field : Fields → Fields
id_field = field (codes "id") (builtin (codes "uint8"))

-- Two versions of one struct, the second with a field in front.
abbrev account : AbiType
account = variant (codes "account") (
    field (codes "account_v0") (struct_ (codes "account_v0") (id_field no_fields)) (
      field (codes "account_v1")
        (struct_ (codes "account_v1")
          (field (codes "code") (builtin (codes "uint8")) (id_field no_fields)))
        no_fields))

abbrev account_columns : List FieldDef
account_columns =
    record { name = codes "code"; type = codes "smallint" }
    ∷ record { name = codes "id"; type = codes "smallint" }
    ∷ []

account-columns : table_columns converter account ≡ ok account_columns
unfolding table_columns union_fields add_alternatives add_alternative add_struct add_field
    get_field_def field_type basic_type bytes_eq
account-columns = refl

-- A row of the first version leaves the new column empty.
account-row :
    row_values library converter account FieldKind.table_field (0 ∷ 4 ∷ 5 ∷ [])
    ≡ ok ([] ∷ codes "4" ∷ [], 5 ∷ [])
unfolding row_values variant_values read_variant union_fields add_alternatives add_alternative
    add_struct add_field get_field_def field_type basic_type bytes_eq alternatives struct_columns
    columns to_sql_value fill_union read_basic basic_text is_column absent_text starts_with byte
    byte_to_sql to_string
account-row = refl

length-row_values_example : length ([] ∷ codes "4" ∷ []) ≡ length account_columns
length-row_values_example =
    length-row_values library converter account FieldKind.table_field (0 ∷ 4 ∷ 5 ∷ [])
      account-columns account-row

abbrev empty : Created
empty = record { composite_types = []; executed = [] }

abbrev created : Created
created = record {
  composite_types = codes "chain.\"account_v1\"" ∷ codes "chain.\"account_v0\"" ∷ [];
  executed =
      codes
        "create table chain.\"account\" (n bigint, \"code\" smallint, \"id\" smallint, primary key(\"n\"))"
      ∷ [];
}

creates_account :
    create_table library converter
      (codes "account")
      account
      (codes "n bigint")
      (codes "n" ∷ [])
      empty
    ≡ ok created
unfolding create_table table_fields create_elements create_sql_type create_struct create_fields
    finish_struct contains exec emplace union_fields add_alternatives add_alternative add_struct
    add_field get_field_def field_type basic_type bytes_eq column_defs column_def table_query
    quote_name join
creates_account = refl

create_table_columns_example :
    (ds : List FieldDef) × (earlier : List Bytes) × (table_columns converter account ≡ ok ds)
    × (created.executed
        ≡ earlier
          ++ table_query library converter
              (codes "account")
              (codes "n bigint" ++ column_defs ds)
              (codes "n" ∷ [])
            ∷ [])
create_table_columns_example =
    create_table_columns library converter (codes "account") account (codes "n bigint")
      (codes "n" ∷ []) empty created creates_account

-- Where a third alternative gives a field another type, the column of the first two is named after
-- the second alone: a row of the first alternative is written without the field's value.
abbrev three_versions : AbiType
three_versions = variant (codes "t") (
    field (codes "t_v0") (struct_ (codes "t_v0") (id_field no_fields)) (
      field (codes "t_v1") (struct_ (codes "t_v1") (id_field no_fields)) (
        field (codes "t_v2")
          (struct_ (codes "t_v2")
            (field (codes "id") (variant (codes "other") no_fields) no_fields))
          no_fields)))

loses_value :
    row_values library converter three_versions FieldKind.table_field (0 ∷ 4 ∷ [])
    ≡ ok ([] ∷ codes "4" ∷ [], [])
unfolding row_values variant_values read_variant union_fields add_alternatives add_alternative
    add_struct add_field get_field_def field_type basic_type bytes_eq alternatives struct_columns
    columns to_sql_value fill_union read_basic basic_text is_column absent_text starts_with byte
    byte_to_sql to_string
loses_value = refl

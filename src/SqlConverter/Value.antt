-- ===== src/SqlConverter/Value.antt =====
-- `to_sql_value` and `to_sql_values` of src/abieos_sql_converter.cpp. abieos's stream functions
-- are parameters: `read_bool` is `bin.read_raw(present)`.
use Prim.Native.Nat.{zero, suc}
use history_tools.Common.{
  ℕ, Bool, true, false, ◌++◌, ◌||◌, ◌&&◌, List, [], ◌∷◌, if◌then◌else◌, Bytes, codes, Option, none,
  some, Result, ok, err, ◌>>=◌, is_empty, get_elem?, or_throw, reverse, length, ltb, ◌==◌,
}
use history_tools.SqlConverter.Escape.{FieldKind, escape_field, escape_composite_field}
use history_tools.SqlConverter.Types.{
  AbiType, builtin, optional_of, array_of, struct_, variant, Fields, no_fields, field, bytes_eq,
  FieldDef, Converter, Reader,
}
use history_tools.SqlConverter.Union.{union_fields}

-- What the conversion calls of abieos and pqxx: `bin.read_raw(bool&)`, `varuint32_from_bin` and
-- `pqxx::separated_list`.
pub record Library : Type 0 where
  pub read_bool : Bytes → Result (Bool × Bytes)
  pub varuint32_from_bin : Bytes → Result (ℕ × Bytes)
  pub separated_list : Bytes → List Bytes → Bytes

unfoldable pub starts_with : Bytes → Bytes → Bool
starts_with [] s = true
starts_with (c ∷ p) [] = false
starts_with (c ∷ p) (d ∷ s) = (c == d) && starts_with p s

unfoldable pub ends_with : Bytes → Bytes → Bool
ends_with value ending =
    if ltb (length value) (length ending)
    then false
    else starts_with (reverse ending) (reverse value)

unfoldable pub null_text : FieldKind → Bytes
null_text FieldKind.table_field = codes "\\N"
null_text FieldKind.composite_field = []

is_text_type : Bytes → Bool
is_text_type n = starts_with (codes "varchar") n || bytes_eq n (codes "bytea")

-- What `to_sql_value` makes of the text of a basic value.
unfoldable pub basic_text : Bytes → FieldKind → Bytes → Bytes
unfolding is_text_type
basic_text sql_type_name FieldKind.composite_field r =
    if is_text_type sql_type_name then escape_composite_field r else r
basic_text sql_type_name FieldKind.table_field r =
    if is_empty r && bytes_eq sql_type_name (codes "timestamp") then codes "\\N" else r

-- The values of a struct as the value of one field.
unfoldable pub struct_text : Library → FieldKind → List Bytes → Result Bytes
struct_text lib kind [] = err "values[0]"
struct_text lib kind (v ∷ []) = ok v
struct_text lib kind (v ∷ w ∷ vs) =
    ok (escape_field (b'(' ∷ lib.separated_list (codes ",") (v ∷ w ∷ vs) ++ codes ")") kind)

-- What a union column without a value holds.
unfoldable pub absent_text : Converter → FieldKind → FieldDef → Bytes
unfolding ends_with
absent_text c kind d =
    if ends_with d.type (codes "[]") then escape_field (codes "{}") kind else elim kind [
      | FieldKind.table_field ↦ if starts_with c.schema_name d.type then codes "\\N" else []
      | FieldKind.composite_field ↦ []
    ]

-- A field of an alternative: its name, and how it is read.
abbrev pub Column : Type 0
Column = Bytes × (FieldKind → Reader)

-- The loop over the values of an array.
unfoldable pub read_array : ℕ → Reader → Bytes → Result (List Bytes × Bytes)
read_array zero reader bin = ok ([], bin)
read_array (suc n) reader bin = do
  (v, bin') ← reader bin
  (vs, rest) ← read_array n reader bin'
  ok (v ∷ vs, rest)

-- The loop over the fields of a struct.
unfoldable pub read_columns : List Column → FieldKind → Bytes → Result (List Bytes × Bytes)
read_columns [] kind bin = ok ([], bin)
read_columns ((n, reader) ∷ cols) kind bin = do
  (v, bin') ← reader kind bin
  (vs, rest) ← read_columns cols kind bin'
  ok (v ∷ vs, rest)

-- `fname == field_itr->name || fname == alternative.name + "_" + field_itr->name`
unfoldable pub is_column : Bytes → Bytes → Bytes → Bool
is_column alternative fname n = bytes_eq fname n || bytes_eq fname (alternative ++ b'_' ∷ n)

-- The loop over the union's columns; the list of columns is `field_itr` up to the end. The fields
-- that it has not reached come back too.
unfoldable pub fill_union :
    Converter
    → FieldKind
    → Bytes
    → List FieldDef
    → List Column
    → Bytes
    → Result (List Bytes × Bytes × List Column)
fill_union c kind alternative [] cols bin = ok ([], bin, cols)
fill_union c kind alternative (d ∷ ds) [] bin = do
  (vs, rest, left) ← fill_union c kind alternative ds [] bin
  ok (absent_text c kind d ∷ vs, rest, left)
fill_union c kind alternative (d ∷ ds) ((n, reader) ∷ cols) bin =
    let present : Result (List Bytes × Bytes × List Column) = (do
      (v, bin') ← reader kind bin
      (vs, rest, left) ← fill_union c kind alternative ds cols bin'
      ok (v ∷ vs, rest, left)) in
    let absent : Result (List Bytes × Bytes × List Column) = (do
      (vs, rest, left) ← fill_union c kind alternative ds ((n, reader) ∷ cols) bin
      ok (absent_text c kind d ∷ vs, rest, left)) in
    if is_column alternative d.name n then present else absent

-- The alternatives of a variant, with the columns of those that are structs.
abbrev pub Alternative : Type 0
Alternative = Bytes × Option (List Column)

-- `to_sql_values` of a variant, from its alternatives.
unfoldable pub read_variant :
    Library
    → Converter
    → Fields
    → List Alternative
    → FieldKind
    → Bytes
    → Result (List Bytes × Bytes × List Column)
read_variant lib c elements alternatives kind bin = do
  (v, bin') ← lib.varuint32_from_bin bin
  (name, as_struct) ← or_throw (get_elem? alternatives v) "vector::at"
  ds ← union_fields c elements
  cols ← or_throw as_struct "not a struct"
  fill_union c kind name ds cols bin'

-- `basic_converters.find` and what follows it. A type with no converter is unreachable in the
-- source; here it fails.
unfoldable pub read_basic : Converter → Bytes → FieldKind → Reader
read_basic c n kind bin = do
  it ← or_throw (c.basic_converters n) "unreachable"
  bin_to_sql ← or_throw it.bin_to_sql "don't know how to process"
  (r, rest) ← bin_to_sql bin
  ok (basic_text it.name kind r, rest)

unfoldable pub read_optional : Library → (FieldKind → Reader) → FieldKind → Reader
read_optional lib inner kind bin = do
  (present, bin') ← lib.read_bool bin
  (if present then inner kind bin' else ok (null_text kind, bin'))

unfoldable pub read_struct : Library → List Column → FieldKind → Reader
read_struct lib cols kind bin = do
  (vs, rest) ← read_columns cols FieldKind.composite_field bin
  r ← struct_text lib kind vs
  ok (r, rest)

unfoldable pub read_variant_field :
    Library → Converter → Fields → List Alternative → FieldKind → Reader
read_variant_field lib c elements alternatives kind bin = do
  (vs, rest, left) ← read_variant lib c elements alternatives FieldKind.composite_field bin
  ok (escape_field (b'(' ∷ lib.separated_list (codes ",") vs ++ codes ")") kind, rest)

unfoldable pub read_array_field : Library → (FieldKind → Reader) → FieldKind → Reader
read_array_field lib element kind bin = do
  (n, bin') ← lib.varuint32_from_bin bin
  (vs, rest) ← read_array n (element FieldKind.composite_field) bin'
  ok (escape_field (b'{' ∷ lib.separated_list (codes ",") vs ++ codes "}") kind, rest)

-- `to_sql_value`. One `optional_of` is taken off; the type below another one is looked up by name.
unfoldable mutual
  pub to_sql_value : Library → Converter → AbiType → FieldKind → Reader
  to_sql_value lib c (builtin n) = read_basic c n
  to_sql_value lib c (optional_of n t) = read_optional lib (to_sql_present lib c t)
  to_sql_value lib c (array_of n t) = read_array_field lib (to_sql_value lib c t)
  to_sql_value lib c (struct_ n fs) = read_struct lib (columns lib c fs)
  to_sql_value lib c (variant n fs) = read_variant_field lib c fs (alternatives lib c fs)

  pub to_sql_present : Library → Converter → AbiType → FieldKind → Reader
  to_sql_present lib c (builtin n) = read_basic c n
  to_sql_present lib c (optional_of n t) = read_basic c n
  to_sql_present lib c (array_of n t) = read_array_field lib (to_sql_value lib c t)
  to_sql_present lib c (struct_ n fs) = read_struct lib (columns lib c fs)
  to_sql_present lib c (variant n fs) = read_variant_field lib c fs (alternatives lib c fs)

  pub columns : Library → Converter → Fields → List Column
  columns lib c no_fields = []
  columns lib c (field n t fs) = (n, to_sql_value lib c t) ∷ columns lib c fs

  -- `alternative.type->as_struct()->fields`
  pub struct_columns : Library → Converter → AbiType → Option (List Column)
  struct_columns lib c (struct_ n fs) = some (columns lib c fs)
  struct_columns lib c (builtin n) = none
  struct_columns lib c (optional_of n t) = none
  struct_columns lib c (array_of n t) = none
  struct_columns lib c (variant n fs) = none

  pub alternatives : Library → Converter → Fields → List Alternative
  alternatives lib c no_fields = []
  alternatives lib c (field n t fs) = (n, struct_columns lib c t) ∷ alternatives lib c fs

-- The two `to_sql_values` that fill a row.
unfoldable pub struct_values :
    Library → Converter → Fields → FieldKind → Bytes → Result (List Bytes × Bytes)
struct_values lib c fs kind bin = read_columns (columns lib c fs) kind bin

unfoldable pub variant_values :
    Library → Converter → Fields → FieldKind → Bytes → Result (List Bytes × Bytes)
variant_values lib c fs kind bin = do
  (vs, rest, left) ← read_variant lib c fs (alternatives lib c fs) kind bin
  ok (vs, rest)

-- The values of a row by its type, as the rows of a table delta are read; a type that is neither a
-- variant nor a struct is refused.
unfoldable pub row_values :
    Library → Converter → AbiType → FieldKind → Bytes → Result (List Bytes × Bytes)
row_values lib c (struct_ n fs) kind bin = struct_values lib c fs kind bin
row_values lib c (variant n fs) kind bin = variant_values lib c fs kind bin
row_values lib c (builtin n) kind bin = err "don't know how to process"
row_values lib c (optional_of n t) kind bin = err "don't know how to process"
row_values lib c (array_of n t) kind bin = err "don't know how to process"

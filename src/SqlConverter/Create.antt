-- ===== src/SqlConverter/Create.antt =====
-- `create_sql_type` and `create_table` of src/abieos_sql_converter.cpp. `exec` appends a statement.
use history_tools.Common.{
  Bool, true, false, ◌++◌, ◌||◌, List, [], ◌∷◌, map, if◌then◌else◌, Bytes, codes, Result, ok, ◌>>=◌,
  drop, ◌==◌,
}
use history_tools.SqlConverter.Escape.{quote_name}
use history_tools.SqlConverter.Types.{
  AbiType, builtin, optional_of, array_of, struct_, variant, Fields, no_fields, field, bytes_eq,
  FieldDef, Converter, get_field_def, in_schema,
}
use history_tools.SqlConverter.Union.{union_fields}
use history_tools.SqlConverter.Value.{Library}

-- `created_composite_types`, and the statements that `exec` was given.
pub record Created : Type 0 where
  pub composite_types : List Bytes
  pub executed : List Bytes

unfoldable pub contains : Bytes → List Bytes → Bool
contains n [] = false
contains n (m ∷ ms) = bytes_eq n m || contains n ms

-- `sub_fields.substr(sub_fields.rfind(" ") + 1)`
unfoldable pub last_word_from : Bytes → Bytes → Bytes
last_word_from word [] = word
last_word_from word (c ∷ s) = last_word_from (if c == b' ' then s else word) s

-- `", " + quote_name(f_def.name) + " " + f_def.type`
unfoldable pub column_def : FieldDef → Bytes
column_def d = codes ", " ++ (quote_name d.name ++ (b' ' ∷ d.type))

unfoldable pub exec : Bytes → Created → Created
exec query st = record st { executed = st.executed ++ query ∷ [] }

unfoldable pub emplace : Bytes → Created → Created
emplace sql_type st = record st { composite_types = sql_type ∷ st.composite_types }

abbrev pub sql_type_name : Converter → Bytes → Bytes
sql_type_name c n = in_schema c (quote_name n)

-- More than one field.
abbrev pub has_two : Fields → Bool
has_two no_fields = false
has_two (field n t no_fields) = false
has_two (field n t (field m u fs)) = true

-- What follows the loop over a struct's fields.
unfoldable pub finish_struct : Converter → Bytes → Fields → Bool → Bytes → Created → Created
finish_struct c n fs is_union_field sub_fields st =
    if is_union_field
    then emplace (sql_type_name c n) st
    else if has_two fs
    then emplace (sql_type_name c n) (
        exec
          (codes "create type "
            ++ (sql_type_name c n ++ (codes " as (" ++ (drop 2 sub_fields ++ codes ")"))))
          st)
    else emplace (last_word_from sub_fields sub_fields) st

unfoldable pub create_struct :
    Converter
    → Bytes
    → Fields
    → Bool
    → (Bytes → Created → Result (Bytes × Created))
    → Created
    → Result Created
create_struct c n fs is_union_field loop st =
    if contains (sql_type_name c n) st.composite_types
    then ok st
    else loop [] st >>= λ (sub_fields, st'). ok (finish_struct c n fs is_union_field sub_fields st')

-- `quote_name(field.name) + " " + field.type + ","`, with the last comma become `)`.
unfoldable pub type_body : List FieldDef → Bytes
type_body [] = codes ")"
type_body (d ∷ []) = quote_name d.name ++ (b' ' ∷ d.type ++ codes ")")
type_body (d ∷ e ∷ ds) = quote_name d.name ++ (b' ' ∷ d.type ++ (codes "," ++ type_body (e ∷ ds)))

unfoldable pub create_variant :
    Converter → Bytes → Fields → (Created → Result Created) → Created → Result Created
create_variant c n fs loop st =
    if contains (sql_type_name c n) st.composite_types then ok st else do
      st' ← loop st
      ds ← union_fields c fs
      ok (
          emplace (sql_type_name c n) (
            exec (codes "create type " ++ (sql_type_name c n ++ (codes " as (" ++ type_body ds)))
              st'))

unfoldable mutual
  pub create_sql_type : Converter → AbiType → Bool → Created → Result Created
  create_sql_type c (builtin n) u st = ok st
  create_sql_type c (optional_of n t) u st = create_sql_type c t u st
  create_sql_type c (array_of n t) u st = create_sql_type c t false st
  create_sql_type c (struct_ n fs) u st = create_struct c n fs u (create_fields c fs) st
  create_sql_type c (variant n fs) u st = create_variant c n fs (create_elements c fs) st

  pub create_fields : Converter → Fields → Bytes → Created → Result (Bytes × Created)
  create_fields c no_fields text st = ok (text, st)
  create_fields c (field n t fs) text st = do
    st' ← create_sql_type c t false st
    d ← get_field_def c n t
    create_fields c fs (text ++ column_def d) st'

  pub create_elements : Converter → Fields → Created → Result Created
  create_elements c no_fields st = ok st
  create_elements c (field n t fs) st = do
    st' ← create_sql_type c t true st
    create_elements c fs st'

unfoldable pub column_defs : List FieldDef → Bytes
column_defs [] = []
column_defs (d ∷ ds) = column_def d ++ column_defs ds

-- The columns of a table behind the prefix.
unfoldable pub table_fields : Converter → AbiType → Bytes → Created → Result (Bytes × Created)
table_fields c (struct_ n fs) text st = create_fields c fs text st
table_fields c (variant n fs) text st = do
  st' ← create_elements c fs st
  ds ← union_fields c fs
  ok (text ++ column_defs ds, st')
table_fields c (builtin n) text st = ok (text, st)
table_fields c (optional_of n t) text st = ok (text, st)
table_fields c (array_of n t) text st = ok (text, st)

unfoldable pub table_query : Library → Converter → Bytes → Bytes → List Bytes → Bytes
table_query lib c table_name fields keys =
    codes "create table "
    ++ (in_schema c (quote_name table_name)
        ++ (codes " ("
            ++ (fields
                ++ (codes ", primary key("
                    ++ (lib.separated_list (codes ",") (map quote_name keys) ++ codes "))")))))

unfoldable pub create_table :
    Library → Converter → Bytes → AbiType → Bytes → List Bytes → Created → Result Created
create_table lib c table_name type fields_prefix keys st = do
  (fields, st') ← table_fields c type fields_prefix st
  ok (exec (table_query lib c table_name fields keys) st')

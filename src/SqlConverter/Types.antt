-- ===== src/SqlConverter/Types.antt =====
-- The types of a SHiP ABI as src/abieos_sql_converter.cpp walks them, and its `get_field_def`,
-- `get_field_defs` and `union_fields_t`. An ABI type is a finite tree: `transaction_trace` ends at
-- the built-in `recurse_transaction_trace`.
use history_tools.Common.{
  Bool, true, false, ◌&&◌, ◌++◌, List, [], ◌∷◌, ◌==◌, if◌then◌else◌, Bytes, codes, Option, Result,
  ok, err, ◌>>=◌, or_throw,
}

-- `eosio::abi_type`: its name and what `optional_of()`, `array_of()`, `as_struct()` and
-- `as_variant()` give. `Fields` is a vector of `abi_field`, with a name and a type each.
mutual
  pub data AbiType : Type 0 where
    builtin : Bytes → AbiType
    optional_of : Bytes → AbiType → AbiType
    array_of : Bytes → AbiType → AbiType
    struct_ : Bytes → Fields → AbiType
    variant : Bytes → Fields → AbiType

  pub data Fields : Type 0 where
    no_fields : Fields
    field : Bytes → AbiType → Fields → Fields

abbrev pub type_name : AbiType → Bytes
type_name (builtin n) = n
type_name (optional_of n t) = n
type_name (array_of n t) = n
type_name (struct_ n fs) = n
type_name (variant n fs) = n

-- `operator==` on `std::string`.
unfoldable pub bytes_eq : Bytes → Bytes → Bool
bytes_eq [] [] = true
bytes_eq [] (d ∷ t) = false
bytes_eq (c ∷ s) [] = false
bytes_eq (c ∷ s) (d ∷ t) = (c == d) && bytes_eq s t

-- A reader takes a value from the front of the stream, and gives its SQL text and the rest.
abbrev pub Reader : Type 0
Reader = Bytes → Result (Bytes × Bytes)

-- `abieos_sql_converter::sql_type`
pub record SqlType : Type 0 where
  pub name : Bytes
  pub bin_to_sql : Option Reader

-- `abieos_sql_converter::field_def`
pub record FieldDef : Type 0 where
  pub name : Bytes
  pub type : Bytes

-- The two members of the converter that the functions read.
pub record Converter : Type 0 where
  pub schema_name : Bytes
  pub basic_converters : Bytes → Option SqlType

abbrev pub in_schema : Converter → Bytes → Bytes
in_schema c n = c.schema_name ++ b'.' ∷ n

-- The last branch of `get_field_def`.
unfoldable pub basic_type : Converter → Bytes → Result Bytes
basic_type c n = do
  it ← or_throw (c.basic_converters n) "don't know sql type for abi type"
  ok (if bytes_eq it.name (codes "transaction_status_type") then in_schema c it.name else it.name)

-- `get_field_def(…).type`. One `optional_of` or `array_of` is taken off; below it another one has
-- only its name looked up. A struct with one field has the SQL type of that field. The source
-- reads `fields[0]` of an empty struct, which is undefined; here it fails.
unfoldable mutual
  pub field_type : Converter → AbiType → Result Bytes
  field_type c (builtin n) = basic_type c n
  field_type c (optional_of n t) = element_type c t
  field_type c (array_of n t) = element_type c t >>= λ r. ok (r ++ codes "[]")
  field_type c (struct_ n fs) = struct_type c n fs
  field_type c (variant n fs) = ok (in_schema c n)

  pub element_type : Converter → AbiType → Result Bytes
  element_type c (builtin n) = basic_type c n
  element_type c (optional_of n t) = basic_type c n
  element_type c (array_of n t) = basic_type c n
  element_type c (struct_ n fs) = struct_type c n fs
  element_type c (variant n fs) = ok (in_schema c n)

  pub struct_type : Converter → Bytes → Fields → Result Bytes
  struct_type c n no_fields = err "fields[0]"
  struct_type c n (field f t no_fields) = field_type c t
  struct_type c n (field f t (field g u fs)) = ok (in_schema c n)

unfoldable pub get_field_def : Converter → Bytes → AbiType → Result FieldDef
get_field_def c n t = do type ← field_type c t; ok (record { name = n; type = type })

unfoldable pub get_field_defs : Converter → Fields → Result (List FieldDef)
get_field_defs c no_fields = ok []
get_field_defs c (field n t fs) = do d ← get_field_def c n t; ds ← get_field_defs c fs; ok (d ∷ ds)

-- ===== src/SqlConverter/Union.antt =====
-- `union_fields_t` of src/abieos_sql_converter.cpp: the columns that hold any alternative of a
-- variant.
use history_tools.Common.{
  ◌++◌, List, [], ◌∷◌, if◌then◌else◌, Bytes, Option, none, some, Result, ok, ◌>>=◌,
}
use history_tools.SqlConverter.Types.{
  AbiType, builtin, optional_of, array_of, struct_, variant, Fields, no_fields, field, bytes_eq,
  FieldDef, Converter, get_field_def,
}

-- `std::find_if` by name: what stands before the item, the item, and what stands behind it.
unfoldable pub find_name : Bytes → List FieldDef → Option (List FieldDef × FieldDef × List FieldDef)
find_name n [] = none
find_name n (d ∷ ds) =
    let further : Option (List FieldDef × FieldDef × List FieldDef) = elim (find_name n ds) [
      | none ↦ none
      | some (before, item, after) ↦ some (d ∷ before, item, after)
    ] in
    if bytes_eq d.name n then some ([], d, ds) else further

-- The vector under construction and `pending_fields`.
pub record Union : Type 0 where
  pub items : List FieldDef
  pub pending : List FieldDef

-- A field whose name stands in the vector: the pending fields go before it. If the types differ,
-- the old item is renamed after the alternative before this one and the new field follows it.
unfoldable pub merge_field :
    Bytes → FieldDef → List FieldDef → List FieldDef → FieldDef → List FieldDef → Union
merge_field previous f_def pending before item after =
    if bytes_eq item.type f_def.type
    then record { items = before ++ (pending ++ item ∷ after); pending = [] }
    else record {
      items =
          before
          ++ (pending
              ++ record { name = previous ++ b'_' ∷ item.name; type = item.type } ∷ f_def ∷ after);
      pending = [];
    }

-- One round of the loop over the fields of an alternative.
unfoldable pub add_field : Bytes → FieldDef → Union → Union
unfolding find_name merge_field
add_field previous f_def u = elim (find_name f_def.name u.items) [
  | none ↦ record u { pending = u.pending ++ f_def ∷ [] }
  | some (before, item, after) ↦ merge_field previous f_def u.pending before item after
]

unfoldable pub add_struct : Converter → Bytes → Fields → Union → Result Union
add_struct c previous no_fields u = ok u
add_struct c previous (field n t fs) u = do
  f_def ← get_field_def c n t
  add_struct c previous fs (add_field previous f_def u)

-- One alternative: its fields if it is a struct, and itself as one column if not.
unfoldable pub add_alternative :
    Converter → Bytes → Bytes → AbiType → List FieldDef → Result (List FieldDef)
add_alternative c previous n (struct_ m fs) items = do
  u ← add_struct c previous fs (record { items = items; pending = [] })
  ok (u.items ++ u.pending)
add_alternative c previous n (builtin m) items = do
  d ← get_field_def c n (builtin m)
  ok (items ++ d ∷ [])
add_alternative c previous n (optional_of m t) items = do
  d ← get_field_def c n (optional_of m t)
  ok (items ++ d ∷ [])
add_alternative c previous n (array_of m t) items = do
  d ← get_field_def c n (array_of m t)
  ok (items ++ d ∷ [])
add_alternative c previous n (variant m fs) items = do
  d ← get_field_def c n (variant m fs)
  ok (items ++ d ∷ [])

-- `previous` is the name of `elements[i - 1]`; the source would read out of bounds where the first
-- alternative names a field twice, with two types.
unfoldable pub add_alternatives :
    Converter → Bytes → Fields → List FieldDef → Result (List FieldDef)
add_alternatives c previous no_fields items = ok items
add_alternatives c previous (field n t fs) items = do
  items' ← add_alternative c previous n t items
  add_alternatives c n fs items'

unfoldable pub union_fields : Converter → Fields → Result (List FieldDef)
union_fields c elements = add_alternatives c [] elements []

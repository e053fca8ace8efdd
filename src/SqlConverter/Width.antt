-- ===== src/SqlConverter/Width.antt =====
-- A row has a value for each column of its table, whatever the data.
use history_tools.Common.{
  ◌≡◌, refl, ap, ◌∙◌, false, ◌++◌, List, [], ◌∷◌, Bytes, Result, ok, >>=-eq-ok, arith, length, inl,
  inr, append_assoc, append-nil, Bool-cases, get_elem?, or_throw,
}
use history_tools.SqlConverter.Escape.{FieldKind}
use history_tools.SqlConverter.Types.{
  AbiType, builtin, optional_of, array_of, struct_, variant, Fields, no_fields, field, FieldDef,
  Converter, get_field_defs, get_field_def,
}
use history_tools.SqlConverter.Union.{union_fields}
use history_tools.SqlConverter.Value.{
  Library, Column, Alternative, read_columns, fill_union, columns, alternatives, struct_values,
  variant_values, read_variant, is_column, row_values,
}
use history_tools.SqlConverter.Create.{
  Created, create_fields, create_elements, create_sql_type, column_defs, column_def, table_fields,
  table_query, create_table, exec,
}

module _ (c : Converter) (kind : FieldKind) (alternative : Bytes) where
  length-fill_union :
      (ds : List FieldDef) (cols : List Column) (bin : Bytes) {vs : List Bytes} {rest : Bytes}
      {left : List Column}
      → fill_union c kind alternative ds cols bin ≡ ok (vs, rest, left)
      → length vs ≡ length ds
  unfolding fill_union
  length-fill_union [] cols bin h = ground arith
  length-fill_union (d ∷ ds) [] bin h =
      let ((ws, rest, left), e, r) = >>=-eq-ok (fill_union c kind alternative ds [] bin) _ h in
      ground (arith, length-fill_union ds [] bin e)
  length-fill_union (d ∷ ds) ((n, reader) ∷ cols) bin h =
      elim (Bool-cases (is_column alternative d.name n)) [
        | inl t ↦
            let h' = rw t at h in
            let ((v, bin'), _, r) = >>=-eq-ok (reader kind bin) _ h' in
            let ((ws, rest, left), e, r') =
              >>=-eq-ok (fill_union c kind alternative ds cols bin') _ r in
            ground (arith, length-fill_union ds cols bin' e)
        | inr t ↦
            let h' = rw t at h in
            let ((ws, rest, left), e, r) =
              >>=-eq-ok (fill_union c kind alternative ds ((n, reader) ∷ cols) bin) _ h' in
            ground (arith, length-fill_union ds ((n, reader) ∷ cols) bin e)
      ]

length-read_columns :
    (cols : List Column) (kind : FieldKind) (bin : Bytes) {vs : List Bytes} {rest : Bytes}
    → read_columns cols kind bin ≡ ok (vs, rest)
    → length vs ≡ length cols
unfolding read_columns
length-read_columns [] kind bin h = ground arith
length-read_columns ((n, reader) ∷ cols) kind bin h =
    let ((v, bin'), _, r) = >>=-eq-ok (reader kind bin) _ h in
    let ((ws, rest), e, r') = >>=-eq-ok (read_columns cols kind bin') _ r in
    ground (arith, length-read_columns cols kind bin' e)

-- What `create_table` and `to_sql_values` both follow: the columns behind the prefix.
unfoldable pub table_columns : Converter → AbiType → Result (List FieldDef)
table_columns c (struct_ n fs) = get_field_defs c fs
table_columns c (variant n fs) = union_fields c fs
table_columns c (builtin n) = ok []
table_columns c (optional_of n t) = ok []
table_columns c (array_of n t) = ok []

length-get_field_defs :
    (lib : Library) (c : Converter) (fs : Fields) {ds : List FieldDef}
    → get_field_defs c fs ≡ ok ds
    → length (columns lib c fs) ≡ length ds
unfolding get_field_defs columns
length-get_field_defs lib c no_fields h = ground arith
length-get_field_defs lib c (field n t fs) h =
    let (d, _, r) = >>=-eq-ok (get_field_def c n t) _ h in
    let (es, e, r') = >>=-eq-ok (get_field_defs c fs) _ r in
    ground (arith, length-get_field_defs lib c fs e)

length-read_variant :
    (lib : Library) (c : Converter) (fs : Fields) (alts : List Alternative) (kind : FieldKind)
    (bin : Bytes) {ds : List FieldDef} {vs : List Bytes} {rest : Bytes} {left : List Column}
    → union_fields c fs ≡ ok ds
    → read_variant lib c fs alts kind bin ≡ ok (vs, rest, left)
    → length vs ≡ length ds
unfolding read_variant
length-read_variant lib c fs alts kind bin {ds} u h =
    let ((v, bin'), _, r) = >>=-eq-ok (lib.varuint32_from_bin bin) _ h in
    let ((name, as_struct), _, r2) = >>=-eq-ok (or_throw (get_elem? alts v) "vector::at") _ r in
    let (es, e, r3) = >>=-eq-ok (union_fields c fs) _ r2 in
    let (cols, _, r4) = >>=-eq-ok (or_throw as_struct "not a struct") _ r3 in
    let same : es ≡ ds = cc in
    length-fill_union c kind name es cols bin' r4 ∙ ap (λ l. length l) same

length-variant_values :
    (lib : Library) (c : Converter) (fs : Fields) (kind : FieldKind) (bin : Bytes)
    {ds : List FieldDef} {vs : List Bytes} {rest : Bytes}
    → union_fields c fs ≡ ok ds
    → variant_values lib c fs kind bin ≡ ok (vs, rest)
    → length vs ≡ length ds
unfolding variant_values
length-variant_values lib c fs kind bin u h =
    let ((ws, rest', left), e, r) =
      >>=-eq-ok (read_variant lib c fs (alternatives lib c fs) kind bin) _ h in
    ground (arith, length-read_variant lib c fs (alternatives lib c fs) kind bin u e)

-- If a table's columns can be found, every row of it that is read from a stream has exactly one
-- value for each column.
pub length-row_values :
    (lib : Library) (c : Converter) (type : AbiType) (kind : FieldKind) (bin : Bytes)
    {ds : List FieldDef} {vs : List Bytes} {rest : Bytes}
    → table_columns c type ≡ ok ds
    → row_values lib c type kind bin ≡ ok (vs, rest)
    → length vs ≡ length ds
unfolding table_columns row_values struct_values
length-row_values lib c (struct_ n fs) kind bin u h =
    length-read_columns (columns lib c fs) kind bin h ∙ length-get_field_defs lib c fs u
length-row_values lib c (variant n fs) kind bin u h = length-variant_values lib c fs kind bin u h
length-row_values lib c (builtin n) kind bin u h = cc
length-row_values lib c (optional_of n t) kind bin u h = cc
length-row_values lib c (array_of n t) kind bin u h = cc

create_fields-eq :
    (c : Converter) (fs : Fields) (text : Bytes) (st : Created) {out : Bytes × Created}
    → create_fields c fs text st ≡ ok out
    → (ds : List FieldDef) × (get_field_defs c fs ≡ ok ds) × (out.0 ≡ text ++ column_defs ds)
unfolding create_fields get_field_defs column_defs
create_fields-eq c no_fields text st h = ([], refl, ground (arith, append-nil text))
create_fields-eq c (field n t fs) text st {out} h =
    let (st', _, r) = >>=-eq-ok (create_sql_type c t false st) _ h in
    let (d, ed, r2) = >>=-eq-ok (get_field_def c n t) _ r in
    let (ds, eds, eout) = create_fields-eq c fs (text ++ column_def d) st' r2 in
    (d ∷ ds, ground (arith, ed, eds), eout ∙ append_assoc text (column_def d) (column_defs ds))

table_fields-eq :
    (c : Converter) (type : AbiType) (text : Bytes) (st : Created) {out : Bytes × Created}
    → table_fields c type text st ≡ ok out
    → (ds : List FieldDef) × (table_columns c type ≡ ok ds) × (out.0 ≡ text ++ column_defs ds)
unfolding table_fields table_columns
table_fields-eq c (struct_ n fs) text st h = create_fields-eq c fs text st h
table_fields-eq c (variant n fs) text st h =
    let (st', _, r) = >>=-eq-ok (create_elements c fs st) _ h in
    let (ds, e, r2) = >>=-eq-ok (union_fields c fs) _ r in (ds, e, ground arith)
table_fields-eq c (builtin n) text st h =
    ([], refl, unfold column_defs in ground (arith, append-nil text))
table_fields-eq c (optional_of n t) text st h =
    ([], refl, unfold column_defs in ground (arith, append-nil text))
table_fields-eq c (array_of n t) text st h =
    ([], refl, unfold column_defs in ground (arith, append-nil text))

-- If `create_table` does not throw, the last statement that it executes creates the table with a
-- column for each of `table_columns`, behind the prefix and in that order.
pub create_table_columns :
    (lib : Library) (c : Converter) (name : Bytes) (type : AbiType) (prefix : Bytes)
    (keys : List Bytes) (st st' : Created)
    → create_table lib c name type prefix keys st ≡ ok st'
    → (ds : List FieldDef) × (earlier : List Bytes) × (table_columns c type ≡ ok ds)
      × (st'.executed ≡ earlier ++ table_query lib c name (prefix ++ column_defs ds) keys ∷ [])
unfolding create_table exec
create_table_columns lib c name type prefix keys st st' h =
    let ((text, st1), e, r) = >>=-eq-ok (table_fields c type prefix st) _ h in
    let (ds, eds, etext) = table_fields-eq c type prefix st e in
    (ds, st1.executed, eds, ground (arith, etext))

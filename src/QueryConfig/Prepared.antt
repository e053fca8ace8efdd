-- ===== src/QueryConfig/Prepared.antt =====
-- Each step of `prepare` of src/query_config.hpp keeps what is resolved.
use history_tools.Common.{
  ◌<◌, ◌≡◌, refl, subst, ◌++◌, List, [], ◌∷◌, Bytes, Option, some, ok, >>=-eq-ok, ok-injective,
  or_throw, throw_if, All-append, Bool-cases, inl, inr, length, is_empty, ◌==◌, ◌||◌, check,
}
use history_tools.SqlConverter.Types.{bytes_eq}
use history_tools.Kv.Types.{KvType}
use history_tools.QueryConfig.Types.{
  TableDef, IndexDef, QueryDef, FieldObj, TableObj, IndexObj, JoinObj, QueryObj, PreparedConfig,
}
use history_tools.QueryConfig.Prepare.{
  find_last, find_table_obj, is_some, find_index_obj, set_key_fields, set_join_key_fields,
  add_types, prepare_tables, prepare_index, prepare_indexes, prepare_join, prepare_query,
  prepare_queries, set_trim_index, set_trim_indexes, prepare,
}
use history_tools.QueryConfig.InRange.{
  or_throw-ok, >>-ok, set_key_fields-All, set_join_key_fields-All, prepare_tables-InRange, AllSame,
  SameFields,
}
use history_tools.QueryConfig.Resolved.{
  IsResolved, OfTable, IndexResolved, QueryResolved, JoinResolved, modify_table-AllSame,
  IsResolved-same, keys_of_table,
}

abbrev IsBelow : TableObj → FieldObj → Type 0
IsBelow t f = f.field.field_index < length t.fields

prepare_index-IsResolved :
    (type_map : Bytes → Option KvType) (d : IndexDef) (c c' : PreparedConfig)
    → prepare_index type_map d c ≡ ok c'
    → IsResolved c
    → IsResolved c'
unfolding prepare_index
prepare_index-IsResolved type_map d c c' e r =
    let h0 = >>-ok (throw_if (is_some (find_index_obj d.index c.indexes)) _) _ e in
    let h1 =
      >>-ok
        (throw_if (is_some (find_last (λ (i : IndexObj). i.short_name == d.short_name) c.indexes))
          _)
        _ h0 in
    let (t, e2, h2) = >>=-eq-ok (or_throw (find_table_obj d.table c.tables) _) _ h1 in
    let h3 = >>-ok (throw_if (is_some (find_last (λ i. bytes_eq i d.index) t.indexes)) _) _ h2 in
    let (keys, e4, h4) = >>=-eq-ok (set_key_fields t.fields d.sort_keys) _ h3 in
    let (types, e5, h5) = >>=-eq-ok (add_types type_map t.fields d.sort_keys) _ h4 in
    let (count, table) =
      keys_of_table c d.table t r (or_throw-ok (find_table_obj d.table c.tables) _ e2) in
    let index : IndexObj = record {
      short_name = d.short_name;
      index = d.index;
      table_obj = d.table;
      only_for_trim = d.only_for_trim;
      sort_keys = keys;
      range_types = types;
    } in
    let resolved : IndexResolved c.tables index = (
      length t.fields,
      count,
      set_key_fields-All (IsBelow t) t.fields d.sort_keys keys table.0 e4,
    ) in
    subst IsResolved (ok-injective h5) (
      IsResolved-same c.tables _ (c.indexes ++ index ∷ []) c.queries
        (modify_table-AllSame d.table d.index c.tables)
        (record {
          in_tables = r.in_tables;
          in_indexes =
              All-append (IndexResolved c.tables) c.indexes (index ∷ []) r.in_indexes
                (resolved, tt);
          in_queries = r.in_queries;
        }))

prepare_indexes-IsResolved :
    (type_map : Bytes → Option KvType) (ds : List IndexDef) (c c' : PreparedConfig)
    → prepare_indexes type_map ds c ≡ ok c'
    → IsResolved c
    → IsResolved c'
unfolding prepare_indexes
prepare_indexes-IsResolved type_map [] c c' e r = subst IsResolved (ok-injective e) r
prepare_indexes-IsResolved type_map (d ∷ ds) c c' e r =
    let (c1, e1, h1) = >>=-eq-ok (prepare_index type_map d c) _ e in
    prepare_indexes-IsResolved type_map ds c1 c' h1 (prepare_index-IsResolved type_map d c c1 e1 r)

prepare_join-JoinResolved :
    (d : QueryDef) (c : PreparedConfig) (j : Option JoinObj)
    → prepare_join d c ≡ ok j
    → IsResolved c
    → JoinResolved c.tables j
unfolding prepare_join
prepare_join-JoinResolved d c j e r = elim (Bool-cases (is_empty d.join)) [
  | inl none_ ↦ subst (JoinResolved c.tables) (ok-injective (rw none_ at e)) tt
  | inr joined ↦
      let (t, e1, h1) =
        >>=-eq-ok (or_throw (find_table_obj d.join c.tables) _) _ (rw joined at e) in
      let (fields, e2, h2) = >>=-eq-ok (set_key_fields t.fields d.fields_from_join) _ h1 in
      let h3 =
        >>-ok
          (check
            (d.join_query_short_name == d.short_name
              || is_some
                  (find_last (λ (q : QueryObj). q.short_name == d.join_query_short_name) c.queries))
            "unknown join_query_short_name")
          _ h2 in
      let (count, table) =
        keys_of_table c d.join t r (or_throw-ok (find_table_obj d.join c.tables) _ e1) in
      let resolved : OfTable c.tables d.join fields = (
        length t.fields,
        count,
        set_key_fields-All (IsBelow t) t.fields d.fields_from_join fields table.0 e2,
      ) in
      subst (JoinResolved c.tables)
        {x = some (record {
          join_table = d.join;
          join_query = d.join_query_short_name;
          fields_from_join = fields;
        })}
        (ok-injective h3) resolved
]

prepare_query-IsResolved :
    (d : QueryDef) (c c' : PreparedConfig)
    → prepare_query d c ≡ ok c'
    → IsResolved c
    → IsResolved c'
unfolding prepare_query
prepare_query-IsResolved d c c' e r =
    let (i, e1, h1) = >>=-eq-ok (or_throw (find_index_obj d.index c.indexes) _) _ e in
    let (t, e2, h2) = >>=-eq-ok (or_throw (find_table_obj d.table c.tables) _) _ h1 in
    let h3 = >>-ok (throw_if i.only_for_trim _) _ h2 in
    let (keys, e4, h4) = >>=-eq-ok (set_join_key_fields t.fields d.join_key_values) _ h3 in
    let (join, e5, h5) = >>=-eq-ok (prepare_join d c) _ h4 in
    let (count, table) =
      keys_of_table c d.table t r (or_throw-ok (find_table_obj d.table c.tables) _ e2) in
    subst IsResolved (ok-injective h5) (record {
      in_tables = r.in_tables;
      in_indexes = r.in_indexes;
      in_queries = All-append (QueryResolved c.tables) c.queries _ r.in_queries (
        (
          (
            length t.fields,
            count,
            set_join_key_fields-All (IsBelow t) t.fields d.join_key_values keys table.0 e4,
          ),
          prepare_join-JoinResolved d c join e5 r,
        ),
        tt,
      );
    })

prepare_queries-IsResolved :
    (ds : List QueryDef) (c c' : PreparedConfig)
    → prepare_queries ds c ≡ ok c'
    → IsResolved c
    → IsResolved c'
unfolding prepare_queries
prepare_queries-IsResolved [] c c' e r = subst IsResolved (ok-injective e) r
prepare_queries-IsResolved (d ∷ ds) c c' e r =
    let (c1, e1, h1) = >>=-eq-ok (prepare_query d c) _ e in
    prepare_queries-IsResolved ds c1 c' h1 (prepare_query-IsResolved d c c1 e1 r)

set_trim_index-SameFields : (t u : TableObj) → set_trim_index t ≡ ok u → SameFields t u
unfolding set_trim_index
set_trim_index-SameFields t u e = elim (Bool-cases (is_empty t.trim_index)) [
  | inl none_ ↦ subst (SameFields t) (ok-injective (rw none_ at e)) (refl, refl, refl)
  | inr some_ ↦
      let (i, e1, h1) =
        >>=-eq-ok (or_throw (find_last (λ i. bytes_eq i t.trim_index) t.indexes) _) _
          (rw some_ at e) in
      subst (SameFields t) (ok-injective h1) (refl, refl, refl)
]

set_trim_indexes-AllSame : (ts us : List TableObj) → set_trim_indexes ts ≡ ok us → AllSame ts us
unfolding set_trim_indexes
set_trim_indexes-AllSame [] us e = subst (AllSame []) (ok-injective e) tt
set_trim_indexes-AllSame (t ∷ ts) us e =
    let (u, e1, h1) = >>=-eq-ok (set_trim_index t) _ e in
    let (more, e2, h2) = >>=-eq-ok (set_trim_indexes ts) _ h1 in
    subst (AllSame (t ∷ ts)) (ok-injective h2)
      (set_trim_index-SameFields t u e1, set_trim_indexes-AllSame ts more e2)

-- Where `prepare` returns, every key of a table, of an index, of a query and of its join has an index
-- below the number of fields of the table that it is for, and the tables of the indexes, of the queries
-- and of the joins exist.
pub prepare-IsResolved :
    (type_map : Bytes → Option KvType) (tables : List TableDef) (indexes : List IndexDef)
    (queries : List QueryDef) (c : PreparedConfig)
    → prepare type_map tables indexes queries ≡ ok c
    → IsResolved c
unfolding prepare
prepare-IsResolved type_map tables indexes queries c e =
    let (ts, e1, h1) = >>=-eq-ok (prepare_tables type_map tables) _ e in
    let start : PreparedConfig = record { tables = ts; indexes = []; queries = [] } in
    let (c1, e2, h2) = >>=-eq-ok (prepare_indexes type_map indexes start) _ h1 in
    let (c2, e3, h3) = >>=-eq-ok (prepare_queries queries c1) _ h2 in
    let (us, e4, h4) = >>=-eq-ok (set_trim_indexes c2.tables) _ h3 in
    let r0 : IsResolved start = record {
      in_tables = prepare_tables-InRange type_map tables ts e1;
      in_indexes = tt;
      in_queries = tt;
    } in
    let r2 =
      prepare_queries-IsResolved queries c1 c2 e3
        (prepare_indexes-IsResolved type_map indexes start c1 e2 r0) in
    subst IsResolved (ok-injective h4) (
      IsResolved-same c2.tables us c2.indexes c2.queries (set_trim_indexes-AllSame c2.tables us e4)
        r2)

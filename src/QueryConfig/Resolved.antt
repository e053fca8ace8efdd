-- ===== src/QueryConfig/Resolved.antt =====
-- `prepare` of src/query_config.hpp keeps the fields of the tables, and every key of an index or of a
-- query is one of them.
use history_tools.Common.{
  ℕ, ◌≡◌, refl, sym, ◌∙◌, subst, ◌++◌, List, [], ◌∷◌, Bytes, Option, none, some, All, Bool-cases,
  inl, inr, length,
}
use history_tools.QueryConfig.Types.{
  FieldObj, TableObj, IndexObj, JoinObj, QueryObj, PreparedConfig,
}
use history_tools.QueryConfig.Prepare.{find_last, is_table, find_table_obj, is_some, modify_table}
use history_tools.QueryConfig.InRange.{
  InRange, TableInRange, find_last-All, count_of, fields_of, AllSame, fields_of-same, AllSame-refl,
}

-- Fields of the table of that name.
abbrev pub OfTable : List TableObj → Bytes → List FieldObj → Type 0
OfTable tables name fields = (m : ℕ) × (fields_of tables name ≡ some m) × InRange m fields

abbrev pub JoinResolved : List TableObj → Option JoinObj → Type 0
JoinResolved tables none = Unit
JoinResolved tables (some j) = OfTable tables j.join_table j.fields_from_join

abbrev pub IndexResolved : List TableObj → IndexObj → Type 0
IndexResolved tables i = OfTable tables i.table_obj i.sort_keys

abbrev pub QueryResolved : List TableObj → QueryObj → Type 0
QueryResolved tables q = OfTable tables q.table_obj q.join_key_values × JoinResolved tables q.join

pub record IsResolved (c : PreparedConfig) : Type 0 where
  pub in_tables : All TableInRange c.tables
  pub in_indexes : All (IndexResolved c.tables) c.indexes
  pub in_queries : All (QueryResolved c.tables) c.queries

pub modify_table-AllSame :
    (name : Bytes) (index : Bytes) (ts : List TableObj)
    → AllSame ts (modify_table name (λ t. record t { indexes = t.indexes ++ index ∷ [] }) ts)
unfolding modify_table
modify_table-AllSame name index [] = tt
modify_table-AllSame name index (t ∷ ts) =
    elim (Bool-cases (is_some (find_last (is_table name) ts))) [
      | inl later ↦ rw later ((refl, refl, refl), modify_table-AllSame name index ts)
      | inr here ↦ elim (Bool-cases (is_table name t)) [
        | inl it ↦ rw (here, it) ((refl, refl, refl), AllSame-refl ts)
        | inr other ↦ rw (here, other) ((refl, refl, refl), AllSame-refl ts)
      ]
    ]

TableInRange-same :
    (ts us : List TableObj) → AllSame ts us → All TableInRange ts → All TableInRange us
TableInRange-same [] [] h a = tt
TableInRange-same [] (u ∷ us) h a = absurd h
TableInRange-same (t ∷ ts) [] h a = absurd h
TableInRange-same (t ∷ ts) (u ∷ us) ((en, ef, ek), hs) (a, as_) = (
  subst (λ (q : List FieldObj × List FieldObj). InRange (length q.0) q.0 × InRange (length q.0) q.1)
      {y = (u.fields, u.keys)} (λ i. (ef i, ek i)) a,
  TableInRange-same ts us hs as_,
)

OfTable-same :
    (ts us : List TableObj) (name : Bytes) (fields : List FieldObj)
    → AllSame ts us
    → OfTable ts name fields
    → OfTable us name fields
OfTable-same ts us name fields h (m, e, inside) = (m, sym (fields_of-same ts us name h) ∙ e, inside)

JoinResolved-same :
    (ts us : List TableObj) (j : Option JoinObj)
    → AllSame ts us
    → JoinResolved ts j
    → JoinResolved us j
JoinResolved-same ts us none h r = tt
JoinResolved-same ts us (some j) h r = OfTable-same ts us j.join_table j.fields_from_join h r

pub All-map :
    {A : Type 0} {P Q : A → Type 0} (f : (a : A) → P a → Q a) (xs : List A) → All P xs → All Q xs
All-map f [] h = tt
All-map f (x ∷ xs) (hx, hs) = (f x hx, All-map f xs hs)

-- The same tables but for what is not read of them.
pub IsResolved-same :
    (ts us : List TableObj) (indexes : List IndexObj) (queries : List QueryObj)
    → AllSame ts us
    → IsResolved (record { tables = ts; indexes = indexes; queries = queries })
    → IsResolved (record { tables = us; indexes = indexes; queries = queries })
IsResolved-same ts us indexes queries h r = record {
  in_tables = TableInRange-same ts us h r.in_tables;
  in_indexes = All-map (λ i. OfTable-same ts us i.table_obj i.sort_keys h) indexes r.in_indexes;
  in_queries =
      All-map
        (λ q (resolved : QueryResolved ts q). (
          OfTable-same ts us q.table_obj q.join_key_values h resolved.0,
          JoinResolved-same ts us q.join h resolved.1,
        ))
        queries r.in_queries;
}

-- The keys that are looked up in a table.
pub keys_of_table :
    (c : PreparedConfig) (name : Bytes) (t : TableObj)
    → IsResolved c
    → find_table_obj name c.tables ≡ some t
    → (fields_of c.tables name ≡ some (length t.fields)) × TableInRange t
unfolding find_table_obj
keys_of_table c name t r e =
    ((λ i. count_of (e i)), find_last-All TableInRange (is_table name) c.tables t r.in_tables e)

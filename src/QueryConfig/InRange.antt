-- ===== src/QueryConfig/InRange.antt =====
-- What `prepare` of src/query_config.hpp makes refers to fields that are there: `positions.at` of a
-- row, which has one position for each field of its table, does not throw.
use history_tools.Common.{
  ℕ, suc, ◌+◌, ◌<◌, ◌≡◌, ◌⊎◌, refl, sym, ◌∙◌, subst, Bool, List, [], ◌∷◌, if◌then◌else◌, Bytes,
  Option, none, some, Result, ok, err, >>=-eq-ok, ok-injective, or_throw, String, ◌>>◌, All, arith,
  Bool-cases, inl, inr, length,
}
use history_tools.SqlConverter.Types.{bytes_eq}
use history_tools.Kv.Types.{KvType}
use history_tools.QueryConfig.Types.{FieldDef, KeyDef, TableDef, FieldObj, TableObj}
use history_tools.QueryConfig.Prepare.{
  find_last, is_table, find_table_obj, find_field, set_key_fields, set_join_key_fields,
  prepare_fields, prepare_table, prepare_tables,
}

-- Fields of a table that has so many.
abbrev pub InRange : ℕ → List FieldObj → Type 0
InRange count fields = All (λ (f : FieldObj). f.field.field_index < count) fields

pub or_throw-ok :
    {A : Type 0} (o : Option A) (e : String) {a : A} → or_throw o e ≡ ok a → o ≡ some a
or_throw-ok none e h = cc
or_throw-ok (some a) e h = cc

pub >>-ok :
    {B : Type 0} (a : Result (Unit {0})) (rest : Result B) {b : B}
    → (a >> rest) ≡ ok b
    → rest ≡ ok b
>>-ok (err e) rest h = cc
>>-ok (ok done) rest h = h

last_cases :
    {A : Type 0} (p : A → Bool) (x y : A) (o : Option A)
    → elim o [ some z ↦ some z | none ↦ if p x then some x else none ] ≡ some y
    → (o ≡ some y) ⊎ (x ≡ y)
last_cases p x y none e = elim (Bool-cases (p x)) [
  | inl here ↦ let same : some x ≡ some y = rw here at e in inr (cc)
  | inr other ↦ let same : none ≡ some y = rw other at e in absurd (cc)
]
last_cases p x y (some z) e = inl e

pub find_last-All :
    {A : Type 0} (P : A → Type 0) (p : A → Bool) (xs : List A) (y : A)
    → All P xs
    → find_last p xs ≡ some y
    → P y
unfolding find_last
find_last-All P p [] y h e = absurd (cc)
find_last-All P p (x ∷ xs) y (hx, hs) e = elim (last_cases p x y (find_last p xs) e) [
  | inl later ↦ find_last-All P p xs y hs later
  | inr here ↦ subst P here hx
]

pub set_key_fields-All :
    (P : FieldObj → Type 0) (fields : List FieldObj) (keys : List KeyDef) (fs : List FieldObj)
    → All P fields
    → set_key_fields fields keys ≡ ok fs
    → All P fs
unfolding set_key_fields find_field
set_key_fields-All P fields [] fs h e = subst (All P) (ok-injective e) tt
set_key_fields-All P fields (k ∷ keys) fs h e =
    let (f, e1, h1) = >>=-eq-ok (or_throw (find_field k.name fields) _) _ e in
    let (more, e2, h2) = >>=-eq-ok (set_key_fields fields keys) _ h1 in
    subst (All P) (ok-injective h2) (
      find_last-All P _ fields f h (or_throw-ok (find_field k.name fields) _ e1),
      set_key_fields-All P fields keys more h e2,
    )

pub set_join_key_fields-All :
    (P : FieldObj → Type 0) (fields : List FieldObj) (keys : List KeyDef) (fs : List FieldObj)
    → All P fields
    → set_join_key_fields fields keys ≡ ok fs
    → All P fs
unfolding set_join_key_fields find_field
set_join_key_fields-All P fields [] fs h e = subst (All P) (ok-injective e) tt
set_join_key_fields-All P fields (k ∷ keys) fs h e =
    let (f, e1, h1) = >>=-eq-ok (or_throw (find_field k.join_src_name fields) _) _ e in
    let (more, e2, h2) = >>=-eq-ok (set_join_key_fields fields keys) _ h1 in
    subst (All P) (ok-injective h2) (
      find_last-All P _ fields f h (or_throw-ok (find_field k.join_src_name fields) _ e1),
      set_join_key_fields-All P fields keys more h e2,
    )

InRange-more : (m m' : ℕ) (fs : List FieldObj) → m ≡ m' → InRange m fs → InRange m' fs
InRange-more m m' fs e h = subst (λ k. InRange k fs) e h

module _ (type_map : Bytes → Option KvType) where
  prepare_fields-InRange :
      (i : ℕ) (defs : List FieldDef) (fs : List FieldObj)
      → prepare_fields type_map i defs ≡ ok fs
      → InRange (i + length fs) fs
  unfolding prepare_fields
  prepare_fields-InRange i [] fs e = subst (λ l. InRange (i + length l) l) (ok-injective e) tt
  prepare_fields-InRange i (d ∷ defs) fs e =
      let (t, e1, h1) = >>=-eq-ok (or_throw (type_map d.type) _) _ e in
      let (more, e2, h2) = >>=-eq-ok (prepare_fields type_map (i + 1) defs) _ h1 in
      subst (λ l. InRange (i + length l) l) (ok-injective h2)
        (
          omega arith,
          InRange-more (i + 1 + length more) (i + suc (length more)) more (omega arith)
              (prepare_fields-InRange (i + 1) defs more e2),
        )

-- The fields of a table, and its keys.
abbrev pub TableInRange : TableObj → Type 0
TableInRange t = InRange (length t.fields) t.fields × InRange (length t.fields) t.keys

prepare_table-InRange :
    (type_map : Bytes → Option KvType) (d : TableDef) (t : TableObj)
    → prepare_table type_map d ≡ ok t
    → TableInRange t
unfolding prepare_table
prepare_table-InRange type_map d t e =
    let (fields, e1, h1) = >>=-eq-ok (prepare_fields type_map 0 d.fields) _ e in
    let (keys, e2, h2) = >>=-eq-ok (set_key_fields fields d.keys) _ h1 in
    let inside : InRange (length fields) fields =
      InRange-more (0 + length fields) (length fields) fields (omega arith)
        (prepare_fields-InRange type_map 0 d.fields fields e1) in
    subst TableInRange (ok-injective h2) (
      inside,
      set_key_fields-All (λ (f : FieldObj). f.field.field_index < length fields) fields d.keys keys
          inside e2,
    )

pub prepare_tables-InRange :
    (type_map : Bytes → Option KvType) (ds : List TableDef) (ts : List TableObj)
    → prepare_tables type_map ds ≡ ok ts
    → All TableInRange ts
unfolding prepare_tables
prepare_tables-InRange type_map [] ts e = subst (All TableInRange) (ok-injective e) tt
prepare_tables-InRange type_map (d ∷ ds) ts e =
    let (t, e1, h1) = >>=-eq-ok (prepare_table type_map d) _ e in
    let (more, e2, h2) = >>=-eq-ok (prepare_tables type_map ds) _ h1 in
    subst (All TableInRange) (ok-injective h2)
      (prepare_table-InRange type_map d t e1, prepare_tables-InRange type_map ds more e2)

-- The number of fields of the table that the map has under a name.
abbrev pub count_of : Option TableObj → Option ℕ
count_of none = none
count_of (some t) = some (length t.fields)

abbrev pub fields_of : List TableObj → Bytes → Option ℕ
fields_of tables name = count_of (find_table_obj name tables)

fields_of-cons :
    (t : TableObj) (tables : List TableObj) (name : Bytes)
    → fields_of (t ∷ tables) name ≡ elim (fields_of tables name) [
      | some m ↦ some m
      | none ↦ if is_table name t then some (length t.fields) else none
    ]
unfolding find_table_obj find_last
fields_of-cons t tables name = last_count (find_last (is_table name) tables)
  where
    last_count :
        (o : Option TableObj)
        → count_of (elim o [ some z ↦ some z | none ↦ if is_table name t then some t else none ])
          ≡ elim (count_of o) [
            | some m ↦ some m
            | none ↦ if is_table name t then some (length t.fields) else none
          ]
    last_count none = elim (Bool-cases (is_table name t)) [ inl e ↦ rw e refl | inr e ↦ rw e refl ]
    last_count (some z) = refl

-- Tables of the same names and fields, one by one.
abbrev pub SameFields : TableObj → TableObj → Type 0
SameFields t u = (t.name ≡ u.name) × (t.fields ≡ u.fields) × (t.keys ≡ u.keys)

abbrev pub AllSame : List TableObj → List TableObj → Type 0
AllSame [] [] = Unit
AllSame [] (u ∷ us) = ⊥
AllSame (t ∷ ts) [] = ⊥
AllSame (t ∷ ts) (u ∷ us) = SameFields t u × AllSame ts us

pub fields_of-same :
    (ts us : List TableObj) (name : Bytes) → AllSame ts us → fields_of ts name ≡ fields_of us name
fields_of-same [] [] name h = refl
fields_of-same [] (u ∷ us) name h = absurd h
fields_of-same (t ∷ ts) [] name h = absurd h
fields_of-same (t ∷ ts) (u ∷ us) name ((en, ef, ek), hs) =
    fields_of-cons t ts name
    ∙ (λ i. elim (fields_of-same ts us name hs i) [
      | some m ↦ some m
      | none ↦ if bytes_eq (en i) name then some (length (ef i)) else none
    ])
    ∙ sym (fields_of-cons u us name)

pub AllSame-refl : (ts : List TableObj) → AllSame ts ts
AllSame-refl [] = tt
AllSame-refl (t ∷ ts) = ((refl, refl, refl), AllSame-refl ts)

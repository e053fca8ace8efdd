-- ===== src/FillRocks/Checked.antt =====
-- A `check` of src/fill_rocksdb_plugin.cpp that returns has seen the row of every index entry.
use history_tools.Common.{
  ℕ, ◌≡◌, refl, sym, ap, ◌∙◌, Bool, true, false, not, List, [], ◌∷◌, Bytes, Option, none, some,
  Result, ok, err, >>=-eq-ok, ok-injective, or_throw, throw_if, String, ◌>>◌, All, arith, ◌==◌,
}
use history_tools.Kv.Keys.{append_index_key_all, key_to_native, read_index_prefix}
use history_tools.Kv.Positions.{extract_pk_from_index}
use history_tools.Rdb.Range.{Entry}
use history_tools.Rdb.InRange.{IsRocksdb, in_range, select, visit, for_each-in_range}
use history_tools.Rdb.Database.{Rocksdb, exists}
use history_tools.FillRocks.State.{Session, Serial, Index, KvTable}
use history_tools.FillRocks.Check.{check_reference, check_entry, check_indexes}

module _ (n : Serial) (s : Session) (r : Rocksdb) (db : r.Db) where
  -- The index is one of the configuration, for the table that the key names, and the row whose key
  -- it spells is in the database.
  abbrev pub IsIndexed : Entry → Type 0
  IsIndexed e =
      (table : ℕ) × (index : ℕ) × (rest : Bytes) × (k1 : ℕ × Bytes) × (index_obj : Index)
      × (table_obj : KvTable) × (pk : Bytes) × (row : Bytes) × (key_to_native n.abieos 1 e.0
          ≡ ok k1)
      × (read_index_prefix n.abieos k1.1 ≡ ok (table, index, rest))
      × (s.query_config.index_name_map index ≡ some (index_obj, table_obj))
      × (table_obj.table.short_name ≡ table)
      × (extract_pk_from_index n.abieos e.0 table_obj.table index_obj.sort_keys ≡ ok pk)
      × (r.get db pk ≡ some row)

  or_throw-some :
      {A : Type 0} (o : Option A) (e : String) {a : A} → or_throw o e ≡ ok a → o ≡ some a
  or_throw-some none e h = cc
  or_throw-some (some a) e h = cc

  throw_if-ok : (b : Bool) (e : String) → throw_if b e ≡ ok tt → b ≡ false
  throw_if-ok true e h = cc
  throw_if-ok false e h = refl

  -- Of two calls that returned.
  >>-ok :
      {B : Type 0} (a : Result (Unit {0})) (rest : Result B) {b : B}
      → (a >> rest) ≡ ok b
      → (a ≡ ok tt) × (rest ≡ ok b)
  >>-ok (err e) rest h = cc
  >>-ok (ok done) rest h = (refl, h)

  exists-some :
      (o : Option Bytes)
      → not (elim o [ none ↦ false | some v ↦ true ]) ≡ false
      → (v : Bytes) × (o ≡ some v)
  exists-some none h = cc
  exists-some (some v) h = (v, refl)

  check_reference-row :
      (k : Bytes) (table : ℕ) (objs : Index × KvTable)
      → check_reference n s r db k table objs ≡ ok tt
      → (pk : Bytes) × (row : Bytes) × (objs.1.table.short_name ≡ table)
        × (extract_pk_from_index n.abieos k objs.1.table objs.0.sort_keys ≡ ok pk)
        × (r.get db pk ≡ some row)
  unfolding check_reference exists
  check_reference-row k table (index_obj, table_obj) h =
      let (e1, h1) = >>-ok (throw_if (not (table_obj.table.short_name == table)) _) _ h in
      let (pk, e2, h2) =
        >>=-eq-ok (extract_pk_from_index n.abieos k table_obj.table index_obj.sort_keys) _ h1 in
      let test = throw_if-ok (not (table_obj.table.short_name == table)) _ e1 in
      let (row, e3) = exists-some (r.get db pk) (throw_if-ok _ _ h2) in
      (pk, row, ground arith, e2, e3)

  check_entry-IsIndexed :
      (e : Entry) (done : Unit {0}) (q : Bool × Unit {0})
      → check_entry n s r db e.0 e.1 done ≡ ok q
      → (q.0 ≡ true) × IsIndexed e
  unfolding check_entry
  check_entry-IsIndexed e done q h =
      let (k1, e1, h1) = >>=-eq-ok (key_to_native n.abieos 1 e.0) _ h in
      let ((table, index, rest), e2, h2) = >>=-eq-ok (read_index_prefix n.abieos k1.1) _ h1 in
      let ((index_obj, table_obj), e3, h3) =
        >>=-eq-ok (or_throw (s.query_config.index_name_map index) "found unknown index") _ h2 in
      let (e4, h4) = >>-ok (check_reference n s r db e.0 table (index_obj, table_obj)) _ h3 in
      let (pk, row, e5, e6, e7) = check_reference-row e.0 table (index_obj, table_obj) e4 in
      (
        sym (ap (λ (o : Bool × Unit {0}). o.0) (ok-injective h4)),
        (
          table,
          index,
          rest,
          k1,
          index_obj,
          table_obj,
          pk,
          row,
          e1,
          e2,
          or_throw-some (s.query_config.index_name_map index) "found unknown index" e3,
          e5,
          e6,
          e7,
        ),
      )

  visit-IsIndexed :
      (es : List Entry) (done : Unit {0})
      → visit (check_entry n s r db) es done ≡ ok tt
      → All IsIndexed es
  unfolding visit
  visit-IsIndexed [] done h = tt
  visit-IsIndexed (e ∷ es) done h =
      let (q, e1, h1) = >>=-eq-ok (check_entry n s r db e.0 e.1 done) _ h in
      let (more, indexed) = check_entry-IsIndexed e done q e1 in
      (indexed, visit-IsIndexed es q.1 (rw more at h1))

  -- If RocksDB is in order and the check of the indexes returns, every entry between the first and
  -- the last index key is one of a known index and its table, and spells the key of a row that the
  -- database has.
  pub check_indexes-IsIndexed :
      IsRocksdb (r.iterator db)
      → check_indexes n s r db ≡ ok tt
      → All IsIndexed (
          select
            (in_range (append_index_key_all n.abieos) (append_index_key_all n.abieos))
            (r.iterator db).entries)
  unfolding check_indexes
  check_indexes-IsIndexed rocks h = visit-IsIndexed _ tt (
      sym (
        for_each-in_range (check_entry n s r db) (append_index_key_all n.abieos)
          (append_index_key_all n.abieos) (r.iterator db) tt rocks)
      ∙ h)

-- ===== src/FillRocks/Trimmed.antt =====
-- `trim` of src/fill_rocksdb_plugin.cpp removes rows with all their index entries.
use history_tools.Common.{
  ℕ, ◌≡◌, ap, inl, inr, Bool, ◌++◌, ◌-◌, ◌^◌, List, [], ◌∷◌, Bytes, Option, none, some, ok,
  >>=-eq-ok, ok-injective, or_throw, subst, All, ltb, leb, Bool-cases, min, length, String,
}
use history_tools.Calls.{continue-ok, pass}
use history_tools.Kv.Laws.{IsAbieos}
use history_tools.Kv.Keys.{
  tag_table, native_to_key, append_table_key_block, make_fill_status_key, read_index_prefix,
  key_to_native,
}
use history_tools.Kv.Positions.{
  extract_pk, extract_pk_fields, Positions, fill_positions_from_index, init_positions,
}
use history_tools.Rdb.Database.{WriteBatch, Rocksdb}
use history_tools.Rdb.Range.{Entry, for_each}
use history_tools.Rdb.Keeps.{IsStore, VisitKeeps, for_each-Keeps}
use history_tools.FillRocks.State.{QueryConfig, Serial, World, Session, KvTable, Index}
use history_tools.FillRocks.Rows.{remove_row, remove_row_at, read_row_key, get_kv_table}
use history_tools.FillRocks.Trim.{
  Scan, add_removal, trim_key, visit_row, scan_row, trim_entry, trim_range, trim_ranges, trim_batch,
}
use history_tools.FillRocks.Session.{trim}
use history_tools.FillRocks.Blocks.{status_write}
use history_tools.FillRocks.Covered.{
  tag_of, Contents, written, Covered, Covered-get, Removes, Removes-Covered, IsPlain,
}
use history_tools.FillRocks.Removal.{
  Removes-append, remove_row-Removes, tag_in_range, append_table_key_block-eq, tag-append_table_key,
  tag-make_fill_status_key,
}

module _ (r : Rocksdb) (store : IsStore r) (n : Serial) (h : IsAbieos n.abieos) (c : QueryConfig)
    (db : r.Db) (first end_trim : ℕ) where
  abbrev Removal : WriteBatch → Type 0
  Removal batch = All (Removes n c (r.get db) batch) batch

  add_removal-Removal :
      (k v : Bytes) (writes : WriteBatch × WriteBatch) (batch : WriteBatch)
      → tag_of k ≡ tag_table
      → r.get db k ≡ some v
      → remove_row n c k v ≡ ok writes
      → Removal batch
      → Removal (add_removal writes batch)
  unfolding add_removal
  add_removal-Removal k v writes batch t e removed d =
      Removes-append n h c (r.get db) batch (writes.1 ++ writes.0) d
        (remove_row-Removes n h c (r.get db) k v writes t e removed)

  visit_row-Removal :
      (block table : ℕ) (t : KvTable) (index : Option Index) (k v : Bytes) (s : Scan) (more : Bool)
      (s' : Scan)
      → tag_of k ≡ tag_table
      → r.get db k ≡ some v
      → visit_row n c first end_trim block table t index k v s ≡ ok (more, s')
      → Removal s.1
      → Removal s'.1
  unfolding visit_row
  visit_row-Removal block table t (some index) k v (keys, batch) more s' tk e called d =
      elim (Bool-cases (ltb first block)) [
        | inl later ↦
            let (key, e1, h1) =
              >>=-eq-ok (trim_key n c first end_trim table t index v) _ (rw later at called) in
            subst (λ (q : Bool × Scan). Removal q.1.1) (ok-injective h1) d
        | inr early ↦
            subst (λ (q : Bool × Scan). Removal q.1.1) (ok-injective (rw early at called)) d
      ]
  visit_row-Removal block table t none k v (keys, batch) more s' tk e called d =
      elim (Bool-cases (ltb block end_trim)) [
        | inl old ↦
            let (writes, e1, h1) = >>=-eq-ok (remove_row n c k v) _ (rw old at called) in
            subst (λ (q : Bool × Scan). Removal q.1.1) (ok-injective h1)
              (add_removal-Removal k v writes batch tk e e1 d)
        | inr late ↦ subst (λ (q : Bool × Scan). Removal q.1.1) (ok-injective (rw late at called)) d
      ]

  scan_row-Removal :
      VisitKeeps
        (λ (e : Entry). (tag_of e.0 ≡ tag_table) × (r.get db e.0 ≡ some e.1))
        (λ (s : Scan). Removal s.1)
        (scan_row n c first end_trim)
  unfolding scan_row
  scan_row-Removal k v s more s' (t, e) called d =
      let (row, e1, h1) = >>=-eq-ok (read_row_key n k) _ called in
      let (table, e2, h2) = >>=-eq-ok (get_kv_table n c row.1) _ h1 in
      visit_row-Removal row.0 row.1 table table.trim_index_obj k v s more s' t e h2 d

  extract_pk-tag :
      (index : Bytes) (t : KvTable) (block : ℕ) (present_k : Bool) (positions : Positions)
      (pk : Bytes)
      → extract_pk n.abieos index t.table block present_k positions ≡ ok pk
      → tag_of pk ≡ tag_table
  unfolding extract_pk
  extract_pk-tag index t block present_k positions pk e =
      let (fields, e1, h1) =
        >>=-eq-ok (extract_pk_fields n.abieos index t.table.keys positions) _ e in
      subst (λ k. tag_of k ≡ tag_table) (ok-injective h1)
        (tag-append_table_key n.abieos h block t.table.short_name present_k fields)

  or_throw-eq-ok :
      {A : Type 0} (o : Option A) (e : String) {a : A} → or_throw o e ≡ ok a → o ≡ some a
  or_throw-eq-ok none e h = cc
  or_throw-eq-ok (some a) e h = cc

  trim_entry-Removal :
      (t : KvTable) (index : Index)
      → VisitKeeps
          (λ _. Unit {0})
          (λ (s : ℕ × WriteBatch). Removal s.1)
          (trim_entry n c first end_trim r db t index)
  unfolding trim_entry remove_row_at
  trim_entry-Removal t index k v (prev_block, batch) more s' q called d =
      let (decoded, e1, h1) =
        >>=-eq-ok
          (fill_positions_from_index n.abieos k index.sort_keys
            (init_positions (length t.table.fields)))
          _ called in
      elim (Bool-cases (leb prev_block end_trim)) [
        | inl old ↦
            let (pk, e2, h2) =
              >>=-eq-ok (extract_pk n.abieos k t.table decoded.0 decoded.1 decoded.2) _
                (rw old at h1) in
            let (writes, e3, h3) = >>=-eq-ok (remove_row_at n r c db pk) _ h2 in
            let (u, e4, h4) = >>=-eq-ok (or_throw (r.get db pk) "get: ") _ e3 in
            let get_pk : r.get db pk ≡ some u = or_throw-eq-ok (r.get db pk) "get: " e4 in
            subst (λ (q : Bool × (ℕ × WriteBatch)). Removal q.1.1) (ok-injective h3)
              (add_removal-Removal pk u writes batch
                (extract_pk-tag k t decoded.0 decoded.1 decoded.2 pk e2) get_pk h4 d)
        | inr late ↦
            subst (λ (q : Bool × (ℕ × WriteBatch)). Removal q.1.1) (ok-injective (rw late at h1)) d
      ]

  trim_range-Removal :
      (range : Bytes) (batch batch' : WriteBatch)
      → trim_range n c first end_trim r db range batch ≡ ok batch'
      → Removal batch
      → Removal batch'
  unfolding trim_range
  trim_range-Removal range batch batch' e d =
      let (k1, e1, h1) = >>=-eq-ok (key_to_native n.abieos 1 range) _ e in
      let (names, e2, h2) = >>=-eq-ok (read_index_prefix n.abieos k1.1) _ h1 in
      let (t, e3, h3) = >>=-eq-ok (get_kv_table n c names.0) _ h2 in
      let (index, e4, h4) = >>=-eq-ok (or_throw t.trim_index_obj "trim_index_obj") _ h3 in
      let (s, e5, h5) =
        >>=-eq-ok
          (for_each (trim_entry n c first end_trim r db t index) (r.iterator db) range range
            (2 ^ 32 - 1, batch))
          _ h4 in
      subst Removal (ok-injective h5) (
        for_each-Keeps (λ (e : Entry). r.get db e.0 ≡ some e.1) (λ _. Unit {0})
          (λ (s : ℕ × WriteBatch). Removal s.1) (trim_entry n c first end_trim r db t index)
          (r.iterator db) range range (2 ^ 32 - 1, batch) s (store.in_order db) (store.listed db)
          (λ e listed within. tt) (trim_entry-Removal t index) e5 d)

  trim_ranges-Removal :
      (ranges : List Bytes) (batch batch' : WriteBatch)
      → trim_ranges n c first end_trim r db ranges batch ≡ ok batch'
      → Removal batch
      → Removal batch'
  unfolding trim_ranges
  trim_ranges-Removal [] batch batch' e d = subst Removal (ok-injective e) d
  trim_ranges-Removal (range ∷ ranges) batch batch' e d =
      let (b, e1, h1) = >>=-eq-ok (trim_range n c first end_trim r db range batch) _ e in
      trim_ranges-Removal ranges b batch' h1 (trim_range-Removal range batch b e1 d)

  trim_batch-Removal :
      (batch : WriteBatch) → trim_batch n c first end_trim r db ≡ ok batch → Removal batch
  unfolding trim_batch
  trim_batch-Removal batch e =
      let scan = scan_row n c first end_trim in
      let lower = append_table_key_block n.abieos first in
      let upper = append_table_key_block n.abieos end_trim in
      let (s, e1, h1) = >>=-eq-ok (for_each scan (r.iterator db) lower upper ([], [])) _ e in
      trim_ranges-Removal s.0 s.1 batch h1 (
        for_each-Keeps (λ (e : Entry). r.get db e.0 ≡ some e.1)
          (λ (e : Entry). (tag_of e.0 ≡ tag_table) × (r.get db e.0 ≡ some e.1))
          (λ (s : Scan). Removal s.1) scan (r.iterator db) lower upper ([], []) s
          (store.in_order db) (store.listed db)
          (λ e listed within. (
            tag_in_range tag_table (native_to_key n.abieos 4 first)
                (native_to_key n.abieos 4 end_trim) e
                (rw
                  (
                    append_table_key_block-eq n.abieos h first,
                    append_table_key_block-eq n.abieos h end_trim,
                  )
                  at within),
            listed,
          ))
          scan_row-Removal e1 tt)

module _ (r : Rocksdb) (store : IsStore r) (n : Serial) (h : IsAbieos n.abieos) where
  status-Removes :
      (c : QueryConfig) (db : Contents) (s : Session) (batch : WriteBatch)
      → IsPlain n c (make_fill_status_key n.abieos)
      → Removes n c db batch (status_write n s)
  unfolding status_write
  status-Removes c db s batch plain = (tag-make_fill_status_key n.abieos h, plain)

  -- If RocksDB is in order, abieos writes numbers with the lowest byte first, and the table of the
  -- fill status has no index, then behind a `trim` that returns every index entry refers to a row
  -- where every one did so before.
  pub trim-Covered :
      (w w' : World r)
      → IsPlain n w.session.query_config (make_fill_status_key n.abieos)
      → trim r n w ≡ (ok tt, w')
      → Covered n w.session.query_config (r.get w.db)
      → Covered n w.session.query_config (r.get w'.db)
  unfolding trim
  trim-Covered w w' plain done covered =
      let s = w.session in
      let c = s.query_config in
      let end_trim = min s.head s.irreversible in
      elim (Bool-cases (leb end_trim s.first)) [
        | inl early ↦
            subst (λ (q : World r). Covered n c (r.get q.db)) (ap (λ q. q.1) (rw early at done))
              covered
        | inr late ↦
            let (batch, e1, h1) =
              continue-ok _ (pass (trim_batch n c s.first end_trim r w.db) w) (rw late at done) in
            let s' : Session = record s { first = end_trim } in
            let all = batch ++ status_write n s' ∷ [] in
            subst (λ (q : World r). Covered n c (r.get q.db)) (ap (λ q. q.1) h1)
              (Covered-get n c (r.get (r.write all w.db)) (written all (r.get w.db))
                (λ key. store.writes.get-write all w.db key)
                (Removes-Covered n c (r.get w.db) all
                  (Removes-append n h c (r.get w.db) batch (status_write n s' ∷ [])
                    (trim_batch-Removal r store n h c w.db s.first end_trim batch e1)
                    (status-Removes c (r.get w.db) s' (status_write n s' ∷ []) plain, tt))
                  covered))
      ]

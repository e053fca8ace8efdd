-- ===== src/FillRocks/Truncated.antt =====
-- `truncate` of src/fill_rocksdb_plugin.cpp: where the program exits between its two writes, and
-- behind both, no index entry refers to a row that is gone.
use history_tools.Common.{
  ℕ, ◌≡◌, sym, ap, ◌∙◌, false, ◌++◌, [], some, ok, >>=-eq-ok, ok-injective, subst, All, All-append,
}
use history_tools.Calls.{continue-ok, pass}
use history_tools.Kv.Laws.{IsAbieos}
use history_tools.Kv.Keys.{tag_table, native_to_key, append_table_key_block, append_table_key_all}
use history_tools.Rdb.Database.{delete, WriteBatch, Rocksdb, after_writes}
use history_tools.Rdb.Range.{Entry}
use history_tools.Rdb.Keeps.{IsStore, VisitKeeps, for_each-Keeps}
use history_tools.FillRocks.State.{QueryConfig, Serial, World}
use history_tools.FillRocks.Rows.{remove_row}
use history_tools.FillRocks.Store.{Batches, remove_visited, truncate_batches, get_received_block}
use history_tools.FillRocks.Session.{truncate, before}
use history_tools.FillRocks.Covered.{
  tag_of, Contents, written, Covered, Covered-get, after_writes_append, Removes, Removes-Covered,
  All-map,
}
use history_tools.FillRocks.Removal.{
  DeletesIndex, DeletesRow, remove_row-Deletes, DeletesRow-more, DeletesIndex-Removes,
  DeletesRow-Removes, Among-append_left, Among-append_right, tag_in_range,
  append_table_key_block-eq, append_table_key_all-eq,
}

module _ (r : Rocksdb) (store : IsStore r) (n : Serial) (h : IsAbieos n.abieos)
    (c : QueryConfig) where
  -- A row that is there, at its table key.
  abbrev pub IsRow : Contents → Entry → Type 0
  IsRow db e = (tag_of e.0 ≡ tag_table) × (db e.0 ≡ some e.1)

  abbrev pub Deletions : Contents → Batches → Type 0
  Deletions db b = All DeletesIndex b.1 × All (DeletesRow n h c db b.1) b.0

  remove_visited-Deletions :
      (db : Contents) → VisitKeeps (IsRow db) (Deletions db) (remove_visited n c)
  unfolding remove_visited
  remove_visited-Deletions db k v s more s' (t, e) called (di, dr) =
      let (writes, removed, h1) = >>=-eq-ok (remove_row n c k v) _ called in
      let (wi, wr) = remove_row-Deletes n h c db k v writes t e removed in
      let index = s.1 ++ writes.1 in
      subst (Deletions db) (ap (λ q. q.1) (ok-injective h1)) (
        All-append DeletesIndex s.1 writes.1 di wi,
        All-append (DeletesRow n h c db index) s.0 writes.0
            (All-map
              (DeletesRow-more n h c db s.1 index
                (λ ik. Among-append_left (delete ik) s.1 writes.1))
              s.0 dr)
            (All-map
              (DeletesRow-more n h c db writes.1 index
                (λ ik. Among-append_right (delete ik) s.1 writes.1))
              writes.0 wr),
      )

  truncate_batches-Deletions :
      (block : ℕ) (db : r.Db) (batches : Batches)
      → truncate_batches r n c block db ≡ ok batches
      → Deletions (r.get db) batches
  unfolding truncate_batches
  truncate_batches-Deletions block db batches made =
      for_each-Keeps (λ (e : Entry). r.get db e.0 ≡ some e.1) (IsRow (r.get db))
        (Deletions (r.get db)) (remove_visited n c) (r.iterator db)
        (append_table_key_block n.abieos block) (append_table_key_all n.abieos) ([], []) batches
        (store.in_order db) (store.listed db)
        (λ e listed within. (
          tag_in_range tag_table (native_to_key n.abieos 4 block) [] e (
              rw (append_table_key_block-eq n.abieos h block, append_table_key_all-eq n.abieos h) at
                within),
          listed,
        ))
        (remove_visited-Deletions (r.get db)) made (tt, tt)

  -- Two batches, the index entries first.
  Deletions-Covered :
      (db : r.Db) (batches : Batches)
      → Deletions (r.get db) batches
      → Covered n c (r.get db)
      → Covered n c (r.get (r.write batches.1 db))
        × Covered n c (r.get (r.write batches.0 (r.write batches.1 db)))
  Deletions-Covered db (content, index) (di, dr) covered =
      let all = index ++ content in
      let d = r.get db in
      (
        Covered-get n c (r.get (r.write index db)) (written index d)
            (λ key. store.writes.get-write index db key)
            (Removes-Covered n c d index (All-map (DeletesIndex-Removes n h c d index) index di)
              covered),
        Covered-get n c (r.get (r.write content (r.write index db))) (written all d)
            (λ key.
              store.writes.get-write content (r.write index db) key
              ∙ ap (after_writes content key) (store.writes.get-write index db key)
              ∙ after_writes_append index content key (d key))
            (Removes-Covered n c d all
              (All-append (Removes n c d all) index content
                (All-map (DeletesIndex-Removes n h c d all) index di)
                (All-map
                  (λ w dw. DeletesRow-Removes n h c d all w (
                    DeletesRow-more n h c d index all
                      (λ ik. Among-append_left (delete ik) index content) w dw))
                  content dr))
              covered),
      )

  -- If RocksDB is in order and abieos writes numbers with the lowest byte first, a `truncate` that
  -- returns has written one batch and then another, and where every index entry referred to a row
  -- before it, every entry does so after the first of the writes and after both.
  pub truncate-Covered :
      (block : ℕ) (w w' : World r)
      → w.session.query_config ≡ c
      → truncate r n block w ≡ (ok tt, w')
      → Covered n c (r.get w.db)
      → (index : WriteBatch) × (content : WriteBatch) × (w'.db
          ≡ r.write content (r.write index w.db))
        × Covered n c (r.get (r.write index w.db))
        × Covered n c (r.get w'.db)
  unfolding truncate
  truncate-Covered block w w' config done covered =
      let (batches, e1, h1) =
        continue-ok _ (pass (truncate_batches r n w.session.query_config block w.db) w) done in
      let (rb, e2, h2) =
        continue-ok _ (pass (get_received_block r n w.db (before block) false) w) h1 in
      let made : truncate_batches r n c block w.db ≡ ok batches =
        ap (λ q. truncate_batches r n q block w.db) (sym config) ∙ e1 in
      let (first, both) =
        Deletions-Covered w.db batches (truncate_batches-Deletions block w.db batches made)
          covered in
      let db' : w'.db ≡ r.write batches.0 (r.write batches.1 w.db) = ap (λ q. q.1.db) (sym h2) in
      (batches.1, batches.0, db', first, subst (λ db. Covered n c (r.get db)) (sym db') both)

-- ===== src/FillRocks/Pending.antt =====
-- The batches of a session of src/fill_rocksdb_plugin.cpp between two `end_write`s: `add_row` keeps
-- them such that each entry of an index has its row among the contents, and where the program exits
-- between the two writes of `end_write`, and behind both, every entry refers to a row.
use history_tools.Common.{
  ℕ, ◌<◌, ◌^◌, ◌≡◌, ◌≢◌, refl, sym, ap, ◌∙◌, inr, Bool, true, false, ◌++◌, [], ◌∷◌, Bytes, none,
  some, ok, subst, All, All-append, if◌then◌else◌, append-nil,
}
use history_tools.Kv.Laws.{IsAbieos}
use history_tools.Kv.Keys.{append_table_key, make_fill_status_key}
use history_tools.Rdb.Database.{WriteBatch, Rocksdb, after_writes, WritesInOrder}
use history_tools.FillRocks.State.{KvTable, QueryConfig, Serial, World}
use history_tools.FillRocks.Rows.{add_row}
use history_tools.FillRocks.Blocks.{
  append_rows, end_write, write_batches, write_fill_status, status_write,
}
use history_tools.FillRocks.Entries.{add_row_parts}
use history_tools.FillRocks.Covered.{key_of, written, Covered, IsPlain, Covered-get}
use history_tools.FillRocks.Removal.{
  row_index_keys-IsIndexKey, tag-append_table_key, tag-make_fill_status_key,
}
use history_tools.FillRocks.Batches.{
  EntryWrite, Pending, Pending-content, Pending-both, Pending-append,
}

module _ (r : Rocksdb) (n : Serial) (h : IsAbieos n.abieos) (c : QueryConfig) where
  abbrev pub IsPending : World r → Type 0
  IsPending w = Pending n c (r.get w.db) w.session.active_content_batch w.session.active_index_batch

  -- If abieos writes and reads numbers with the lowest byte first, and the query configuration has
  -- the table under its short name, the rows of an `add_row` keep the batches such that each index
  -- entry has its row, where neither the database nor the batch has a row under the new key.
  pub add_row-IsPending :
      (t : KvTable) (block_num : ℕ) (present_k : Bool) (value : Bytes)
      (writes : WriteBatch × WriteBatch) (w : World r)
      → c.table_name_map t.table.short_name ≡ some t
      → block_num < 2 ^ 32
      → t.table.short_name < 2 ^ 64
      → add_row n t block_num present_k value ≡ ok writes
      → All
          (λ q.
            (r.get w.db (key_of q) ≡ none)
            × All (λ p. key_of p ≢ key_of q) w.session.active_content_batch)
          writes.0
      → IsPending w
      → IsPending (append_rows r n writes w)
  unfolding append_rows
  add_row-IsPending t block_num present_k value writes w known hb ht added new pending =
      let (fields, keys, parts, found) =
        add_row_parts n h c t block_num present_k value known hb ht added in
      let k = append_table_key n.abieos block_num present_k t.table.short_name ++ fields in
      let new' =
        subst
          (λ (q : WriteBatch × WriteBatch).
            All
              (λ q.
                (r.get w.db (key_of q) ≡ none)
                × All (λ p. key_of p ≢ key_of q) w.session.active_content_batch)
              q.0)
          parts new in
      subst
        (λ (q : WriteBatch × WriteBatch).
          Pending n c (r.get w.db) (w.session.active_content_batch ++ q.0)
            (w.session.active_index_batch ++ q.1))
        (sym parts)
        (Pending-append n c (r.get w.db) w.session.active_content_batch w.session.active_index_batch
          k value keys
          (tag-append_table_key n.abieos h block_num t.table.short_name present_k fields) new'.0.0
          new'.0.1 found (row_index_keys-IsIndexKey n h c k value keys found) pending)

  two_writes-Covered :
      (content index : WriteBatch) (db : r.Db)
      → WritesInOrder r
      → Pending n c (r.get db) content index
      → Covered n c (r.get db)
      → Covered n c (r.get (r.write content db))
        × Covered n c (r.get (r.write index (r.write content db)))
  two_writes-Covered content index db order (rows, entries) covered =
      let d = r.get db in
      (
        Covered-get n c (r.get (r.write content db)) (written content d)
            (λ key. order.get-write content db key) (Pending-content n c d content rows covered),
        Covered-get n c (r.get (r.write index (r.write content db)))
            (written index (written content d))
            (λ key.
              order.get-write index (r.write content db) key
              ∙ ap (after_writes index key) (order.get-write content db key))
            (Pending-both n c d content index (rows, entries) covered),
      )

  -- The index entries that wait, and the fill status if it is to be written.
  abbrev pub second_batch : Bool → World r → WriteBatch
  second_batch write_fill w =
      w.session.active_index_batch ++ (if write_fill then status_write n w.session ∷ [] else [])

  -- If batches are carried out in order and the table of the fill status has no index, an `end_write`
  -- makes two writes, the contents that wait and then the index entries that wait, with the fill status
  -- behind them if it is to be written, and leaves the batches empty; where every index
  -- entry referred to a row before it and each waiting entry has its row, every entry refers to a row
  -- behind the first write and behind both.
  pub end_write-Covered :
      (write_fill : Bool) (w : World r)
      → WritesInOrder r
      → IsPlain n c (make_fill_status_key n.abieos)
      → IsPending w
      → Covered n c (r.get w.db)
      → ((end_write r n write_fill w).db
          ≡ r.write (second_batch write_fill w) (r.write w.session.active_content_batch w.db))
        × Covered n c (r.get (r.write w.session.active_content_batch w.db))
        × Covered n c (r.get (end_write r n write_fill w).db)
        × ((end_write r n write_fill w).session.active_content_batch ≡ [])
        × ((end_write r n write_fill w).session.active_index_batch ≡ [])
  unfolding end_write write_batches write_fill_status
  end_write-Covered false w order plain pending covered =
      let s = w.session in
      let (first, both) =
        two_writes-Covered s.active_content_batch s.active_index_batch w.db order pending covered in
      (
        ap (λ q. r.write q (r.write s.active_content_batch w.db))
            (sym (append-nil s.active_index_batch)),
        first,
        both,
        refl,
        refl,
      )
  end_write-Covered true w order plain (rows, entries) covered =
      let s = w.session in
      let index = s.active_index_batch ++ status_write n s ∷ [] in
      let status : EntryWrite n c s.active_content_batch (status_write n s) =
        unfold status_write in inr (tag-make_fill_status_key n.abieos h, plain) in
      let all =
        All-append (EntryWrite n c s.active_content_batch) s.active_index_batch _ entries
          (status, tt) in
      let (first, both) =
        two_writes-Covered s.active_content_batch index w.db order (rows, all) covered in
      (refl, first, both, refl, refl)

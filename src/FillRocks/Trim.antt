-- ===== src/FillRocks/Trim.antt =====
-- The batch of `trim` of src/fill_rocksdb_plugin.cpp. Rows of tables without a trim index go by
-- their block; for the others the entries of the trim index, of each key that has changed, are gone
-- through from the newest on.
use history_tools.Common.{
  ℕ, ◌+◌, ◌-◌, ◌%◌, ◌^◌, ◌&&◌, ◌++◌, List, [], ◌∷◌, if◌then◌else◌, Bytes, Bool, true, false, Option,
  none, some, Result, ok, ◌>>=◌, or_throw, ltb, leb, ◌==◌, length,
}
use history_tools.SqlConverter.Types.{bytes_eq}
use history_tools.Kv.Keys.{
  key_to_native, read_index_prefix, append_table_key_block, append_index_key,
}
use history_tools.Kv.Positions.{init_positions, extract_keys, fill_positions_from_index, extract_pk}
use history_tools.Rdb.Range.{Visitor, for_each}
use history_tools.Rdb.Database.{WriteBatch, Rocksdb}
use history_tools.FillRocks.State.{Index, KvTable, Serial, QueryConfig}
use history_tools.FillRocks.Rows.{
  row_positions, get_kv_table, read_row_key, remove_row, remove_row_at,
}

-- `std::vector<char>`'s order: `char` is signed.
unfoldable pub chars_lt : Bytes → Bytes → Bool
chars_lt s [] = false
chars_lt [] (d ∷ t) = true
chars_lt (c ∷ s) (d ∷ t) =
    if ltb ((c + 128) % 256) ((d + 128) % 256) then true else (c == d) && chars_lt s t

-- `std::set::insert`
unfoldable pub set_insert : Bytes → List Bytes → List Bytes
set_insert k [] = k ∷ []
set_insert k (x ∷ xs) =
    if chars_lt k x then k ∷ x ∷ xs else (if bytes_eq k x then x ∷ xs else x ∷ set_insert k xs)

-- What the first loop has made: `trim_keys` and `batch`. A removal's writes to both batches go to
-- the one batch, the index entries first.
abbrev pub Scan : Type 0
Scan = List Bytes × WriteBatch

unfoldable pub add_removal : WriteBatch × WriteBatch → WriteBatch → WriteBatch
add_removal writes batch = batch ++ (writes.1 ++ writes.0)

module _ (n : Serial) (c : QueryConfig) (first end_trim : ℕ) where
  unfoldable pub trim_key : ℕ → KvTable → Index → Bytes → Result Bytes
  trim_key table_name t index v = do
    positions ← row_positions n t.table v
    fields ← extract_keys n.abieos v index.sort_keys positions
    ok (append_index_key n.abieos table_name index.short_name ++ fields)

  -- The visitor of the first loop, behind the lookup of the row's table.
  unfoldable pub visit_row :
      ℕ → ℕ → KvTable → Option Index → Bytes → Bytes → Scan → Result (Bool × Scan)
  unfolding trim_key
  visit_row block_num table_name t (some index) k v (keys, batch) =
      if ltb first block_num
      then (trim_key table_name t index v >>= λ key. ok (true, (set_insert key keys, batch)))
      else ok (true, (keys, batch))
  visit_row block_num table_name t none k v (keys, batch) =
      if ltb block_num end_trim
      then (remove_row n c k v >>= λ writes. ok (true, (keys, add_removal writes batch)))
      else ok (true, (keys, batch))

  unfoldable pub scan_row : Visitor Scan
  unfolding visit_row
  scan_row k v scan = do
    (block_num, table_name, present_k) ← read_row_key n k
    t ← get_kv_table n c table_name
    visit_row block_num table_name t t.trim_index_obj k v scan

  module _ (r : Rocksdb) (db : r.Db) where
    -- The visitor of the second loop: `prev_block`, and the batch.
    unfoldable pub trim_entry : KvTable → Index → Visitor (ℕ × WriteBatch)
    trim_entry t index k v (prev_block, batch) =
        fill_positions_from_index n.abieos k index.sort_keys
          (init_positions (length t.table.fields))
        >>= λ (block, present_k, positions, _).
            (if leb prev_block end_trim
              then (do
                pk ← extract_pk n.abieos k t.table block present_k positions
                writes ← remove_row_at n r c db pk
                ok (true, (block, add_removal writes batch)))
              else ok (true, (block, batch)))

    -- One of `trim_keys`, as a range of the index.
    unfoldable pub trim_range : Bytes → WriteBatch → Result WriteBatch
    unfolding trim_entry
    trim_range range batch = do
      (_, rk) ← key_to_native n.abieos 1 range
      (table_name, _, _) ← read_index_prefix n.abieos rk
      t ← get_kv_table n c table_name
      index ← or_throw t.trim_index_obj "trim_index_obj"
      (_, batch') ← for_each (trim_entry t index) (r.iterator db) range range (2 ^ 32 - 1, batch)
      ok batch'

    unfoldable pub trim_ranges : List Bytes → WriteBatch → Result WriteBatch
    unfolding trim_range
    trim_ranges [] batch = ok batch
    trim_ranges (range ∷ ranges) batch = trim_range range batch >>= trim_ranges ranges

    unfoldable pub trim_batch : Result WriteBatch
    unfolding scan_row trim_ranges
    trim_batch = do
      (keys, batch) ←
          for_each scan_row (r.iterator db) (append_table_key_block n.abieos first)
            (append_table_key_block n.abieos end_trim) ([], [])
      trim_ranges keys batch

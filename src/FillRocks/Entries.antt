-- ===== src/FillRocks/Entries.antt =====
-- The index entries that `add_row` makes are those that `remove_row` finds.
use history_tools.Common.{
  ℕ, ◌^◌, ◌<◌, ◌≡◌, sym, ap, ◌∙◌, Bool, ◌++◌, List, [], ◌∷◌, map, Bytes, some, ok, >>=-eq-ok,
  ok-injective, arith, append_assoc, drop, drop_all_append,
}
use history_tools.Kv.Laws.{IsAbieos}
use history_tools.Kv.RoundTrip.{
  read_table_prefix-append_table_key, key_to_native-native_to_key, length-native_to_key,
}
use history_tools.Kv.Keys.{native_to_key, read_table_prefix, append_table_key, tag_table, from_bool}
use history_tools.Kv.Positions.{extract_keys}
use history_tools.Rdb.Database.{put, delete, WriteBatch}
use history_tools.FillRocks.State.{KvTable, QueryConfig, Serial}
use history_tools.FillRocks.Rows.{
  row_positions, index_keys, add_row, read_row_key, row_index_keys, remove_row, get_kv_table,
}

module _ (n : Serial) (h : IsAbieos n.abieos) where
  -- The block, the table and the flag of a row's key are read back from it.
  pub read_row_key-append_table_key :
      (block table : ℕ) (present_k : Bool) (rest : Bytes)
      → block < 2 ^ 32
      → table < 2 ^ 64
      → read_row_key n (append_table_key n.abieos block present_k table ++ rest)
        ≡ ok (block, table, present_k)
  unfolding read_row_key
  read_row_key-append_table_key block table present_k rest hb ht =
      let a = n.abieos in
      let tail =
        native_to_key a 4 block
        ++ (native_to_key a 8 table ++ native_to_key a 1 (from_bool present_k)) in
      let parts : append_table_key a block present_k table ++ rest
          ≡ native_to_key a 1 tag_table ++ (tail ++ rest) =
        unfold append_table_key in simp append_assoc in
      let behind : drop 1 (append_table_key a block present_k table ++ rest) ≡ tail ++ rest =
        ap (drop 1) parts
        ∙ drop_all_append (native_to_key a 1 tag_table) (tail ++ rest) 1
            (length-native_to_key a h 1 tag_table) in
      let prefix : read_table_prefix a (tail ++ rest) ≡ ok (block, table, present_k, rest) =
        ap (read_table_prefix a) (sym behind)
        ∙ read_table_prefix-append_table_key a h block table present_k rest hb ht in
      rw (parts, key_to_native-native_to_key a h 1 tag_table (tail ++ rest) (omega arith), prefix)

  -- The parts of what `add_row` makes, and the index entries that are found from them.
  pub add_row_parts :
      (c : QueryConfig) (t : KvTable) (block_num : ℕ) (present_k : Bool) (value : Bytes)
      {writes : WriteBatch × WriteBatch}
      → c.table_name_map t.table.short_name ≡ some t
      → block_num < 2 ^ 32
      → t.table.short_name < 2 ^ 64
      → add_row n t block_num present_k value ≡ ok writes
      → (fields : Bytes) × (keys : List Bytes) × (writes ≡ (
        put (append_table_key n.abieos block_num present_k t.table.short_name ++ fields) value ∷ [],
        map (λ key. put key []) keys,
      ))
        × (row_index_keys n c
              (append_table_key n.abieos block_num present_k t.table.short_name ++ fields)
              value
            ≡ ok keys)
  unfolding add_row row_index_keys get_kv_table
  add_row_parts c t block_num present_k value known hb ht added =
      let (positions, e1, h1) = >>=-eq-ok (row_positions n t.table value) _ added in
      let (fields, e2, h2) = >>=-eq-ok (extract_keys n.abieos value t.table.keys positions) _ h1 in
      let (keys, e3, h3) =
        >>=-eq-ok (index_keys n t.table.short_name t.indexes block_num present_k value positions) _
          h2 in
      (
        fields,
        keys,
        sym (ok-injective h3),
        simp (
          read_row_key-append_table_key block_num t.table.short_name present_k fields hb ht,
          known,
          e1,
          e3,
        ),
      )

  -- If abieos writes and reads numbers with the lowest byte first, and the query configuration has a
  -- table under its short name, what `add_row` makes of a value is one row and an empty entry for
  -- each of some index keys, and removing that row deletes the row and exactly these entries.
  pub remove_row-add_row :
      (c : QueryConfig) (t : KvTable) (block_num : ℕ) (present_k : Bool) (value : Bytes)
      {content index : WriteBatch}
      → c.table_name_map t.table.short_name ≡ some t
      → block_num < 2 ^ 32
      → t.table.short_name < 2 ^ 64
      → add_row n t block_num present_k value ≡ ok (content, index)
      → (k : Bytes) × (keys : List Bytes) × (content ≡ put k value ∷ [])
        × (index ≡ map (λ key. put key []) keys)
        × (remove_row n c k value ≡ ok (delete k ∷ [], map delete keys))
  unfolding remove_row
  remove_row-add_row c t block_num present_k value known hb ht added =
      let (fields, keys, parts, found) =
        add_row_parts c t block_num present_k value known hb ht added in
      (
        append_table_key n.abieos block_num present_k t.table.short_name ++ fields,
        keys,
        ap (λ q. q.0) parts,
        ap (λ q. q.1) parts,
        rw found,
      )

-- ===== src/FillRocks/Rows.antt =====
-- Rows and their index entries: `add_row` and `remove_row` of src/fill_rocksdb_plugin.cpp, and the
-- values of the rows that `receive_block` and `write_action_trace` add.
use history_tools.Common.{
  ℕ, Bool, true, false, ◌++◌, List, [], ◌∷◌, map, Bytes, Option, none, some, Result, ok, ◌>>=◌,
  or_throw, length,
}
use history_tools.Kv.Positions.{Table, Positions, init_positions, fill_positions, extract_keys}
use history_tools.Kv.Keys.{
  key_to_native, read_table_prefix, append_table_key, append_index_key, append_index_suffix,
  from_bool,
}
use history_tools.Rdb.Database.{put, delete, WriteBatch, Rocksdb}
use history_tools.FillRocks.State.{
  Index, KvTable, QueryConfig, Serial, SignedBlock, Receipt, ActionTraceV0, TransactionTrace,
  string_to_bin,
}

module _ (n : Serial) where
  -- `init_positions` and `fill_positions` over a row's value.
  unfoldable pub row_positions : Table → Bytes → Result Positions
  row_positions table value =
      fill_positions n.abieos false value table.fields (init_positions (length table.fields))

  unfoldable pub index_key : ℕ → Index → ℕ → Bool → Bytes → Positions → Result Bytes
  index_key table_name index block_num present_k value positions = do
    fields ← extract_keys n.abieos value index.sort_keys positions
    ok (
        append_index_key n.abieos table_name index.short_name
        ++ (fields ++ append_index_suffix n.abieos block_num present_k))

  -- The loop over the indexes of a table, in `add_row` and in `remove_row`.
  unfoldable pub index_keys : ℕ → List Index → ℕ → Bool → Bytes → Positions → Result (List Bytes)
  index_keys table_name [] block_num present_k value positions = ok []
  index_keys table_name (index ∷ indexes) block_num present_k value positions = do
    key ← index_key table_name index block_num present_k value positions
    keys ← index_keys table_name indexes block_num present_k value positions
    ok (key ∷ keys)

  -- What `add_row` puts into the batch of the contents and into that of the indexes.
  unfoldable pub add_row : KvTable → ℕ → Bool → Bytes → Result (WriteBatch × WriteBatch)
  add_row t block_num present_k value = do
    positions ← row_positions t.table value
    fields ← extract_keys n.abieos value t.table.keys positions
    keys ← index_keys t.table.short_name t.indexes block_num present_k value positions
    ok (
      put (append_table_key n.abieos block_num present_k t.table.short_name ++ fields) value ∷ [],
      map (λ key. put key []) keys,
    )

  -- `get_kv_table` of a short name.
  unfoldable pub get_kv_table : QueryConfig → ℕ → Result KvTable
  get_kv_table c name = or_throw (c.table_name_map name) "missing in query-config"

  -- `key_to_native<uint8_t>` and `read_table_prefix`.
  unfoldable pub read_row_key : Bytes → Result (ℕ × ℕ × Bool)
  read_row_key k = do
    (_, temp_k) ← key_to_native n.abieos 1 k
    (block_num, table_name, present_k, _) ← read_table_prefix n.abieos temp_k
    ok (block_num, table_name, present_k)

  -- The index entries of a row, which `remove_row` deletes.
  unfoldable pub row_index_keys : QueryConfig → Bytes → Bytes → Result (List Bytes)
  row_index_keys c k v = do
    (block_num, table_name, present_k) ← read_row_key k
    t ← get_kv_table c table_name
    positions ← row_positions t.table v
    index_keys table_name t.indexes block_num present_k v positions

  -- What `remove_row` puts into the batch of the contents and into that of the indexes. Its counters
  -- are only logged.
  unfoldable pub remove_row : QueryConfig → Bytes → Bytes → Result (WriteBatch × WriteBatch)
  remove_row c k v = do keys ← row_index_keys c k v; ok (delete k ∷ [], map delete keys)

  -- The `remove_row` that looks the value up.
  unfoldable pub remove_row_at :
      (r : Rocksdb) → QueryConfig → r.Db → Bytes → Result (WriteBatch × WriteBatch)
  remove_row_at r c db k = do v ← or_throw (r.get db k) "get: "; remove_row c k v

  abbrev number_to_bin : ℕ → ℕ → Bytes
  number_to_bin size value = n.abieos.uint_to_bin size value

  abbrev bool_to_bin : Bool → Bytes
  bool_to_bin b = n.abieos.uint_to_bin 1 (from_bool b)

  abbrev or_default {ℓ} : {A : Type ℓ} → A → Option A → A
  or_default d none = d
  or_default d (some a) = a

  -- The value of `receive_block`.
  unfoldable pub block_info_value : ℕ → ℕ → SignedBlock → Bytes
  block_info_value block_num block_id b =
      number_to_bin 4 block_num
      ++ (number_to_bin 32 block_id
          ++ (number_to_bin 4 b.timestamp
              ++ (number_to_bin 8 b.producer
                  ++ (number_to_bin 2 b.confirmed
                      ++ (number_to_bin 32 b.previous
                          ++ (number_to_bin 32 b.transaction_mroot
                              ++ (number_to_bin 32 b.action_mroot
                                  ++ (number_to_bin 4 b.schedule_version
                                      ++ or_default n.empty_schedule b.new_producers))))))))

  unfoldable pub receipt_value : Option Receipt → Bytes
  receipt_value none = bool_to_bin false
  receipt_value (some receipt) =
      bool_to_bin true
      ++ (number_to_bin 8 receipt.receiver
          ++ (number_to_bin 32 receipt.act_digest
              ++ (number_to_bin 8 receipt.global_sequence
                  ++ (number_to_bin 8 receipt.recv_sequence
                      ++ (n.varuint32_to_bin receipt.code_sequence
                          ++ n.varuint32_to_bin receipt.abi_sequence)))))

  -- The value of `write_action_trace`, which ends with the console and the exception once more.
  unfoldable pub action_trace_value : ℕ → TransactionTrace → ActionTraceV0 → Bytes
  unfolding receipt_value
  action_trace_value block_num ttrace a =
      let except = string_to_bin n (or_default [] a.except) in
      number_to_bin 4 block_num
      ++ (number_to_bin 32 ttrace.id
          ++ (number_to_bin 1 ttrace.status
              ++ (n.varuint32_to_bin a.action_ordinal
                  ++ (n.varuint32_to_bin a.creator_action_ordinal
                      ++ (receipt_value a.receipt
                          ++ (number_to_bin 8 a.receiver
                              ++ (number_to_bin 8 a.act_account
                                  ++ (number_to_bin 8 a.act_name
                                      ++ (string_to_bin n a.act_bin
                                          ++ (bool_to_bin a.context_free
                                              ++ (number_to_bin 8 a.elapsed
                                                  ++ (string_to_bin n a.console
                                                      ++ (except
                                                          ++ (number_to_bin 8
                                                            (or_default 0 a.error_code)
                                                            ++ (string_to_bin n a.console
                                                            ++ except)))))))))))))))

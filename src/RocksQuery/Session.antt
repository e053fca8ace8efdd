-- ===== src/RocksQuery/Session.antt =====
-- `rocksdb_query_session` of src/wasm_ql_rocksdb_plugin.cpp. All its iterators see the database as it
-- was when the session began. The loop over subkeys takes fuel; running out of it is an error of the
-- model's own, which Rdb/SubkeysEnd.antt rules out.
use history_tools.Common.{
  ℕ, ◌+◌, ◌-◌, ◌^◌, min, Bool, true, false, ◌++◌, List, [], ◌∷◌, if◌then◌else◌, Bytes, Option, none,
  some, Result, ok, ◌>>=◌, ◌>>◌, or_throw, throw_if, ltb, length, drop,
}
use history_tools.History.{FillStatus}
use history_tools.Kv.Types.{KvType, bin_to_bin, bin_to_key, query_to_key, fill_empty}
use history_tools.Kv.Keys.{
  append_index_key, append_index_suffix_block, make_fill_status_key, make_received_block_key,
}
use history_tools.Kv.Positions.{
  Field, Positions, init_positions, fill_positions, position_of, keys_have_positions,
  extract_pk_from_index,
}
use history_tools.Rdb.Range.{Iterator, Visitor, for_each}
use history_tools.Rdb.Subkeys.{SubkeyVisitor, for_each_subkey}
use history_tools.Rdb.Database.{get_raw}
use history_tools.FillRocks.State.{Index, KvTable, Serial, string_to_bin}
use history_tools.FillRocks.Check.{fueled}

-- The join of a query: `join_table`, `join_query_short_name`, the index and the table of
-- `join_query`, and the fields.
pub record Join : Type 0 where
  pub join_table : KvTable
  pub join_query_short_name : ℕ
  pub query_table : KvTable
  pub query_index : Index
  pub join_key_values : List Field
  pub fields_from_join : List Field

-- The parts of `kv::query` that are read, with `range_types` of its index.
pub record Query : Type 0 where
  pub table_obj : KvTable
  pub index_obj : Index
  pub range_types : List KvType
  pub has_args : Bool
  pub has_block_snapshot : Bool
  pub max_results : ℕ
  pub join : Option Join

abbrev empty_status : FillStatus
empty_status = record { head = 0; head_id = 0; irreversible = 0; irreversible_id = 0; first = 0 }

module _ (n : Serial) (it : Iterator) where
  -- `rdb::get` on an iterator.
  unfoldable pub get_at {ℓ} : {A : Type ℓ} → (Bytes → Result A) → Bytes → Bool → Result (Option A)
  get_at from_bin key required = do
    bin ← get_raw it key required
    elim bin [ none ↦ ok none | some b ↦ from_bin b >>= λ value. ok (some value) ]

  -- The constructor: the status, if there is one.
  unfoldable pub get_fill_status : Result FillStatus
  unfolding get_at
  get_fill_status = do
    f ← get_at n.bin_to_fill_status (make_fill_status_key n.abieos) false
    ok (elim f [ none ↦ empty_status | some status ↦ status ])

  unfoldable pub get_block_id : ℕ → Result (Option ℕ)
  unfolding get_at
  get_block_id block_num = do
    rb ← get_at n.bin_to_received_block (make_received_block_key n.abieos block_num) false
    ok (elim rb [ none ↦ none | some b ↦ some b.block_id ])

  -- What `append_fields` appends.
  unfoldable pub append_fields : Bool → Bytes → List Field → Positions → Result Bytes
  append_fields xform_key src [] positions = ok []
  append_fields xform_key src (key ∷ keys) positions = do
    p ← position_of n.abieos key positions
    pos ← or_throw p "key has unknown position"
    throw_if (ltb (length src) pos) "key position is out of range"
    (out, _) ←
        (if xform_key
          then bin_to_key n.abieos key.type_obj (drop pos src)
          else bin_to_bin n.abieos key.type_obj (drop pos src))
    more ← append_fields xform_key src keys positions
    ok (out ++ more)

  -- `*get_raw(…, true)` of the row that an index entry refers to.
  unfoldable pub row_of_entry : KvTable → Index → Bytes → Result Bytes
  row_of_entry t index entry = do
    pk ← extract_pk_from_index n.abieos entry t.table index.sort_keys
    row ← get_raw it pk true
    or_throw row "key not found"

  -- A key, limited to a block if its table is a delta.
  unfoldable pub limit_block : KvTable → ℕ → Bytes → Bytes
  limit_block t block key =
      if t.is_delta then key ++ append_index_suffix_block n.abieos block else key

  -- The function of the innermost loop: the fields of the first row of the join.
  unfoldable pub visit_join : Join → Visitor (Option Bytes)
  unfolding append_fields row_of_entry
  visit_join j k v found = do
    value ← row_of_entry j.join_table j.query_index k
    positions ←
        fill_positions n.abieos false value j.join_table.table.fields
          (init_positions (length j.join_table.table.fields))
    fields ← append_fields false value j.fields_from_join positions
    ok (false, some fields)

  unfoldable pub fill_all_empty : List Field → Result Bytes
  fill_all_empty [] = ok []
  fill_all_empty (field ∷ fields) = do
    out ← fill_empty field.type_obj
    more ← fill_all_empty fields
    ok (out ++ more)

  -- The fields of the join, for the row `value` of the query's table, if its keys are there.
  unfoldable pub find_join : Join → ℕ → Bytes → Positions → Result (Option Bytes)
  unfolding append_fields limit_block visit_join
  find_join j snapshot_block_num value positions = do
    have ← keys_have_positions n.abieos j.join_key_values positions
    (if have
        then (do
          fields ← append_fields true value j.join_key_values positions
          let join_key =
              append_index_key n.abieos j.join_table.table.short_name j.join_query_short_name
              ++ fields
          for_each (visit_join j) it (limit_block j.query_table snapshot_block_num join_key)
              join_key none)
        else ok none)

  -- What is appended to a row: the fields of the join, or the empty value of every field of its table.
  unfoldable pub join_fields : Query → ℕ → Bytes → Result Bytes
  unfolding find_join fill_all_empty
  join_fields q snapshot_block_num value = elim q.join [
    | none ↦ ok []
    | some j ↦
        fill_positions n.abieos false value q.table_obj.table.fields
          (init_positions (length q.table_obj.table.fields))
        >>= λ positions. find_join j snapshot_block_num value positions >>= λ found. elim found [
          | none ↦ fill_all_empty j.join_table.table.fields
          | some fields ↦ ok fields
        ]
  ]

  -- The function of the loop over one key's entries: the first one's row ends it.
  unfoldable pub visit_entry : Query → ℕ → Visitor (List Bytes)
  unfolding row_of_entry join_fields
  visit_entry q snapshot_block_num k v rows = do
    value ← row_of_entry q.table_obj q.index_obj k
    fields ← join_fields q snapshot_block_num value
    ok (false, rows ++ (value ++ fields) ∷ [])

  -- The function of the outer loop, with the rows and `num_results`.
  unfoldable pub visit_key : Query → ℕ → ℕ → SubkeyVisitor (List Bytes × ℕ)
  unfolding visit_entry limit_block
  visit_key q snapshot_block_num max_results index_key k v (rows, num_results) = do
    rows' ←
        for_each (visit_entry q snapshot_block_num) it
          (limit_block q.table_obj snapshot_block_num index_key) index_key rows
    ok (ltb (num_results + 1) max_results, (rows', num_results + 1))

  -- `add_fields`: what it appends, and the rest of the query.
  unfoldable pub add_fields : List KvType → Bytes → Result (Bytes × Bytes)
  add_fields [] query_bin = ok ([], query_bin)
  add_fields (type ∷ types) query_bin = do
    (out, rest) ← query_to_key n.abieos type query_bin
    (more, rest') ← add_fields types rest
    ok (out ++ more, rest')

  unfoldable pub read_snapshot : Query → ℕ → Bytes → Result (ℕ × Bytes)
  read_snapshot q head query_bin =
      if q.has_block_snapshot
      then (n.abieos.bin_to_uint 4 query_bin >>= λ (block, rest). ok (min head block, rest))
      else ok (0, query_bin)

  -- The rows, between the keys `first` and `last`.
  unfoldable pub query_rows : ℕ → Query → ℕ → ℕ → Bytes → Bytes → Result (List Bytes)
  unfolding visit_key
  query_rows fuel q snapshot_block_num max_results first last = do
    (rows, _) ←
        fueled
          (for_each_subkey (visit_key q snapshot_block_num max_results) it last fuel first ([], 0))
    ok rows

  -- `native_to_bin` of the rows.
  unfoldable pub rows_to_bin : List Bytes → Bytes
  rows_to_bin [] = []
  rows_to_bin (row ∷ rows) = string_to_bin n row ++ rows_to_bin rows

  unfoldable pub query_database : ℕ → (ℕ → Option Query) → Bytes → ℕ → Result Bytes
  unfolding read_snapshot add_fields query_rows rows_to_bin
  query_database fuel query_map query_bin head = do
    (query_name, bin) ← n.abieos.bin_to_uint 8 query_bin
    q ← or_throw (query_map query_name) "query_database: unknown query"
    throw_if q.has_args "not implemented"
    (snapshot_block_num, bin1) ← read_snapshot q head bin
    let key = append_index_key n.abieos q.table_obj.table.short_name q.index_obj.short_name
    (lower, bin2) ← add_fields q.range_types bin1
    (upper, bin3) ← add_fields q.range_types bin2
    (requested, _) ← n.abieos.bin_to_uint 4 bin3
    rows ←
        query_rows fuel q snapshot_block_num (min requested q.max_results) (key ++ lower)
          (key ++ upper)
    let result = n.varuint32_to_bin (length rows) ++ rows_to_bin rows
    throw_if (ltb (2 ^ 32 - 1) (length result)) "query_database: result is too big"
    ok result

-- ===== src/FillRocks/Check.antt =====
-- `check` of src/fill_rocksdb_plugin.cpp, behind `load_fill_status`: the blocks received follow one
-- another up to the head, and the entries of the indexes refer to rows. What is only logged is left
-- out. Its loops over subkeys have fuel for each; running out of it is an error of the model's own,
-- which Rdb/SubkeysEnd.antt rules out.
use history_tools.Common.{
  ℕ, ◌+◌, ◌-◌, ◌%◌, ◌^◌, true, false, not, ◌&&◌, ◌||◌, if◌then◌else◌, Bytes, codes, Option, none,
  some, Result, ok, err, ◌>>=◌, ◌>>◌, or_throw, throw_if, ltb, ◌==◌,
}
use history_tools.Kv.Keys.{
  tag_table, key_to_native, append_table_key, append_table_key_block, append_index_key_all,
  read_index_prefix,
}
use history_tools.Kv.Positions.{extract_pk_from_index}
use history_tools.Rdb.Range.{Iterator, Visitor, for_each}
use history_tools.Rdb.Subkeys.{SubkeyVisitor, for_each_subkey}
use history_tools.Rdb.Database.{Rocksdb, exists}
use history_tools.FillRocks.State.{Session, Serial, Index, KvTable}

-- A loop with fuel, in a body that may throw.
unfoldable pub fueled : {S : Type 0} → Option (Result S) → Result S
fueled none = err "out of fuel"
fueled (some r) = r

module _ (n : Serial) (s : Session) where
  -- The inner function: a row of the blocks received, at the block that is expected.
  unfoldable pub check_block : ℕ → SubkeyVisitor ℕ
  check_block block_num prefix k v expected = do
    throw_if (not (block_num == 0) && (ltb block_num s.first || ltb s.head block_num))
        "Saw row for block_num, which is out of range [first, head]"
    throw_if (not (block_num == expected)) "Saw received_block record but expected another"
    ok (true, (expected + 1) % 2 ^ 32)

  -- The outer function, for the keys of one block.
  unfoldable pub check_prefix : ℕ → Iterator → SubkeyVisitor ℕ
  unfolding check_block fueled
  check_prefix fuel it prefix k v expected = do
    (tag, k1) ← key_to_native n.abieos 1 k
    throw_if (not (tag == tag_table)) "This shouldn't happen (1)"
    (block_num, _) ← key_to_native n.abieos 4 k1
    let recvd_block = n.abieos.name_value (codes "recvd.block")
    expected' ← fueled (
        for_each_subkey (check_block block_num) it
          (append_table_key n.abieos block_num true recvd_block) fuel
          (append_table_key n.abieos block_num false recvd_block) expected)
    ok (true, expected')

  unfoldable pub check_blocks : ℕ → Iterator → Result (Unit {0})
  unfolding check_prefix
  check_blocks fuel it = do
    expected ← fueled (
        for_each_subkey (check_prefix fuel it) it (append_table_key_block n.abieos (2 ^ 32 - 1))
          fuel (append_table_key_block n.abieos 0) s.first)
    throw_if (not ((expected + 2 ^ 32 - 1) % 2 ^ 32 == s.head))
        "Found head but fill_status.head is another"

  module _ (r : Rocksdb) where
    -- The index is for the table, and the entry refers to a row that is there.
    unfoldable pub check_reference : r.Db → Bytes → ℕ → Index × KvTable → Result (Unit {0})
    check_reference db k table (index_obj, table_obj) = do
      throw_if (not (table_obj.table.short_name == table)) "index is not for table"
      pk ← extract_pk_from_index n.abieos k table_obj.table index_obj.sort_keys
      throw_if (not (exists r db pk)) "index references a missing entry in table"

    -- An entry of an index.
    unfoldable pub check_entry : r.Db → Visitor (Unit {0})
    unfolding check_reference
    check_entry db k v done = do
      (_, kk) ← key_to_native n.abieos 1 k
      (table, index, _) ← read_index_prefix n.abieos kk
      objs ← or_throw (s.query_config.index_name_map index) "found unknown index"
      check_reference db k table objs
      ok (true, done)

    unfoldable pub check_indexes : r.Db → Result (Unit {0})
    unfolding check_entry
    check_indexes db =
        for_each (check_entry db) (r.iterator db) (append_index_key_all n.abieos)
          (append_index_key_all n.abieos) tt

    unfoldable pub check_database : ℕ → r.Db → Result (Unit {0})
    unfolding check_blocks check_indexes
    check_database fuel db =
        if (elim s.current_db_status [ none ↦ false | some status ↦ true ])
        then check_blocks fuel (r.iterator db) >> check_indexes db
        else ok tt

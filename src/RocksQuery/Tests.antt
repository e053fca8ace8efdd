-- ===== src/RocksQuery/Tests.antt =====
-- A query of a table with rows of two blocks, and the witnesses for the RocksDB queries.
use history_tools.Common.{
  ◌≤◌, ◌≡◌, refl, max, true, false, ◌++◌, List, [], ◌∷◌, Bytes, none, ok, arith, length,
}
use history_tools.SqlConverter.Types.{bytes_eq}
use history_tools.Kv.Types.{KvType, skip_key, key_to_key, bin_to_bin}
use history_tools.Kv.Keys.{
  key_to_native, native_to_key, append_table_key, append_index_key, append_index_suffix,
  append_index_suffix_block, read_index_suffix, inc_key, inc_reversed,
}
use history_tools.Kv.Positions.{
  init_positions, fill_positions_rw, fill_positions_loop, position_step, skip_step, mark_position,
  set_position, position_of, fill_positions_from_index, extract_pk, extract_pk_fields,
  extract_pk_from_index,
}
use history_tools.Kv.Tests.{abieos, abieos-IsAbieos}
use history_tools.Rdb.Database.{get_raw}
use history_tools.Rdb.Range.{Iterator, for_each, for_each_from, prefix_gt}
use history_tools.Rdb.InRange.{select, from_bound, bytes_lt}
use history_tools.Rdb.Subkeys.{for_each_subkey, subkey_loop}
use history_tools.Rdb.Model.{
  in_memory, empty_database, in_memory-IsStore, lookup, carry_out, insert, remove,
}
use history_tools.FillRocks.Blocks.{append_rows, end_write, write_batches}
use history_tools.FillRocks.Check.{fueled}
use history_tools.FillRocks.Tests.{serial, balances, by_account, balance}
use history_tools.FillRocks.TrimTests.{two_stored}
use history_tools.RocksQuery.Session.{
  Query, query_rows, visit_key, visit_entry, limit_block, row_of_entry, join_fields,
}
use history_tools.RocksQuery.Bounds.{length-query_rows}
use history_tools.RocksQuery.Snapshot.{Version, newest, read_version, for_each-newest}

abbrev iterator : Iterator
iterator = in_memory.iterator two_stored.db

abbrev query : Query
query = record {
  table_obj = balances;
  index_obj = by_account;
  range_types = KvType.uint8 ∷ [];
  has_args = false;
  has_block_snapshot = true;
  max_results = 10;
  join = none;
}

abbrev key : Bytes
key = append_index_key abieos 7 9 ++ 3 ∷ []

abbrev versions : List Version
versions =
    record { block = 5; present_k = true; value = [] }
    ∷ record { block = 3; present_k = true; value = [] }
    ∷ []

queried : query_rows serial iterator 5 query 4 10 key key ≡ ok (balance 3 40 ∷ [])
unfolding append_rows in_memory empty_database carry_out insert remove end_write write_batches
    for_each for_each_from for_each_subkey subkey_loop inc_key inc_reversed from_bound bytes_lt
    prefix_gt lookup query_rows visit_key visit_entry limit_block row_of_entry join_fields fueled
    get_raw fill_positions_from_index skip_key read_index_suffix extract_pk extract_pk_from_index
    extract_pk_fields key_to_key bin_to_bin key_to_native init_positions fill_positions_rw
    fill_positions_loop position_step skip_step mark_position set_position position_of
    append_index_key append_index_suffix append_index_suffix_block append_table_key native_to_key
    bytes_eq
queried = refl

length-query_rows_example : length (balance 3 40 ∷ []) ≤ max 1 10
length-query_rows_example =
    length-query_rows serial iterator query 4 5 10 key key (balance 3 40 ∷ []) queried

for_each-newest_example :
    for_each
      (visit_entry serial iterator query 4)
      iterator
      (limit_block serial iterator query.table_obj 4 key)
      key
      []
    ≡ read_version serial abieos-IsAbieos iterator query key 4 (newest 4 versions) []
unfolding append_rows in_memory empty_database carry_out insert remove end_write write_batches
    select bytes_lt prefix_gt append_index_key append_index_suffix native_to_key
for_each-newest_example =
    for_each-newest serial abieos-IsAbieos iterator query key 4 versions []
      (in_memory-IsStore.in_order two_stored.db) refl (omega arith) (omega arith) refl

-- ===== src/FillRocks/Tests.antt =====
-- A session with one delta table, and the witnesses for the RocksDB filler.
use history_tools.Common.{
  ℕ, ◌≡◌, refl, true, false, ◌++◌, List, [], ◌∷◌, map, Bytes, none, some, ok, err, arith,
  if◌then◌else◌, ◌==◌,
}
use history_tools.Kv.Types.{KvType, skip_bin, bin_to_key}
use history_tools.Kv.Laws.{le_bytes, be_bytes}
use history_tools.Kv.Keys.{
  complement, key_to_native, native_to_key, append_table_key, append_index_key, append_index_suffix,
  read_table_prefix, make_fill_status_key, make_received_block_key, append_table_key_block,
  append_table_key_all,
}
use history_tools.Kv.Tests.{abieos, abieos-IsAbieos}
use history_tools.Kv.Positions.{
  Field, init_positions, fill_positions, fill_positions_rw, fill_positions_loop, position_step,
  skip_step, mark_position, set_position, extract_keys, position_of,
}
use history_tools.Rdb.Database.{get, put, delete, WriteBatch}
use history_tools.FillRocks.State.{Index, KvTable, QueryConfig, Serial, Session, World}
use history_tools.FillRocks.Rows.{
  add_row, remove_row, row_positions, index_keys, index_key, row_index_keys, read_row_key,
  get_kv_table,
}
use history_tools.FillRocks.Blocks.{append_rows, end_write, write_batches, status_write}
use history_tools.FillRocks.Store.{truncate_batches, remove_visited, get_received_block}
use history_tools.FillRocks.Session.{truncate, truncate_head}
use history_tools.FillRocks.Truncated.{truncate-Covered}
use history_tools.SqlConverter.Types.{bytes_eq}
use history_tools.Rdb.Range.{for_each, for_each_from, prefix_gt}
use history_tools.Rdb.InRange.{from_bound, bytes_lt}
use history_tools.FillRocks.Entries.{remove_row-add_row}
use history_tools.FillRocks.Pending.{IsPending, add_row-IsPending, end_write-Covered}
use history_tools.FillRocks.Covered.{Covered, IsPlain}
use history_tools.Rdb.Model.{in_memory, empty_database, in_memory-IsStore, lookup}

abbrev pub serial : Serial
serial = record {
  abieos = abieos;
  varuint32_to_bin = λ n. le_bytes 1 n;
  fill_status_to_bin = λ s. le_bytes 4 s.head;
  bin_to_fill_status = λ bin. err "unused";
  received_block_to_bin = λ p. le_bytes 4 p.block_num ++ le_bytes 32 p.block_id;
  bin_to_received_block = λ bin. err "unused";
  bin_to_signed_block = λ bin. err "unused";
  empty_schedule = [];
  bin_to_table_delta = λ bin. err "unused";
  bin_to_trace = λ bin. err "unused";
}

abbrev pub field_at : KvType → ℕ → Field
field_at t i = record {
  type_obj = t;
  begin_optional = false;
  end_optional = false;
  field_index = i;
}

abbrev pub account : Field
account = field_at KvType.uint8 2

abbrev pub by_account : Index
by_account = record { short_name = 9; sort_keys = account ∷ [] }

-- A balance of an account: the block, `present`, the account and its amount.
abbrev pub balances : KvTable
balances = record {
  table = record {
    short_name = 7;
    fields =
        field_at KvType.uint32 0 ∷ field_at KvType.bool 1 ∷ account ∷ field_at KvType.uint8 3 ∷ [];
    keys = account ∷ [];
  };
  indexes = by_account ∷ [];
  trim_index_obj = some by_account;
  is_delta = true;
}

abbrev pub query_config : QueryConfig
query_config = record {
  table_map = λ name. none;
  table_name_map = λ name. if name == 7 then some balances else none;
  index_name_map = λ name. if name == 9 then some (by_account, balances) else none;
  tables = balances ∷ [];
}

abbrev pub balance : ℕ → ℕ → Bytes
balance block amount = le_bytes 4 block ++ 1 ∷ 3 ∷ amount ∷ []

abbrev pub row_key : ℕ → Bytes
row_key block = 80 ∷ be_bytes 4 block ++ (be_bytes 8 7 ++ 1 ∷ 3 ∷ [])

abbrev pub entry_key : ℕ → Bytes
entry_key block =
    96 ∷ be_bytes 8 7 ++ (be_bytes 8 9 ++ 3 ∷ (be_bytes 4 (complement block) ++ 0 ∷ []))

abbrev pub row_writes : ℕ → ℕ → WriteBatch × WriteBatch
row_writes block amount =
    (put (row_key block) (balance block amount) ∷ [], put (entry_key block) [] ∷ [])

added : add_row serial balances 5 true (balance 5 44) ≡ ok (row_writes 5 44)
unfolding add_row row_positions init_positions fill_positions fill_positions_rw fill_positions_loop
    position_step skip_step mark_position set_position skip_bin extract_keys position_of bin_to_key
    index_keys index_key append_index_key append_index_suffix append_table_key native_to_key
added = refl

remove_row-add_row_example :
    (k : Bytes) × (keys : List Bytes) × (put (row_key 5) (balance 5 44) ∷ []
      ≡ put k (balance 5 44) ∷ [])
    × (put (entry_key 5) [] ∷ [] ≡ map (λ key. put key []) keys)
    × (remove_row serial query_config k (balance 5 44) ≡ ok (delete k ∷ [], map delete keys))
remove_row-add_row_example =
    remove_row-add_row serial abieos-IsAbieos query_config balances 5 true (balance 5 44) refl
      (omega arith) (omega arith) added

abbrev pub session : WriteBatch → WriteBatch → Session
session content index = record {
  config = record {
    skip_to = 0;
    stop_before = 0;
    trx_filters = [];
    enable_trim = true;
    enable_check = false;
  };
  query_config = query_config;
  abi_types = λ name. none;
  active_content_batch = content;
  active_index_batch = index;
  tables = [];
  current_db_status = none;
  head = 9;
  head_id = 1;
  irreversible = 8;
  irreversible_id = 1;
  first = 1;
}

abbrev pub waiting : World in_memory
waiting = record { session = session [] []; db = empty_database }

add_row-IsPending_example :
    IsPending in_memory serial abieos-IsAbieos query_config
      (append_rows in_memory serial (row_writes 5 44) waiting)
unfolding in_memory empty_database lookup
add_row-IsPending_example =
    add_row-IsPending in_memory serial abieos-IsAbieos query_config balances 5 true (balance 5 44)
      (row_writes 5 44) waiting refl (omega arith) (omega arith) added ((refl, tt), tt) (tt, tt)

pub status-IsPlain : IsPlain serial query_config (make_fill_status_key abieos)
unfolding row_index_keys read_row_key get_kv_table key_to_native read_table_prefix
    make_fill_status_key append_table_key native_to_key
status-IsPlain ik v (keys, e, among) = cc

pub empty-Covered : Covered serial query_config (in_memory.get empty_database)
unfolding in_memory empty_database lookup
empty-Covered ik u t e = cc

-- A session with one row that waits.
abbrev pub one_waits : World in_memory
one_waits = append_rows in_memory serial (row_writes 5 44) waiting

pub one_waits-IsPending : IsPending in_memory serial abieos-IsAbieos query_config one_waits
unfolding in_memory empty_database lookup
one_waits-IsPending =
    add_row-IsPending in_memory serial abieos-IsAbieos query_config balances 5 true (balance 5 44)
      (row_writes 5 44) waiting refl (omega arith) (omega arith) added ((refl, tt), tt) (tt, tt)

end_write-Covered_example :
    ((end_write in_memory serial true one_waits).db
      ≡ in_memory.write
          (one_waits.session.active_index_batch ++ status_write serial one_waits.session ∷ [])
          (in_memory.write one_waits.session.active_content_batch one_waits.db))
    × Covered serial query_config
        (in_memory.get (in_memory.write one_waits.session.active_content_batch one_waits.db))
    × Covered serial query_config (in_memory.get (end_write in_memory serial true one_waits).db)
    × ((end_write in_memory serial true one_waits).session.active_content_batch ≡ [])
    × ((end_write in_memory serial true one_waits).session.active_index_batch ≡ [])
unfolding append_rows empty_database
end_write-Covered_example =
    end_write-Covered in_memory serial abieos-IsAbieos query_config true one_waits
      in_memory-IsStore.writes status-IsPlain one_waits-IsPending empty-Covered

-- Its database behind an `end_write`: a row of block 5.
abbrev stored : World in_memory
stored = end_write in_memory serial false one_waits

stored-Covered : Covered serial query_config (in_memory.get stored.db)
unfolding append_rows empty_database
stored-Covered =
    (end_write-Covered in_memory serial abieos-IsAbieos query_config false one_waits
      in_memory-IsStore.writes status-IsPlain one_waits-IsPending empty-Covered).2

abbrev truncated : World in_memory
truncated = (truncate in_memory serial 4 stored).1

truncates : truncate in_memory serial 4 stored ≡ (ok tt, truncated)
unfolding append_rows in_memory empty_database truncate truncate_batches remove_visited remove_row
    row_index_keys read_row_key get_kv_table key_to_native read_table_prefix append_table_key_block
    append_table_key_all for_each for_each_from from_bound bytes_lt prefix_gt lookup
    get_received_block get make_received_block_key end_write write_batches row_positions
    init_positions fill_positions fill_positions_rw fill_positions_loop position_step skip_step
    mark_position set_position skip_bin extract_keys position_of bin_to_key index_keys index_key
    append_index_key append_index_suffix append_table_key native_to_key bytes_eq truncate_head
truncates = refl

stored-config : stored.session.query_config ≡ query_config
unfolding end_write write_batches append_rows
stored-config = refl

truncate-Covered_example :
    (index : WriteBatch) × (content : WriteBatch) × (truncated.db
      ≡ in_memory.write content (in_memory.write index stored.db))
    × Covered serial query_config (in_memory.get (in_memory.write index stored.db))
    × Covered serial query_config (in_memory.get truncated.db)
truncate-Covered_example =
    truncate-Covered in_memory in_memory-IsStore serial abieos-IsAbieos query_config 4 stored
      truncated stored-config truncates stored-Covered

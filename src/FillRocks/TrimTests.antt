-- ===== src/FillRocks/TrimTests.antt =====
-- Rows of two blocks, and the witnesses for `trim` and `check`.
use history_tools.Common.{
  ℕ, All, ◌≤◌, ◌≡◌, ◌≢◌, refl, ap, true, false, ◌++◌, List, [], ◌∷◌, Bytes, none, some, ok, arith,
}
use history_tools.Kv.Types.{skip_bin, skip_key, bin_to_key, key_to_key, bin_to_bin}
use history_tools.Kv.Keys.{
  key_to_native, native_to_key, append_table_key, append_index_key, append_index_suffix,
  read_table_prefix, read_index_prefix, read_index_suffix, append_table_key_block,
  append_table_key_all, append_index_key_all,
}
use history_tools.Kv.Tests.{abieos, abieos-IsAbieos}
use history_tools.Kv.Positions.{
  init_positions, fill_positions, fill_positions_rw, fill_positions_loop, position_step, skip_step,
  mark_position, set_position, extract_keys, position_of, fill_positions_from_index, extract_pk,
  extract_pk_fields, extract_pk_from_index,
}
use history_tools.Rdb.Database.{exists, delete}
use history_tools.FillRocks.State.{World}
use history_tools.FillRocks.Rows.{
  add_row, remove_row, remove_row_at, row_positions, index_keys, index_key, row_index_keys,
  read_row_key, get_kv_table,
}
use history_tools.FillRocks.Blocks.{
  append_rows, end_write, write_batches, fill_status, status_write,
}
use history_tools.FillRocks.Session.{trim}
use history_tools.FillRocks.Snapshots.{
  Version, Split, newest, OneUpTo, removals, AllDecoded, trim_range-Split,
}
use history_tools.FillRocks.Check.{check_indexes, check_entry, check_reference}
use history_tools.FillRocks.Checked.{IsIndexed, check_indexes-IsIndexed}
use history_tools.FillRocks.Trimmed.{trim-Covered}
use history_tools.FillRocks.Trim.{
  chars_lt, set_insert, add_removal, trim_key, visit_row, scan_row, trim_entry, trim_range,
  trim_ranges, trim_batch,
}
use history_tools.SqlConverter.Types.{bytes_eq}
use history_tools.Rdb.Range.{for_each, for_each_from, prefix_gt}
use history_tools.Rdb.InRange.{select, in_range, from_bound, bytes_lt}
use history_tools.FillRocks.Pending.{IsPending, add_row-IsPending, end_write-Covered}
use history_tools.FillRocks.Covered.{Covered}
use history_tools.Rdb.Model.{
  in_memory, empty_database, in_memory-IsStore, lookup, carry_out, insert, remove,
}
use history_tools.FillRocks.Tests.{
  serial, balances, by_account, query_config, balance, row_key, entry_key, row_writes, session,
  one_waits, one_waits-IsPending, status-IsPlain, empty-Covered,
}

-- A session with rows of two blocks, and its database behind an `end_write`.
added_first : add_row serial balances 3 true (balance 3 40) ≡ ok (row_writes 3 40)
unfolding add_row row_positions init_positions fill_positions fill_positions_rw fill_positions_loop
    position_step skip_step mark_position set_position skip_bin extract_keys position_of bin_to_key
    index_keys index_key append_index_key append_index_suffix append_table_key native_to_key
added_first = refl

abbrev pub two_wait : World in_memory
two_wait = append_rows in_memory serial (row_writes 3 40) one_waits

fifth : Bytes → ℕ
fifth (a ∷ b ∷ c ∷ d ∷ e ∷ k) = e
fifth k = 0

row_key-ne : row_key 5 ≢ row_key 3
unfolding fifth
row_key-ne same = omega (arith, ap fifth same)

two_wait-IsPending : IsPending in_memory serial abieos-IsAbieos query_config two_wait
unfolding in_memory empty_database lookup append_rows
two_wait-IsPending =
    add_row-IsPending in_memory serial abieos-IsAbieos query_config balances 3 true (balance 3 40)
      (row_writes 3 40) one_waits refl (omega arith) (omega arith) added_first
      ((refl, (row_key-ne, tt)), tt) one_waits-IsPending

abbrev pub two_stored : World in_memory
two_stored = end_write in_memory serial false two_wait

two_stored-Covered : Covered serial query_config (in_memory.get two_stored.db)
unfolding append_rows empty_database
two_stored-Covered =
    (end_write-Covered in_memory serial abieos-IsAbieos query_config false two_wait
      in_memory-IsStore.writes status-IsPlain two_wait-IsPending empty-Covered).2

abbrev trimmed : World in_memory
trimmed = (trim in_memory serial two_stored).1

trims : trim in_memory serial two_stored ≡ (ok tt, trimmed)
unfolding append_rows in_memory empty_database carry_out insert remove trim trim_batch trim_ranges
    trim_range trim_entry scan_row visit_row trim_key set_insert chars_lt add_removal remove_row_at
    remove_row row_index_keys read_row_key get_kv_table key_to_native read_table_prefix
    append_table_key_block append_table_key_all for_each for_each_from from_bound bytes_lt prefix_gt
    lookup read_index_prefix fill_positions_from_index skip_key read_index_suffix extract_pk
    extract_pk_fields key_to_key bin_to_bin end_write write_batches row_positions init_positions
    fill_positions fill_positions_rw fill_positions_loop position_step skip_step mark_position
    set_position skip_bin extract_keys position_of bin_to_key index_keys index_key append_index_key
    append_index_suffix append_table_key native_to_key bytes_eq fill_status status_write
trims = refl

trim-Covered_example : Covered serial query_config (in_memory.get trimmed.db)
unfolding end_write write_batches append_rows
trim-Covered_example =
    trim-Covered in_memory in_memory-IsStore serial abieos-IsAbieos two_stored trimmed
      status-IsPlain trims two_stored-Covered

abbrev version : ℕ → Version
version block = record {
  block = block;
  writes = (delete (row_key block) ∷ [], delete (entry_key block) ∷ []);
}

abbrev range : Bytes
range = append_index_key abieos 7 9 ++ 3 ∷ []

two_stored-AllDecoded :
    AllDecoded serial query_config 1 8 in_memory two_stored.db balances by_account
      (select (in_range range range) (in_memory.iterator two_stored.db).entries)
      (version 5 ∷ version 3 ∷ [])
unfolding append_rows in_memory empty_database carry_out insert remove select remove_row_at
    remove_row row_index_keys read_row_key get_kv_table key_to_native read_table_prefix from_bound
    bytes_lt prefix_gt lookup read_index_prefix fill_positions_from_index skip_key read_index_suffix
    extract_pk extract_pk_fields key_to_key bin_to_bin end_write write_batches row_positions
    init_positions fill_positions fill_positions_rw fill_positions_loop position_step skip_step
    mark_position set_position skip_bin extract_keys position_of bin_to_key index_keys index_key
    append_index_key append_index_suffix append_table_key native_to_key bytes_eq
two_stored-AllDecoded = (
  (true, none ∷ none ∷ some 17 ∷ none ∷ [], 18, row_key 5, refl, refl, refl),
  ((true, none ∷ none ∷ some 17 ∷ none ∷ [], 18, row_key 3, refl, refl, refl), tt),
)

trim_range-Split_example :
    (kept : List Version) × (removed : List Version) × Split
      (version 5 ∷ version 3 ∷ [])
      kept
      removed
    × (trim_range serial query_config 1 8 in_memory two_stored.db range []
        ≡ ok (removals removed []))
    × ((block : ℕ) → 8 ≤ block → newest block kept ≡ newest block (version 5 ∷ version 3 ∷ []))
    × OneUpTo 8 kept
trim_range-Split_example =
    trim_range-Split serial abieos-IsAbieos query_config 1 8 in_memory two_stored.db balances
      by_account 7 (3 ∷ []) (version 5 ∷ version 3 ∷ []) []
      (in_memory-IsStore.in_order two_stored.db) (omega arith) (omega arith) (omega arith) refl refl
      two_stored-AllDecoded ((omega arith, tt), (tt, tt))

checks : check_indexes serial (session [] []) in_memory two_stored.db ≡ ok tt
unfolding append_rows in_memory empty_database carry_out insert remove check_indexes check_entry
    check_reference exists key_to_native append_index_key_all for_each for_each_from from_bound
    bytes_lt prefix_gt lookup read_index_prefix fill_positions_from_index skip_key read_index_suffix
    extract_pk extract_pk_from_index extract_pk_fields key_to_key bin_to_bin end_write write_batches
    init_positions fill_positions_rw fill_positions_loop position_step skip_step mark_position
    set_position skip_bin position_of append_table_key native_to_key bytes_eq
checks = refl

check_indexes-IsIndexed_example : All (IsIndexed serial (session [] []) in_memory two_stored.db) (
    select
      (in_range (append_index_key_all abieos) (append_index_key_all abieos))
      (in_memory.iterator two_stored.db).entries)
check_indexes-IsIndexed_example =
    check_indexes-IsIndexed serial (session [] []) in_memory two_stored.db
      (in_memory-IsStore.in_order two_stored.db) checks

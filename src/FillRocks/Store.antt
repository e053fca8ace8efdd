-- ===== src/FillRocks/Store.antt =====
-- What the session of src/fill_rocksdb_plugin.cpp reads of its database: `get_positions`, and the
-- rows that `truncate` removes.
use history_tools.Common.{
  ℕ, zero, suc, ◌+◌, ◌-◌, ◌%◌, ◌^◌, max, ◌++◌, List, [], ◌∷◌, if◌then◌else◌, Bool, true, Option,
  Result, ok, ◌>>=◌, or_throw, ◌==◌,
}
use history_tools.Kv.Keys.{append_table_key_all, append_table_key_block, make_received_block_key}
use history_tools.Rdb.Range.{Visitor, for_each}
use history_tools.Rdb.Database.{WriteBatch, Rocksdb, get}
use history_tools.FillRocks.State.{Session, Serial, QueryConfig, BlockPosition}
use history_tools.FillRocks.Rows.{remove_row}

-- `block + 1` of a `uint32_t`.
abbrev pub after : ℕ → ℕ
after block = (block + 1) % 2 ^ 32

-- The batch of the contents and that of the indexes.
abbrev pub Batches : Type 0
Batches = WriteBatch × WriteBatch

-- The visitor of `truncate`: each row is removed.
unfoldable pub remove_visited : Serial → QueryConfig → Visitor Batches
remove_visited n c k v batches = do
  writes ← remove_row n c k v
  ok (true, (batches.0 ++ writes.0, batches.1 ++ writes.1))

module _ (r : Rocksdb) (n : Serial) where
  unfoldable pub get_received_block : r.Db → ℕ → Bool → Result (Option BlockPosition)
  get_received_block db block required =
      get r n.bin_to_received_block db (make_received_block_key n.abieos block) required

  -- The blocks from `i` on, `count` of them; each is required.
  unfoldable pub positions_from : r.Db → ℕ → ℕ → Result (List BlockPosition)
  unfolding get_received_block
  positions_from db i zero = ok []
  positions_from db i (suc count) = do
    rb ← get_received_block db i true
    p ← or_throw rb "get: "
    ps ← positions_from db (i + 1) count
    ok (p ∷ ps)

  -- The loop's counter passes the head; the source's would wrap at a head of 2 ^ 32 - 1.
  unfoldable pub get_positions : Session → r.Db → Result (List BlockPosition)
  unfolding positions_from
  get_positions s db =
      if s.head == 0 then ok [] else positions_from db s.irreversible (s.head + 1 - s.irreversible)

  -- The rows from `block` on, and their index entries.
  unfoldable pub truncate_batches : QueryConfig → ℕ → r.Db → Result Batches
  unfolding remove_visited
  truncate_batches c block db =
      for_each (remove_visited n c) (r.iterator db) (append_table_key_block n.abieos block)
        (append_table_key_all n.abieos) ([], [])

  -- `received(get_status_result_v0)`: the start block and the positions that it asks for.
  unfoldable pub received_status : Session → r.Db → Result (ℕ × List BlockPosition)
  unfolding get_positions
  received_status s db = do
    positions ← get_positions s db
    ok (max s.config.skip_to (after s.head), positions)

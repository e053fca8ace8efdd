-- ===== src/FillRocks/Blocks.antt =====
-- The rows that a block brings: `receive_block`, `receive_deltas` and `receive_traces` of
-- src/fill_rocksdb_plugin.cpp, with `write_fill_status` and `end_write`. They are methods of the
-- session and its database: a large delta writes the batches before each ten thousand rows.
use history_tools.Common.{
  ℕ, zero, suc, ◌+◌, ◌%◌, Bool, true, false, ◌&&◌, ◌++◌, List, [], ◌∷◌, if◌then◌else◌, Bytes, codes,
  Option, none, some, Result, ok, or_throw, ltb, ◌==◌, length, map,
}
use history_tools.Calls.{Method, return, pass, modify, ◌>>=◌, ◌>>◌}
use history_tools.History.{FillStatus}
use history_tools.History.Filter.{TrxFilter, ActionTrace, filter_trace}
use history_tools.History.Variant.{check_variant, check_variant_name}
use history_tools.SqlConverter.Types.{AbiType, Fields, bytes_eq}
use history_tools.Kv.Keys.{from_bool, make_fill_status_key}
use history_tools.Rdb.Database.{Write, put, WriteBatch, Rocksdb}
use history_tools.FillRocks.State.{
  RocksTable, Session, World, Serial, DeltaRow, TableDelta, ActionTraceV0, TransactionTrace, Trace,
}
use history_tools.FillRocks.Fields.{fill_all}
use history_tools.FillRocks.Rows.{add_row, block_info_value, action_trace_value}

unfoldable pub find_table : Bytes → List (Bytes × RocksTable) → Option RocksTable
find_table name [] = none
find_table name ((m, t) ∷ tables) = if bytes_eq m name then some t else find_table name tables

unfoldable pub get_table : Session → Bytes → Result RocksTable
unfolding find_table
get_table s name = or_throw (find_table name s.tables) "unknown table"

unfoldable pub get_type : Session → Bytes → Result AbiType
get_type s name = or_throw (s.abi_types name) "abi: unknown type"

-- The names of a variant's alternatives.
abbrev pub field_names : Fields → List Bytes
field_names Fields.no_fields = []
field_names (Fields.field n t fs) = n ∷ field_names fs

unfoldable pub alternatives : AbiType → Option (List Bytes)
alternatives (AbiType.variant n fs) = some (field_names fs)
alternatives (AbiType.builtin n) = none
alternatives (AbiType.optional_of n t) = none
alternatives (AbiType.array_of n t) = none
alternatives (AbiType.struct_ n fs) = none

-- The status of the session, with an irreversible block that is not behind the head.
unfoldable pub fill_status : Session → FillStatus
fill_status s =
    if ltb s.irreversible s.head
    then record {
      head = s.head;
      head_id = s.head_id;
      irreversible = s.irreversible;
      irreversible_id = s.irreversible_id;
      first = s.first;
    }
    else record {
      head = s.head;
      head_id = s.head_id;
      irreversible = s.head;
      irreversible_id = s.head_id;
      first = s.first;
    }

unfoldable pub status_write : Serial → Session → Write
unfolding fill_status
status_write n s = put (make_fill_status_key n.abieos) (n.fill_status_to_bin (fill_status s))

-- What the filters read of a trace.
abbrev pub filtered_action : ActionTraceV0 → ActionTrace
filtered_action a = record {
  receiver = a.receiver;
  act_account = a.act_account;
  act_name = a.act_name;
}

abbrev pub outer : Trace → TransactionTrace
outer (Trace.plain t) = t
outer (Trace.with_failed t failed) = t

unfoldable pub trace_passes : List TrxFilter → Trace → Bool
trace_passes filters trace =
    let t = outer trace in filter_trace filters t.status (map filtered_action t.action_traces)

module _ (r : Rocksdb) (n : Serial) where
  -- The rows of `add_row`, in the session's batches.
  unfoldable pub append_rows : WriteBatch × WriteBatch → World r → World r
  append_rows (content, index) w =
      let s = w.session in
      record w {
        session = record s {
          active_content_batch = s.active_content_batch ++ content;
          active_index_batch = s.active_index_batch ++ index;
        };
      }

  unfoldable pub write_fill_status : World r → World r
  unfolding status_write
  write_fill_status w =
      let s = w.session in
      record w {
        session = record s {
          current_db_status = some (fill_status s);
          active_index_batch = s.active_index_batch ++ status_write n s ∷ [];
        };
      }

  -- The contents are written before the indexes, and both batches are cleared.
  unfoldable pub write_batches : World r → World r
  write_batches w =
      let s = w.session in
      record {
        session = record s { active_content_batch = []; active_index_batch = [] };
        db = r.write s.active_index_batch (r.write s.active_content_batch w.db);
      }

  unfoldable pub end_write : Bool → World r → World r
  unfolding write_fill_status write_batches
  end_write write_fill w =
      if write_fill then write_batches (write_fill_status w) else write_batches w

  -- `add_row` on the session's batches.
  unfoldable pub add_active_row : RocksTable → ℕ → Bool → Bytes → Method (World r) (Unit {0})
  unfolding append_rows
  add_active_row t block_num present value =
      pass (add_row n t.kv_table block_num present value) >>= λ writes. modify (append_rows writes)

  unfoldable pub receive_block : ℕ → ℕ → Bytes → Method (World r) (Unit {0})
  unfolding add_active_row
  receive_block block_num block_id bin w =
      (pass (n.bin_to_signed_block bin) >>= λ (block, _).
      pass (get_table w.session (codes "block_info")) >>= λ table.
      add_active_row table block_num true (block_info_value n block_num block_id block))
        w

  -- A row of a delta, behind the check of its variant.
  unfoldable pub receive_row : RocksTable → ℕ → DeltaRow → Method (World r) (Unit {0})
  unfolding add_active_row alternatives
  receive_row t block_num row =
      pass (check_variant n.abieos.bin_to_varuint32 row.bin (alternatives t.abi_type) 0) >>= λ bin.
      pass (fill_all n t.fields bin) >>= λ (values, _). add_active_row t block_num row.present (
        n.abieos.uint_to_bin 4 block_num
        ++ (n.abieos.uint_to_bin 1 (from_bool row.present) ++ values))

  -- The rows of a delta of `size` rows, from the one numbered `num_processed` on.
  unfoldable pub receive_rows : RocksTable → ℕ → ℕ → ℕ → List DeltaRow → Method (World r) (Unit {0})
  unfolding receive_row end_write
  receive_rows t block_num size num_processed [] = return tt
  receive_rows t block_num size num_processed (row ∷ rows) =
      modify (λ w. if ltb 10000 size && num_processed % 10000 == 0 then end_write false w else w)
      >> (receive_row t block_num row >> receive_rows t block_num size (num_processed + 1) rows)

  unfoldable pub receive_delta : TableDelta → ℕ → Method (World r) (Unit {0})
  unfolding receive_rows get_table
  receive_delta delta block_num w =
      (pass (get_table w.session delta.name) >>= λ t.
      receive_rows t block_num (length delta.rows) 0 delta.rows)
        w

  unfoldable pub receive_deltas_from : ℕ → AbiType → ℕ → Bytes → Method (World r) (Unit {0})
  unfolding receive_delta alternatives
  receive_deltas_from zero type block_num bin = return tt
  receive_deltas_from (suc num) type block_num bin =
      pass (
        check_variant_name n.abieos.bin_to_varuint32 bin (alternatives type)
          (codes "table_delta_v0"))
      >>= λ bin'. pass (n.bin_to_table_delta bin') >>= λ (delta, rest).
          (receive_delta delta block_num >> receive_deltas_from num type block_num rest)

  unfoldable pub receive_deltas : ℕ → Bytes → Method (World r) (Unit {0})
  unfolding receive_deltas_from get_type
  receive_deltas block_num bin w =
      (pass (get_type w.session (codes "table_delta")) >>= λ type.
      pass (n.abieos.bin_to_varuint32 bin) >>= λ (num, rest).
      receive_deltas_from num type block_num rest)
        w

  unfoldable pub write_action_trace :
      ℕ → TransactionTrace → ActionTraceV0 → Method (World r) (Unit {0})
  unfolding add_active_row get_table
  write_action_trace block_num ttrace atrace w =
      (pass (get_table w.session (codes "action_trace")) >>= λ table.
      add_active_row table block_num true (action_trace_value n block_num ttrace atrace))
        w

  unfoldable pub write_action_traces :
      ℕ → TransactionTrace → List ActionTraceV0 → Method (World r) (Unit {0})
  unfolding write_action_trace
  write_action_traces block_num ttrace [] = return tt
  write_action_traces block_num ttrace (atrace ∷ atraces) =
      write_action_trace block_num ttrace atrace >> write_action_traces block_num ttrace atraces

  -- The trace of a failed deferred transaction comes first; if the filters reject it, nothing of the
  -- outer one is written either. A row of the transaction itself is made up and not put, so the
  -- ordinals that it would hold are left out.
  unfoldable pub write_transaction_trace : ℕ → Trace → Method (World r) (Unit {0})
  unfolding write_action_traces trace_passes
  write_transaction_trace block_num (Trace.plain t) w =
      write_action_traces block_num t t.action_traces w
  write_transaction_trace block_num (Trace.with_failed t failed) w =
      let both =
        (write_transaction_trace block_num failed
            >> write_action_traces block_num t t.action_traces)
          w in
      if trace_passes w.session.config.trx_filters failed then both else (ok tt, w)

  unfoldable pub receive_traces_from : ℕ → ℕ → Bytes → Method (World r) (Unit {0})
  unfolding write_transaction_trace trace_passes
  receive_traces_from zero block_num bin w = (ok tt, w)
  receive_traces_from (suc num) block_num bin w =
      (pass (n.bin_to_trace bin) >>= λ (trace, rest).
      ((λ (v : World r).
          if trace_passes w.session.config.trx_filters trace
          then write_transaction_trace block_num trace v
          else (ok tt, v))
        >> receive_traces_from num block_num rest))
        w

  unfoldable pub receive_traces : ℕ → Bytes → Method (World r) (Unit {0})
  unfolding receive_traces_from
  receive_traces block_num bin =
      pass (n.abieos.bin_to_varuint32 bin) >>= λ (num, rest). receive_traces_from num block_num rest

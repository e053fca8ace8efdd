-- ===== src/FillPg/Rows.antt =====
-- The rows that a block brings: `write_stream`, `receive_block`, `receive_deltas` with
-- `write_table_delta`, and `receive_traces` with `write_transaction_trace`, of
-- src/fill_pg_plugin.cpp. They write to the streams of the session alone. After an exception the
-- session is dropped, so the part of its state that had been written is not kept.
use history_tools.Common.{
  ℕ, ◌+◌, ◌%◌, ◌^◌, Bool, true, false, ◌++◌, List, [], ◌∷◌, if◌then◌else◌, Bytes, codes, Option,
  none, some, Result, ok, err, ◌>>=◌, or_throw, to_string, ◌==◌,
}
use history_tools.History.Filter.{filter_trace}
use history_tools.SqlConverter.Escape.{FieldKind}
use history_tools.SqlConverter.Types.{
  AbiType, builtin, optional_of, array_of, struct_, variant, bytes_eq, Fields,
}
use history_tools.SqlConverter.Value.{struct_values, variant_values, row_values}
use history_tools.FillPg.State.{
  Session, Services, Stream, DeltaRow, TableDelta, Trace, plain, with_failed, BlocksResult,
}

-- `table_streams[name]`, with the line written.
unfoldable pub append_line : Bytes → Bytes → List Stream → List Stream
append_line name line [] = (name, line ∷ []) ∷ []
append_line name line ((n, lines) ∷ streams) =
    if bytes_eq n name
    then (n, lines ++ line ∷ []) ∷ streams
    else (n, lines) ∷ append_line name line streams

unfoldable pub write_stream : Services → ℕ → Bytes → List Bytes → Session → Session
unfolding append_line
write_stream sv block_num name values s = record s {
  first_bulk = if s.first_bulk == 0 then block_num else s.first_bulk;
  table_streams = append_line name (sv.join values (codes "\t")) s.table_streams;
}

unfoldable pub get_type : Session → Bytes → Result AbiType
get_type s name = or_throw (s.abi_types name) "Unable to find in the received abi"

-- `*abi_type.as_struct()`
unfoldable pub as_struct : AbiType → Option Fields
as_struct (struct_ n fs) = some fs
as_struct (builtin n) = none
as_struct (optional_of n t) = none
as_struct (array_of n t) = none
as_struct (variant n fs) = none

unfoldable pub as_variant : AbiType → Option Fields
as_variant (variant n fs) = some fs
as_variant (builtin n) = none
as_variant (optional_of n t) = none
as_variant (array_of n t) = none
as_variant (struct_ n fs) = none

unfoldable pub receive_block : Services → ℕ → ℕ → Bytes → Session → Result Session
unfolding as_struct
receive_block sv block_num block_id bin s = do
  abi_type ← get_type s (codes "signed_block_header")
  fs ← or_throw (as_struct abi_type) "not a struct"
  (vs, rest) ← struct_values sv.library s.converter fs FieldKind.table_field bin
  ok (
      write_stream sv block_num (codes "block_info")
        (to_string block_num ∷ sv.checksum_text block_id ∷ vs) s)

unfoldable pub write_rows :
    Services → ℕ → Bytes → AbiType → List DeltaRow → Session → Result Session
write_rows sv block_num name type [] s = ok s
write_rows sv block_num name type (row ∷ rows) s = do
  (vs, rest) ← row_values sv.library s.converter type FieldKind.table_field row.bin
  write_rows sv block_num name type rows
      (write_stream sv block_num name (to_string block_num ∷ to_string row.present ∷ vs) s)

-- The type is looked at before the rows are: a type of another kind fails for no rows too.
unfoldable pub is_row_type : AbiType → Bool
is_row_type (struct_ n fs) = true
is_row_type (variant n fs) = true
is_row_type (builtin n) = false
is_row_type (optional_of n t) = false
is_row_type (array_of n t) = false

unfoldable pub write_table_delta : Services → ℕ → TableDelta → Session → Result Session
unfolding is_row_type
write_table_delta sv block_num t_delta s = do
  type ← get_type s t_delta.name
  (if is_row_type type
      then write_rows sv block_num t_delta.name type t_delta.rows s
      else err "don't know how to process")

unfoldable pub receive_deltas : Services → ℕ → List TableDelta → Session → Result Session
receive_deltas sv block_num [] s = ok s
receive_deltas sv block_num (d ∷ ds) s = do
  s' ← write_table_delta sv block_num d s
  receive_deltas sv block_num ds s'

unfoldable pub trace_passes : Session → Trace → Bool
trace_passes s (plain status actions bin) = filter_trace s.config.trx_filters status actions
trace_passes s (with_failed status actions bin failed) =
    filter_trace s.config.trx_filters status actions

-- The row of a trace; `num_ordinals` has been increased.
unfoldable pub write_trace_row : Services → ℕ → ℕ → Bytes → Session → Result Session
unfolding as_variant
write_trace_row sv block_num transaction_ordinal trace_bin s = do
  abi_type ← get_type s (codes "transaction_trace")
  fs ← or_throw (as_variant abi_type) "not a variant"
  (vs, rest) ← variant_values sv.library s.converter fs FieldKind.table_field trace_bin
  ok (
      write_stream sv block_num (codes "transaction_trace")
        (to_string block_num ∷ to_string transaction_ordinal ∷ vs) s)

abbrev pub next_ordinal : ℕ → ℕ
next_ordinal n = (n + 1) % 2 ^ 32

-- The trace of a failed deferred transaction is written first. If the filters reject it, the
-- outer trace is not written either.
unfoldable pub write_transaction_trace : Services → ℕ → ℕ → Trace → Session → Result (ℕ × Session)
unfolding trace_passes
write_transaction_trace sv block_num num_ordinals (plain status actions bin) s = do
  s' ← write_trace_row sv block_num (next_ordinal num_ordinals) bin s
  ok (next_ordinal num_ordinals, s')
write_transaction_trace sv block_num num_ordinals (with_failed status actions bin failed) s =
    let both : Result (ℕ × Session) = (do
      (num_ordinals', s') ← write_transaction_trace sv block_num num_ordinals failed s
      s'' ← write_trace_row sv block_num (next_ordinal num_ordinals') bin s'
      ok (next_ordinal num_ordinals', s'')) in
    if trace_passes s failed then both else ok (num_ordinals, s)

unfoldable pub receive_traces_from : Services → ℕ → ℕ → List Trace → Session → Result Session
unfolding trace_passes
receive_traces_from sv block_num num_ordinals [] s = ok s
receive_traces_from sv block_num num_ordinals (trace ∷ traces) s =
    let kept : Result Session = (do
      (num_ordinals', s') ← write_transaction_trace sv block_num num_ordinals trace s
      receive_traces_from sv block_num num_ordinals' traces s') in
    let skipped = receive_traces_from sv block_num num_ordinals traces s in
    if trace_passes s trace then kept else skipped

unfoldable pub receive_traces : Services → ℕ → List Trace → Session → Result Session
receive_traces sv block_num traces s = receive_traces_from sv block_num 0 traces s

-- The handlers call `receive_block` if there is a header.
unfoldable pub receive_header : Services → ℕ → ℕ → Option Bytes → Session → Result Session
receive_header sv block_num block_id none s = ok s
receive_header sv block_num block_id (some header) s = receive_block sv block_num block_id header s

-- The body of the handler that the three `received` functions pass to `process_blocks_result`.
unfoldable pub handle_block : Services → ℕ → ℕ → BlocksResult → Session → Result Session
handle_block sv block_num block_id result s = do
  s1 ← receive_header sv block_num block_id result.block_header s
  s2 ← receive_deltas sv block_num result.deltas s1
  receive_traces sv block_num result.traces s2

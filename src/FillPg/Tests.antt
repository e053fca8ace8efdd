-- ===== src/FillPg/Tests.antt =====
-- Tests of the session, and witnesses of what is proved about it.
use history_tools.Common.{
  ℕ, ◌≡◌, ◌≢◌, ◌<◌, refl, ap, Bytes, codes, [], ◌∷◌, ok, err, arith, true, to_string, Bool, Result,
  ◌++◌,
}
use history_tools.SqlConverter.Escape.{escape_field}
use history_tools.SqlConverter.Types.{
  bytes_eq, basic_type, field_type, element_type, struct_type, get_field_def,
}
use history_tools.SqlConverter.Union.{
  union_fields, add_alternatives, add_alternative, add_struct, add_field,
}
use history_tools.SqlConverter.Value.{
  struct_values, variant_values, row_values, read_columns, read_variant, fill_union, columns,
  alternatives, struct_columns, to_sql_value, read_basic, basic_text, is_column, absent_text,
  null_text, starts_with,
}
use history_tools.FillPg.Database.{received_block, run_all, insert_received_block}
use history_tools.FillPg.State.{Session, BlockPosition}
use history_tools.FillPg.Rows.{
  handle_block, receive_header, receive_block, receive_deltas, write_table_delta, write_rows,
  receive_traces, receive_traces_from, write_stream, get_type, as_struct, as_variant, is_row_type,
}
use history_tools.FillPg.Session.{
  process_blocks_result, process_block, received_status, begin_block, prepare, store_block,
  commit_block, finish_block, prev_matches, advance, flush_streams, close_streams, trim,
  trim_statements, write_fill_status, stream_statements, truncate, truncate_statements,
  truncate_head,
}
use history_tools.FillPg.Keeps.{IsConsistent}
use history_tools.FillPg.Consistent.{Settled, process_blocks_result-IsConsistent}
use history_tools.FillPg.Start.{received_status-IsConsistent}
use history_tools.FillPg.Status.{process_block_live, process_block_fork}
use history_tools.FillPg.Memory.{memory, memory-IsSql, services, world, block}

first_byte : Bytes → ℕ
first_byte [] = 0
first_byte (c ∷ s) = c

account-ne : codes "account" ≢ received_block
unfolding first_byte
account-ne e = omega (arith, ap first_byte e)

world-IsConsistent : IsConsistent memory world
world-IsConsistent = record {
  above = λ m lt. ground arith;
  at_head = λ ne. refl;
  tables_apart = (account-ne, tt);
  streams_apart = tt;
}

process_blocks_result-IsConsistent_example :
    Settled memory world.session (process_blocks_result memory services (block 9 80) world)
process_blocks_result-IsConsistent_example =
    process_blocks_result-IsConsistent memory memory-IsSql services (block 9 80) world
      world-IsConsistent (account-ne, tt)

abbrev next : BlockPosition
next = record { block_num = 10; block_id = 100 }

abbrev other : BlockPosition
other = record { block_num = 9; block_id = 90 }

-- The session that a call leaves.
abbrev session_of : Result (Bool × Session) → Session
session_of (ok (b, s)) = s
session_of (err e) = world.session

-- The block behind the head is stored: its rows are copied, and nothing waits.
stores_next :
    (process_block memory services next (block 10 90) world).0
    ≡ ok (true, session_of (process_block memory services next (block 10 90) world).0)
unfolding process_block store_block begin_block commit_block finish_block prepare prev_matches
    advance flush_streams close_streams trim trim_statements write_fill_status run_all
    stream_statements handle_block receive_header receive_block receive_deltas write_table_delta
    write_rows row_values receive_traces receive_traces_from write_stream get_type struct_values
    variant_values read_columns read_variant fill_union columns alternatives struct_columns
    to_sql_value read_basic basic_text union_fields add_alternatives add_alternative add_struct
    add_field get_field_def field_type element_type struct_type basic_type bytes_eq is_column
    absent_text null_text to_string as_struct as_variant is_row_type starts_with escape_field
stores_next = refl

switches_fork :
    (process_block memory services other (block 9 80) world).0
    ≡ ok (true, session_of (process_block memory services other (block 9 80) world).0)
unfolding process_block store_block begin_block commit_block finish_block prepare prev_matches
    advance flush_streams close_streams trim trim_statements write_fill_status run_all
    stream_statements handle_block receive_header receive_block receive_deltas write_table_delta
    write_rows row_values receive_traces receive_traces_from write_stream get_type struct_values
    variant_values read_columns read_variant fill_union columns alternatives struct_columns
    to_sql_value read_basic basic_text union_fields add_alternatives add_alternative add_struct
    add_field get_field_def field_type element_type struct_type basic_type bytes_eq is_column
    absent_text null_text to_string as_struct as_variant is_row_type starts_with escape_field
    truncate truncate_statements truncate_head
switches_fork = refl

process_block_live_example :
    let r = process_block memory services next (block 10 90) world in
    ((memory.fill_status r.1).head ≡ 10) × ((session_of r.0).table_streams ≡ [])
process_block_live_example =
    process_block_live memory memory-IsSql services next (block 10 90) world refl refl refl refl
      stores_next

process_block_fork_example :
    let r = process_block memory services other (block 9 80) world in
    let w0 = prepare memory services other (block 9 80) world in
    ((memory.fill_status r.1).head ≡ 9)
    × ((s : Session) × (handle_block services 9 90
            (block 9 80)
            (begin_block memory services other w0).0
          ≡ ok s)
        × ((session_of r.0).table_streams ≡ s.table_streams)
        × (r.1
            ≡ run_all memory
                (truncate_statements w0.session 9
                  ++ (write_fill_status (advance services other (block 9 80) s)
                      ∷ insert_received_block 9 (services.checksum_text 90)
                      ∷ []))
                w0.db))
process_block_fork_example =
    process_block_fork memory memory-IsSql services other (block 9 80) world refl refl refl
      switches_fork

received_status-IsConsistent_example :
    let (start, positions, w') = received_status memory services world in
    IsConsistent memory w' × (w'.session.head < start)
received_status-IsConsistent_example =
    received_status-IsConsistent memory memory-IsSql services world (account-ne, tt) tt
      (omega arith) (λ ne e. cc)

-- ===== src/FillPg/Session.antt =====
-- The life of a session of src/fill_pg_plugin.cpp: `load_fill_status`, `get_positions`,
-- `write_fill_status`, `truncate`, `trim`, `flush_streams`, `close_streams`,
-- `process_blocks_result` and the handler of the plugin's status. A call takes the session and the
-- database, and gives them back with its result. Where it throws, `catch_and_close` of
-- src/state_history_connection.hpp calls `closed`, which destroys the session with the head and the
-- streams that it then had, so an exception comes with the database alone: what was committed stays.
use history_tools.Common.{
  ℕ, ◌+◌, ◌-◌, ◌*◌, ◌%◌, ◌^◌, min, max, Bool, true, false, not, ◌&&◌, ◌||◌, ◌++◌, List, [], ◌∷◌,
  map, if◌then◌else◌, Bytes, codes, Option, none, some, Result, ok, err, ◌==◌, ltb, leb, is_empty,
  String,
}
use history_tools.SqlConverter.Types.{bytes_eq}
use history_tools.FillPg.Database.{
  Statement, delete_from, set_fill_status, insert_received_block, copy, create_trim, trim_history,
  Postgres, run_all, received_block,
}
use history_tools.FillPg.State.{AbiTable, Stream, Session, Services, BlockPosition, BlocksResult}
use history_tools.FillPg.Rows.{handle_block}

-- `write_fill_status`: the irreversible block that is stored is never behind the head.
unfoldable pub write_fill_status : Session → Statement
write_fill_status s =
    if ltb s.irreversible s.head
    then set_fill_status s.head s.head_id s.irreversible s.irreversible_id s.first
    else set_fill_status s.head s.head_id s.head s.head_id s.first

unfoldable pub truncate_statements : Session → ℕ → List Statement
truncate_statements s block =
    delete_from received_block block
    ∷ delete_from (codes "transaction_trace") block
    ∷ delete_from (codes "block_info") block
    ∷ map (λ (t : AbiTable). delete_from t.type block) s.tables

-- `block - 1` and `block + 1` of a `uint32_t`.
abbrev pub before : ℕ → ℕ
before block = (block + 2 ^ 32 - 1) % 2 ^ 32

abbrev pub after : ℕ → ℕ
after block = (block + 1) % 2 ^ 32

-- What `truncate` makes of the session, from the result of its query.
unfoldable pub truncate_head : ℕ → Option Bytes → Session → Session
truncate_head block none s = record s { head = 0; head_id = []; first = min s.first 0 }
truncate_head block (some id) s = record s {
  head = before block;
  head_id = id;
  first = min s.first (before block);
}

-- `flush_streams`: each writer is completed and its transaction committed.
unfoldable pub stream_statements : List Stream → List Statement
stream_statements [] = []
stream_statements ((name, lines) ∷ streams) = copy name lines ∷ stream_statements streams

-- `bulk`, `large_deltas` and `forks` as `process_blocks_result` first sets them.
abbrev pub is_bulk : BlockPosition → BlocksResult → Bool
is_bulk this result = ltb ((this.block_num + 4) % 2 ^ 32) result.last_irreversible.block_num

abbrev pub has_large_deltas : BlockPosition → BlocksResult → Bool
has_large_deltas this result =
    not (is_bulk this result) && leb (10 * 1024 * 1024) result.deltas_size

abbrev pub is_fork : Session → BlockPosition → Bool
is_fork s this = leb this.block_num s.head

-- `bulk` where the handler is called.
abbrev pub bulk_now : Session → BlockPosition → BlocksResult → Bool
bulk_now s this result =
    if is_fork s this then false else is_bulk this result || has_large_deltas this result

abbrev pub stop_requested : Session → BlockPosition → Bool
stop_requested s this = not (s.config.stop_before == 0) && leb s.config.stop_before this.block_num

unfoldable pub prev_matches : Services → Session → BlocksResult → Bool
prev_matches sv s result = is_empty s.head_id || elim result.prev_block [
  | none ↦ false
  | some prev ↦ bytes_eq (sv.checksum_text prev.block_id) s.head_id
]

-- The head moves to the block.
unfoldable pub advance : Services → BlockPosition → BlocksResult → Session → Session
advance sv this result s = record s {
  head = this.block_num;
  head_id = sv.checksum_text this.block_id;
  irreversible = result.last_irreversible.block_num;
  irreversible_id = sv.checksum_text result.last_irreversible.block_id;
  first = if s.first == 0 then this.block_num else s.first;
}

pub record World (pg : Postgres) : Type 0 where
  pub session : Session
  pub db : pg.Db

-- The value of a call and the session that it leaves, or its exception; and the database.
abbrev pub Outcome : Postgres → Type 0
Outcome pg = Result (Bool × Session) × pg.Db

module _ (pg : Postgres) (sv : Services) where
  abbrev pub returned : Bool → World pg → Outcome pg
  returned b w = (ok (b, w.session), w.db)

  -- The transaction and the streams that are not committed are dropped with the session.
  abbrev pub thrown : String → World pg → Outcome pg
  thrown e w = (err e, w.db)

  unfoldable pub flush_streams : World pg → World pg
  unfolding stream_statements
  flush_streams w = record {
    session = record (w.session) { table_streams = [] };
    db = run_all pg (stream_statements w.session.table_streams) w.db;
  }

  unfoldable pub close_streams : World pg → World pg
  unfolding flush_streams
  close_streams w =
      if is_empty w.session.table_streams
      then w
      else let w' = flush_streams w in
        record {
          session = record (w'.session) { first_bulk = 0 };
          db = run_all pg (write_fill_status w'.session ∷ []) w'.db;
        }

  unfoldable pub trim_statements : Session → List Statement
  trim_statements s =
      (if s.created_trim then [] else create_trim ∷ [])
      ++ trim_history s.first (min s.head s.irreversible) ∷ []

  unfoldable pub trim : World pg → World pg
  unfolding trim_statements
  trim w =
      let s = w.session in
      if not s.config.enable_trim
      then w
      else if leb (min s.head s.irreversible) s.first
      then w
      else record {
        session = record s { created_trim = true; first = min s.head s.irreversible };
        db = run_all pg (trim_statements s) w.db;
      }

  -- `truncate` within a transaction: its statements, and the session by what its query finds.
  unfoldable pub truncate : ℕ → World pg → Session × List Statement
  truncate block w =
      let statements = truncate_statements w.session block in
      (
        truncate_head block (pg.block_id (run_all pg statements w.db) (before block)) w.session,
        statements,
      )

  -- From the handler's return to the commit. The streams are flushed on their own connections,
  -- before the transaction `t` commits.
  unfoldable pub finish_block :
      BlockPosition → BlocksResult → Bool → Bool → List Statement → World pg → World pg
  finish_block this result bulk forks statements w =
      let s = advance sv this result w.session in
      let w1 : World pg = record { session = s; db = w.db } in
      let w2 = if bulk then w1 else (if forks then w1 else flush_streams w1) in
      let status = if bulk then [] else write_fill_status s ∷ [] in
      record {
        session = w2.session;
        db =
            run_all pg
              (statements
                ++ (status
                    ++ insert_received_block this.block_num (sv.checksum_text this.block_id) ∷ []))
              w2.db;
      }

  -- The blocks from `this` on are deleted if it is not above the head.
  unfoldable pub begin_block : BlockPosition → World pg → Session × List Statement
  unfolding truncate
  begin_block this w =
      if leb this.block_num w.session.head then truncate this.block_num w else (w.session, [])

  -- What follows the handler.
  unfoldable pub commit_block :
      BlockPosition
      → BlocksResult
      → Bool
      → Bool
      → List Statement
      → World pg
      → Result Session
      → Outcome pg
  commit_block this result bulk forks statements w (err e) = thrown e w
  commit_block this result bulk forks statements w (ok s) =
      let w' = finish_block this result bulk forks statements (record { session = s; db = w.db }) in
      returned true (if has_large_deltas this result then close_streams w' else w')

  -- From the beginning of the transaction `t`.
  unfoldable pub store_block : BlockPosition → BlocksResult → Bool → Bool → World pg → Outcome pg
  store_block this result bulk forks w =
      let (s, statements) = begin_block this w in
      if prev_matches sv s result
      then commit_block this result bulk forks statements w
          (handle_block sv this.block_num this.block_id result s)
      else thrown "prev_block does not match" w

  -- What is done before the transaction `t`: the streams are closed and the history trimmed.
  unfoldable pub prepare : BlockPosition → BlocksResult → World pg → World pg
  prepare this result w =
      let s = w.session in
      let w1 = if is_fork s this then close_streams w else w in
      let w2 =
        if not (bulk_now s this result) || has_large_deltas this result || this.block_num % 200 == 0
        then close_streams w1
        else w1 in
      if is_empty w2.session.table_streams then trim w2 else w2

  unfoldable pub process_block : BlockPosition → BlocksResult → World pg → Outcome pg
  process_block this result w =
      if stop_requested w.session this
      then returned false (close_streams w)
      else store_block this result (bulk_now w.session this result) (is_fork w.session this)
          (prepare this result w)

  unfoldable pub process_blocks_result : BlocksResult → World pg → Outcome pg
  process_blocks_result result w = elim result.this_block [
    | none ↦ returned true w
    | some this ↦ process_block this result w
  ]

  unfoldable pub load_fill_status : World pg → Session
  load_fill_status w =
      let r = pg.fill_status w.db in
      record (w.session) {
        head = r.head;
        head_id = r.head_id;
        irreversible = r.irreversible;
        irreversible_id = r.irreversible_id;
        first = r.first;
      }

  unfoldable pub get_positions : World pg → List (ℕ × Bytes)
  get_positions w = pg.positions w.db w.session.irreversible w.session.head

  -- `received(get_status_result_v0&)`: the block to start from and the positions that are sent, and
  -- the world with what lies above the head deleted.
  unfoldable pub received_status : World pg → ℕ × List (ℕ × Bytes) × World pg
  unfolding load_fill_status get_positions truncate
  received_status w =
      let w1 : World pg = record { session = load_fill_status w; db = w.db } in
      let positions = get_positions w1 in
      let (s, statements) = truncate (after w1.session.head) w1 in
      (
        max s.config.skip_to (after s.head),
        positions,
        record { session = s; db = run_all pg statements w1.db },
      )

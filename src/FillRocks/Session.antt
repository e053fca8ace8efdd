-- ===== src/FillRocks/Session.antt =====
-- The life of a session of src/fill_rocksdb_plugin.cpp: `load_fill_status`, `truncate`, `trim`, and
-- the handlers of the ABI, of the status and of a block. A flush changes nothing that is read, and
-- `check` is in FillRocks/Check.antt.
use history_tools.Common.{
  ℕ, ◌+◌, ◌-◌, ◌%◌, ◌^◌, min, Bool, true, false, not, ◌&&◌, ◌||◌, ◌++◌, List, [], ◌∷◌,
  if◌then◌else◌, Bytes, Option, none, some, Result, ok, leb, ◌==◌,
}
use history_tools.Calls.{Method, return, throw_unless, pass, modify, ◌>>=◌, ◌>>◌}
use history_tools.History.{FillStatus}
use history_tools.Kv.Keys.{make_received_block_key, make_fill_status_key}
use history_tools.Rdb.Database.{put, Rocksdb, get}
use history_tools.FillRocks.State.{Session, World, Serial, BlockPosition, BlocksResult, RocksTable}
use history_tools.FillRocks.Blocks.{
  fill_status, status_write, append_rows, end_write, receive_block, receive_deltas, receive_traces,
}
use history_tools.FillRocks.Store.{after, get_received_block, truncate_batches}
use history_tools.FillRocks.Trim.{trim_batch}

-- `block - 1` of a `uint32_t`.
abbrev pub before : ℕ → ℕ
before block = (block + 2 ^ 32 - 1) % 2 ^ 32

-- What `load_fill_status` makes of the session.
unfoldable pub set_status : Option FillStatus → Session → Session
set_status none s = record s { current_db_status = none }
set_status (some status) s = record s {
  current_db_status = some status;
  head = status.head;
  head_id = status.head_id;
  irreversible = status.irreversible;
  irreversible_id = status.irreversible_id;
  first = status.first;
}

-- The part of `truncate` that sets the head.
unfoldable pub truncate_head : ℕ → Option BlockPosition → Session → Session
truncate_head block none s = record s { head = 0; head_id = 0; first = min s.first 0 }
truncate_head block (some rb) s = record s {
  head = before block;
  head_id = rb.block_id;
  first = min s.first (before block);
}

-- The end of a block.
unfoldable pub advance : BlockPosition → BlocksResult → Session → Session
advance this result s = record s {
  head = this.block_num;
  head_id = this.block_id;
  irreversible = result.last_irreversible.block_num;
  irreversible_id = result.last_irreversible.block_id;
  first = if s.first == 0 then this.block_num else s.first;
}

-- `!result.prev_block || result.prev_block->block_id != head_id`
unfoldable pub prev_differs : Option BlockPosition → ℕ → Bool
prev_differs none head_id = true
prev_differs (some prev) head_id = not (prev.block_id == head_id)

abbrev pub is_near : BlockPosition → BlocksResult → Bool
is_near this result = leb result.last_irreversible.block_num ((this.block_num + 4) % 2 ^ 32)

abbrev pub commits : BlockPosition → BlocksResult → Bool
commits this result = (this.block_num % 200 == 0) || is_near this result

module _ (r : Rocksdb) (n : Serial) where
  unfoldable pub load_fill_status : Method (World r) (Unit {0})
  unfolding set_status
  load_fill_status w =
      (pass (get r n.bin_to_fill_status w.db (make_fill_status_key n.abieos) false) >>= λ status.
      modify (λ v. record v { session = set_status status v.session }))
        w

  -- The batches of `truncate` are made and the head is looked up; then the indexes go before the
  -- contents.
  unfoldable pub truncate : ℕ → Method (World r) (Unit {0})
  unfolding truncate_head
  truncate block w =
      (pass (truncate_batches r n w.session.query_config block w.db) >>= λ batches.
      pass (get_received_block r n w.db (before block) false) >>= λ rb. modify (λ v. record {
        session = truncate_head block rb v.session;
        db = r.write batches.0 (r.write batches.1 v.db);
      }))
        w

  unfoldable pub trim : Method (World r) (Unit {0})
  trim w =
      let s = w.session in
      let end_trim = min s.head s.irreversible in
      let s' : Session = record s { first = end_trim } in
      let trimmed =
        (pass (trim_batch n s.query_config s.first end_trim r w.db) >>= λ batch. modify (λ v.
            record {
              session = record s' { current_db_status = some (fill_status s') };
              db = r.write (batch ++ status_write n s' ∷ []) v.db;
            }))
          w in
      if leb end_trim s.first then (ok tt, w) else trimmed

  abbrev if_present :
      {A : Type 0} → Option A → (A → Method (World r) (Unit {0})) → Method (World r) (Unit {0})
  if_present none call = return tt
  if_present (some a) call = call a

  -- `end_write(true); truncate(block); end_write(true);`
  unfoldable pub switch_forks : ℕ → Method (World r) (Unit {0})
  unfolding truncate
  switch_forks block = modify (end_write r n true) >> truncate block >> modify (end_write r n true)

  -- The parts of the block, and its row in the blocks received.
  unfoldable pub store_block : BlockPosition → BlocksResult → Method (World r) (Unit {0})
  unfolding advance
  store_block this result =
      if_present result.block (λ bin. receive_block r n this.block_num this.block_id bin)
      >> if_present result.deltas (λ bin. receive_deltas r n this.block_num bin)
      >> if_present result.traces (λ bin. receive_traces r n this.block_num bin)
      >> modify (λ w.
        append_rows r n
          (
            put (make_received_block_key n.abieos this.block_num) (n.received_block_to_bin this)
                ∷ [],
            [],
          )
          (record w { session = advance this result w.session }))

  unfoldable pub check_prev : BlocksResult → Method (World r) (Unit {0})
  unfolding prev_differs
  check_prev result w =
      throw_unless
        (not (not (w.session.head_id == 0) && prev_differs result.prev_block w.session.head_id))
        "prev_block does not match" w

  unfoldable pub commit : BlockPosition → BlocksResult → Method (World r) (Unit {0})
  unfolding trim
  commit this result w =
      let committed =
        (modify (end_write r n true) >> (if w.session.config.enable_trim then trim else return tt))
          w in
      if commits this result then committed else (ok tt, w)

  -- `received(get_blocks_result_v0)`, for a block that is there.
  unfoldable pub receive_result : BlockPosition → BlocksResult → Method (World r) Bool
  unfolding switch_forks check_prev store_block commit
  receive_result this result w =
      ((if leb this.block_num w.session.head then switch_forks this.block_num else return tt)
          >> check_prev result
          >> store_block this result
          >> commit this result
          >> return true)
        w

  unfoldable pub received_at : Option BlockPosition → BlocksResult → Method (World r) Bool
  unfolding receive_result
  received_at none result w = (ok true, w)
  received_at (some this) result w =
      let go = receive_result this result w in
      let stop_before = w.session.config.stop_before in
      if not (stop_before == 0) && leb stop_before this.block_num
      then (ok false, end_write r n true w)
      else go

  unfoldable pub received : BlocksResult → Method (World r) Bool
  unfolding received_at
  received result = received_at result.this_block result

  -- What `received_abi` does behind `init_tables`: stale records are removed. `check` is optional.
  unfoldable pub clean_up : Method (World r) (Unit {0})
  unfolding load_fill_status truncate
  clean_up =
      load_fill_status
      >> modify (end_write r n true)
      >> (λ w. truncate (after w.session.head) w)
      >> modify (end_write r n true)

  unfoldable pub received_abi :
      (Session → Result (List (Bytes × RocksTable)))
      → (World r → Result (Unit {0}))
      → Method (World r) (Unit {0})
  unfolding clean_up
  received_abi init check w =
      (pass (init w.session) >>= λ tables.
      modify (λ v. record v { session = record v.session { tables = tables } })
      >> clean_up
      >> (λ v. (if v.session.config.enable_check then check v else ok tt, v)))
        w

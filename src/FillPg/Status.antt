-- ===== src/FillPg/Status.antt =====
-- What the database says of the progress after a block: the row of `fill_status`, and the rows that
-- still wait in the streams.
use history_tools.Common.{
  ℕ, ◌≤◌, ◌≡◌, refl, sym, ap, ◌∙◌, Bool, true, false, ◌++◌, List, [], ◌∷◌, if◌then◌else◌, Bytes,
  Result, ok, err, leb, arith, ltb, Bool-cases, Result-cases, inl, inr,
}
use history_tools.FillPg.Database.{
  Statement, insert_received_block, StatusRow, Postgres, run_all, IsSql,
}
use history_tools.FillPg.State.{Stream, Session, Services, BlockPosition, BlocksResult}
use history_tools.FillPg.Rows.{handle_block}
use history_tools.FillPg.Session.{
  World, has_large_deltas, prev_matches, advance, write_fill_status, flush_streams, finish_block,
  close_streams, trim, truncate, truncate_statements, begin_block, commit_block, store_block,
  process_block, prepare, stop_requested, is_fork, is_bulk,
}

run_all-append :
    (pg : Postgres) (qs rs : List Statement) (db : pg.Db)
    → run_all pg (qs ++ rs) db ≡ run_all pg rs (run_all pg qs db)
unfolding run_all
run_all-append pg [] rs db = refl
run_all-append pg (q ∷ qs) rs db = run_all-append pg qs rs (pg.run q db)

-- The row that `write_fill_status` writes.
pub status_row : Session → StatusRow
status_row s =
    if ltb s.irreversible s.head
    then record {
      head = s.head;
      head_id = s.head_id;
      irreversible = s.irreversible;
      irreversible_id = s.irreversible_id;
      first = s.first;
    }
    else record {
      head = s.head;
      head_id = s.head_id;
      irreversible = s.head;
      irreversible_id = s.head_id;
      first = s.first;
    }

module _ (pg : Postgres) (sql : IsSql pg) (sv : Services) where
  fill_status-write :
      (s : Session) (db : pg.Db) → pg.fill_status (pg.run (write_fill_status s) db) ≡ status_row s
  unfolding write_fill_status status_row
  fill_status-write s db = elim (Bool-cases (ltb s.irreversible s.head)) [
    | inl e ↦ rw e (sql.fill_status-set _ _ _ _ _ db)
    | inr e ↦ rw e (sql.fill_status-set _ _ _ _ _ db)
  ]

  -- On a database that does what SQL says, the row of `fill_status` that is written names the
  -- session's head and first block, and no irreversible block behind its head.
  pub write_fill_status_row :
      (s : Session) (db : pg.Db)
      → let r = pg.fill_status (pg.run (write_fill_status s) db) in
        (r.head ≡ s.head)
        × (r.head_id ≡ s.head_id)
        × (r.first ≡ s.first)
        × (r.irreversible ≤ r.head)
  unfolding status_row
  write_fill_status_row s db =
      rw fill_status-write (ground arith, ground arith, ground arith, ground arith)

  fill_status-finish :
      (s : Session) (statements : List Statement) (n : ℕ) (id : Bytes) (db : pg.Db)
      → pg.fill_status
          (run_all pg (statements ++ (write_fill_status s ∷ insert_received_block n id ∷ [])) db)
        ≡ status_row s
  unfolding run_all
  fill_status-finish s statements n id db =
      rw run_all-append
        (sql.fill_status-keep (insert_received_block n id) _ tt ∙ fill_status-write s _)

  -- The end of a transaction outside of bulk mode.
  abbrev last_statements : BlockPosition → BlocksResult → Session → List Statement
  last_statements this result s =
      write_fill_status (advance sv this result s)
      ∷ insert_received_block this.block_num (sv.checksum_text this.block_id)
      ∷ []

  -- The streams of the session that a call leaves.
  streams_of : Result (Bool × Session) → List Stream
  streams_of (err e) = []
  streams_of (ok (b, s)) = s.table_streams

  commit_block_live :
      (this : BlockPosition) (result : BlocksResult) (forks : Bool) (statements : List Statement)
      (w : World pg) (s : Session)
      → has_large_deltas this result ≡ false
      → let r = commit_block pg sv this result false forks statements w (ok s) in
        (pg.fill_status r.1 ≡ status_row (advance sv this result s))
        × (streams_of r.0 ≡ (if forks then s.table_streams else []))
        × (forks ≡ true → r.1 ≡ run_all pg (statements ++ last_statements this result s) w.db)
  unfolding commit_block finish_block flush_streams streams_of
  commit_block_live this result true statements w s small =
      rw small (fill_status-finish _ statements _ _ w.db, unfold advance in refl, λ f. refl)
  commit_block_live this result false statements w s small =
      rw small (fill_status-finish _ statements _ _ _, unfold advance in refl, λ f. absurd (cc))

  -- What a block that is stored outside of bulk mode leaves.
  store_block_live :
      (this : BlockPosition) (result : BlocksResult) (forks : Bool) (w : World pg) {b : Bool}
      {s' : Session}
      → has_large_deltas this result ≡ false
      → (store_block pg sv this result false forks w).0 ≡ ok (b, s')
      → let db' = (store_block pg sv this result false forks w).1 in
        (s : Session) × (handle_block sv this.block_num this.block_id result
            (begin_block pg sv this w).0
          ≡ ok s)
        × (pg.fill_status db' ≡ status_row (advance sv this result s))
        × (s'.table_streams ≡ (if forks then s.table_streams else []))
        × (forks ≡ true
            → db' ≡ run_all pg ((begin_block pg sv this w).1 ++ last_statements this result s) w.db)
  unfolding store_block streams_of
  store_block_live this result forks w small h =
      let s0 = (begin_block pg sv this w).0 in
      elim (Bool-cases (prev_matches sv s0 result)) [
        | inl e ↦ elim (Result-cases (handle_block sv this.block_num this.block_id result s0)) [
          | inl (s, es) ↦
              let live =
                commit_block_live this result forks (begin_block pg sv this w).1 w s small in
              (
                s,
                es,
                rw (e, es) live.0,
                sym (ap streams_of h) ∙ rw (e, es) live.1,
                rw (e, es) live.2,
              )
          | inr (m, es) ↦ absurd (unfold commit_block in ground arith)
        ]
        | inr e ↦ absurd (ground arith)
      ]

  status_row-head :
      (this : BlockPosition) (result : BlocksResult) (s : Session)
      → (status_row (advance sv this result s)).head ≡ this.block_num
  unfolding status_row advance
  status_row-head this result s = ground arith

  -- On a database that does what SQL says, a block near the irreversible one that extends the head,
  -- with deltas below ten megabytes and no stop requested: if the call succeeds, the row of
  -- `fill_status` names the block as the head and no row waits in a stream.
  pub process_block_live :
      (this : BlockPosition) (result : BlocksResult) (w : World pg) {b : Bool} {s' : Session}
      → stop_requested w.session this ≡ false
      → is_fork w.session this ≡ false
      → is_bulk this result ≡ false
      → has_large_deltas this result ≡ false
      → (process_block pg sv this result w).0 ≡ ok (b, s')
      → ((pg.fill_status (process_block pg sv this result w).1).head ≡ this.block_num)
        × (s'.table_streams ≡ [])
  unfolding process_block
  process_block_live this result w stop fork bulk small h =
      let out : (process_block pg sv this result w)
          ≡ store_block pg sv this result false false (prepare pg sv this result w) =
        ground arith in
      let (s, es, row, streams, _) =
        store_block_live this result false (prepare pg sv this result w) small
          (ap (λ r. r.0) (sym out) ∙ h) in
      (
        ap (λ r. (pg.fill_status r.1).head) out
            ∙ ap (λ (q : StatusRow). q.head) row
            ∙ status_row-head this result s,
        streams,
      )

  prepare-head :
      (this : BlockPosition) (result : BlocksResult) (w : World pg)
      → (prepare pg sv this result w).session.head ≡ w.session.head
  prepare-head this result w = unfold prepare close_streams flush_streams trim in ground arith

  begin_block-fork :
      (this : BlockPosition) (w : World pg)
      → is_fork w.session this ≡ true
      → (begin_block pg sv this w).1 ≡ truncate_statements w.session this.block_num
  unfolding begin_block truncate
  begin_block-fork this w fork = rw fork refl

  -- On a database that does what SQL says, a block that switches forks, with deltas below ten
  -- megabytes and no stop requested: if the call succeeds, the row of `fill_status` names the block
  -- as the head, though the rows that its handler wrote all wait in the streams and none of them is
  -- copied: to what was prepared, the database has only the deletions of the truncation, the fill
  -- status and the received block.
  pub process_block_fork :
      (this : BlockPosition) (result : BlocksResult) (w : World pg) {b : Bool} {s' : Session}
      → stop_requested w.session this ≡ false
      → is_fork w.session this ≡ true
      → has_large_deltas this result ≡ false
      → (process_block pg sv this result w).0 ≡ ok (b, s')
      → let db' = (process_block pg sv this result w).1 in
        let w0 = prepare pg sv this result w in
        ((pg.fill_status db').head ≡ this.block_num)
        × ((s : Session) × (handle_block sv this.block_num this.block_id result
                (begin_block pg sv this w0).0
              ≡ ok s)
            × (s'.table_streams ≡ s.table_streams)
            × (db'
                ≡ run_all pg
                    (truncate_statements w0.session this.block_num
                      ++ (write_fill_status (advance sv this result s)
                          ∷ insert_received_block this.block_num (sv.checksum_text this.block_id)
                          ∷ []))
                    w0.db))
  unfolding process_block
  process_block_fork this result w stop fork small h =
      let w0 = prepare pg sv this result w in
      let out : (process_block pg sv this result w) ≡ store_block pg sv this result false true w0 =
        ground arith in
      let (s, es, row, streams, db) =
        store_block_live this result true w0 small (ap (λ r. r.0) (sym out) ∙ h) in
      let fork0 : is_fork w0.session this ≡ true =
        ap (leb this.block_num) (prepare-head this result w) ∙ fork in
      (
        ap (λ r. (pg.fill_status r.1).head) out
            ∙ ap (λ (q : StatusRow). q.head) row
            ∙ status_row-head this result s,
        (
          s,
          es,
          streams,
          ap (λ r. r.1) out
              ∙ db refl
              ∙ ap (λ qs. run_all pg (qs ++ last_statements this result s) w0.db)
                  (begin_block-fork this w0 fork0),
        ),
      )

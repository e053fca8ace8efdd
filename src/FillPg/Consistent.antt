-- ===== src/FillPg/Consistent.antt =====
-- Every message of the history plugin keeps the session consistent with the database.
use history_tools.Common.{
  ℕ, ◌<◌, ◌≡◌, ◌≢◌, refl, sym, ap, ◌∙◌, Bool, true, Bytes, Option, none, some, Result, ok, err,
  arith, leb, All, Bool-cases, inl, inr, subst,
}
use history_tools.FillPg.Database.{Postgres, run_all, received_block, IsSql}
use history_tools.FillPg.State.{AbiTable, Session, Services, BlockPosition, BlocksResult}
use history_tools.FillPg.Session.{
  World, truncate_head, is_fork, bulk_now, has_large_deltas, stop_requested, prev_matches,
  begin_block, commit_block, Outcome, returned, store_block, prepare, process_block,
  process_blocks_result,
}
use history_tools.FillPg.Blocks.{TablesApart, StreamsApart, block_id-truncate}
use history_tools.FillPg.Written.{handle_block-Written}
use history_tools.FillPg.Keeps.{
  Keeps, IsConsistent, DeltasApart, Keeps-IsConsistent, close_streams-Keeps, close_if-Keeps,
  prepare-Keeps, finish_block-IsConsistent,
}

-- The session that a call leaves is consistent with the database; where it throws, the session from
-- before the call still is.
abbrev pub Settled : (pg : Postgres) → Session → Outcome pg → Type 0
Settled pg before_ (ok (b, s), db) = IsConsistent pg (record { session = s; db = db })
Settled pg before_ (err e, db) = IsConsistent pg (record { session = before_; db = db })

-- A session of the same head can take the place of the one from before.
Settled-before :
    (pg : Postgres) (w w' : World pg) (r : Outcome pg)
    → Keeps pg w w'
    → IsConsistent pg w
    → Settled pg w'.session r
    → Settled pg w.session r
Settled-before pg w w' (ok (b, s), db) k c h = h
Settled-before pg w w' (err e, db) k c h = record {
  above = λ m lt. h.above m (omega (arith, k.same_head));
  at_head = λ ne.
      ap (pg.block_id db) (sym k.same_head)
      ∙ h.at_head (λ e. ne (sym k.same_head ∙ e))
      ∙ ap some k.same_head_id;
  tables_apart = c.tables_apart;
  streams_apart = c.streams_apart;
}

module _ (pg : Postgres) (sql : IsSql pg) (sv : Services) where
  truncate_head-tables :
      (block : ℕ) (o : Option Bytes) (s : Session) → (truncate_head block o s).tables ≡ s.tables
  unfolding truncate_head
  truncate_head-tables block none s = refl
  truncate_head-tables block (some id) s = refl

  truncate_head-streams :
      (block : ℕ) (o : Option Bytes) (s : Session)
      → (truncate_head block o s).table_streams ≡ s.table_streams
  unfolding truncate_head
  truncate_head-streams block none s = refl
  truncate_head-streams block (some id) s = refl

  -- The statements of `begin_block` depend on the stored blocks alone, and leave none from the
  -- new block on.
  begin_block-same :
      (this : BlockPosition) (w : World pg)
      → TablesApart w.session
      → (m : ℕ) (db : pg.Db) → pg.block_id db m ≡ pg.block_id w.db m
      → pg.block_id (run_all pg (begin_block pg sv this w).1 db) m
        ≡ pg.block_id (run_all pg (begin_block pg sv this w).1 w.db) m
  unfolding begin_block
  begin_block-same this w ht m db e = elim (Bool-cases (leb this.block_num w.session.head)) [
    | inl f ↦ rw f (
        ground (
          arith,
          block_id-truncate pg sql w.session this.block_num m db ht,
          block_id-truncate pg sql w.session this.block_num m w.db ht,
        ))
    | inr f ↦ rw f (unfold run_all in e)
  ]

  begin_block-above :
      (this : BlockPosition) (w : World pg)
      → IsConsistent pg w
      → (m : ℕ) → this.block_num < m
      → pg.block_id (run_all pg (begin_block pg sv this w).1 w.db) m ≡ none
  unfolding begin_block
  begin_block-above this w c m lt = elim (Bool-cases (leb this.block_num w.session.head)) [
    | inl f ↦
        rw f
          (ground (arith, block_id-truncate pg sql w.session this.block_num m w.db c.tables_apart))
    | inr f ↦ rw f (unfold run_all in c.above m (ground arith))
  ]

  commit_block-IsConsistent :
      (this : BlockPosition) (result : BlocksResult) (bulk forks : Bool) (w : World pg)
      (r : Result Session)
      → IsConsistent pg w
      → ((s : Session) → r ≡ ok s → TablesApart s × StreamsApart s.table_streams)
      → Settled pg w.session
          (commit_block pg sv this result bulk forks (begin_block pg sv this w).1 w r)
  unfolding commit_block
  commit_block-IsConsistent this result bulk forks w (err e) c h = c
  commit_block-IsConsistent this result bulk forks w (ok s) c h =
      let (ht, hs) = h s refl in
      let statements = (begin_block pg sv this w).1 in
      let w0 : World pg = record { session = s; db = w.db } in
      let done =
        finish_block-IsConsistent pg sql sv this result bulk forks statements w0 ht hs
          (begin_block-same this w c.tables_apart) (begin_block-above this w c) in
      Keeps-IsConsistent pg _ _
        (close_if-Keeps pg sql sv (has_large_deltas this result) _ done.streams_apart) done

  begin_block-session :
      (this : BlockPosition) (w : World pg)
      → ((begin_block pg sv this w).0.tables ≡ w.session.tables)
        × ((begin_block pg sv this w).0.table_streams ≡ w.session.table_streams)
  unfolding begin_block
  begin_block-session this w = elim (Bool-cases (leb this.block_num w.session.head)) [
    | inl f ↦ rw f (truncate_head-tables _ _ w.session, truncate_head-streams _ _ w.session)
    | inr f ↦ rw f (refl, refl)
  ]

  store_block-IsConsistent :
      (this : BlockPosition) (result : BlocksResult) (bulk forks : Bool) (w : World pg)
      → IsConsistent pg w
      → DeltasApart result
      → Settled pg w.session (store_block pg sv this result bulk forks w)
  unfolding store_block
  store_block-IsConsistent this result bulk forks w c hd =
      let s0 = (begin_block pg sv this w).0 in
      let (tables, streams) = begin_block-session this w in
      let apart : TablesApart s0 =
        subst (λ ts. All (λ (t : AbiTable). t.type ≢ received_block) ts) (sym tables)
          c.tables_apart in
      let s_apart = subst StreamsApart (sym streams) c.streams_apart in
      elim (Bool-cases (prev_matches sv s0 result)) [
        | inl e ↦ rw e (
            commit_block-IsConsistent this result bulk forks w _ c λ s h.
              let k = handle_block-Written sv this.block_num this.block_id result s0 hd h in
              (
                subst (λ ts. All (λ (t : AbiTable). t.type ≢ received_block) ts) (sym k.same_tables)
                    apart,
                k.apart s_apart,
              ))
        | inr e ↦ rw e c
      ]

  process_block-IsConsistent :
      (this : BlockPosition) (result : BlocksResult) (w : World pg)
      → IsConsistent pg w
      → DeltasApart result
      → Settled pg w.session (process_block pg sv this result w)
  unfolding process_block
  process_block-IsConsistent this result w c hd =
      elim (Bool-cases (stop_requested w.session this)) [
        | inl e ↦
            rw e (Keeps-IsConsistent pg _ _ (close_streams-Keeps pg sql sv w c.streams_apart) c)
        | inr e ↦
            let w1 = prepare pg sv this result w in
            let k = prepare-Keeps pg sql sv this result w c.streams_apart in
            rw e (
              Settled-before pg w w1 _ k c (
                store_block-IsConsistent this result (bulk_now w.session this result)
                  (is_fork w.session this) w1 (Keeps-IsConsistent pg _ _ k c) hd))
      ]

  -- If the database does what SQL says, the session is consistent with it and no delta of the
  -- message is named `received_block`, then, where the call for a message returns, the session that it
  -- leaves is consistent with the database: no block above the head is stored, and the head is stored
  -- under the id that the session holds for it. Where the call throws, the database is still
  -- consistent with the session from before the message: the deletions of a fork are dropped.
  pub process_blocks_result-IsConsistent :
      (result : BlocksResult) (w : World pg)
      → IsConsistent pg w
      → DeltasApart result
      → Settled pg w.session (process_blocks_result pg sv result w)
  unfolding process_blocks_result
  process_blocks_result-IsConsistent result w c hd = go result.this_block
    where
      go :
          (o : Option BlockPosition)
          → Settled pg w.session (elim o as (λ _. Outcome pg) [
            | none ↦ returned pg sv true w
            | some this ↦ process_block pg sv this result w
          ])
      go none = c
      go (some this) = process_block-IsConsistent this result w c hd

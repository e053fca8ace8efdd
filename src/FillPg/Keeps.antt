-- ===== src/FillPg/Keeps.antt =====
-- The invariant that ties a session to the database, and the operations before and at the end of a
-- block's transaction.
use history_tools.Common.{
  ℕ, ◌%◌, ◌≤◌, ◌<◌, ◌≡◌, ◌≢◌, refl, sym, ap, ◌∙◌, Bool, true, false, not, ◌||◌, List, [],
  if◌then◌else◌, none, some, arith, ◌==◌, is_empty, All, Bool-cases, inl, inr, subst,
}
use history_tools.FillPg.Database.{Statement, Postgres, run_all, received_block, IsSql}
use history_tools.FillPg.State.{
  AbiTable, Session, Services, BlockPosition, TableDelta, BlocksResult,
}
use history_tools.FillPg.Session.{
  World, is_fork, bulk_now, has_large_deltas, advance, flush_streams, close_streams, trim,
  finish_block, prepare,
}
use history_tools.FillPg.Blocks.{
  TablesApart, StreamsApart, block_id-close_streams, block_id-trim, block_id-finish_block,
}

-- No block above the head is stored, and the head is stored under its id.
pub record IsConsistent (pg : Postgres) (w : World pg) : Type 0 where
  pub above : (m : ℕ) → w.session.head < m → pg.block_id w.db m ≡ none
  pub at_head : w.session.head ≢ 0 → pg.block_id w.db w.session.head ≡ some w.session.head_id
  pub tables_apart : TablesApart w.session
  pub streams_apart : StreamsApart w.session.table_streams

abbrev pub DeltasApart : BlocksResult → Type 0
DeltasApart result = All (λ (d : TableDelta). d.name ≢ received_block) result.deltas

-- A change that leaves the head, its id, the tables and the stored blocks from the head on.
pub record Keeps (pg : Postgres) (w w' : World pg) : Type 0 where
  pub same_head : w'.session.head ≡ w.session.head
  pub same_head_id : w'.session.head_id ≡ w.session.head_id
  pub same_tables : w'.session.tables ≡ w.session.tables
  pub same_config : w'.session.config ≡ w.session.config
  pub apart : StreamsApart w'.session.table_streams
  pub same_blocks : (m : ℕ) → w.session.head ≤ m → pg.block_id w'.db m ≡ pg.block_id w.db m

pub Keeps-IsConsistent :
    (pg : Postgres) (w w' : World pg) → Keeps pg w w' → IsConsistent pg w → IsConsistent pg w'
Keeps-IsConsistent pg w w' k c = record {
  above = λ m lt.
      let lt' : w.session.head < m = omega (arith, k.same_head) in
      k.same_blocks m (omega arith) ∙ c.above m lt';
  at_head = λ ne.
      let ne' : w.session.head ≢ 0 = λ e. ne (k.same_head ∙ e) in
      ap (pg.block_id w'.db) k.same_head
      ∙ k.same_blocks w.session.head (omega arith)
      ∙ c.at_head ne'
      ∙ ap some (sym k.same_head_id);
  tables_apart =
      subst (λ ts. All (λ (t : AbiTable). t.type ≢ received_block) ts) (sym k.same_tables)
        c.tables_apart;
  streams_apart = k.apart;
}

pub Keeps-refl :
    (pg : Postgres) (w : World pg) → StreamsApart w.session.table_streams → Keeps pg w w
Keeps-refl pg w h = record {
  same_head = refl;
  same_head_id = refl;
  same_tables = refl;
  same_config = refl;
  apart = h;
  same_blocks = λ m le. refl;
}

pub Keeps-trans : (pg : Postgres) (u v w : World pg) → Keeps pg u v → Keeps pg v w → Keeps pg u w
Keeps-trans pg u v w p q = record {
  same_head = q.same_head ∙ p.same_head;
  same_head_id = q.same_head_id ∙ p.same_head_id;
  same_tables = q.same_tables ∙ p.same_tables;
  same_config = q.same_config ∙ p.same_config;
  apart = q.apart;
  same_blocks = λ m le. q.same_blocks m (omega (arith, p.same_head)) ∙ p.same_blocks m le;
}

module _ (pg : Postgres) (sql : IsSql pg) (sv : Services) where
  pub close_streams-Keeps :
      (w : World pg) → StreamsApart w.session.table_streams → Keeps pg w (close_streams pg sv w)
  close_streams-Keeps w h = elim (Bool-cases (is_empty w.session.table_streams)) [
    | inl e ↦
        let same : close_streams pg sv w ≡ w = unfold close_streams in rw e in
        subst (Keeps pg w) (sym same) (Keeps-refl pg w h)
    | inr e ↦
        let same : (close_streams pg sv w).session
            ≡ record (w.session) { table_streams = []; first_bulk = 0 } =
          unfold close_streams flush_streams in rw e in
        record {
          same_head = ap (λ (s : Session). s.head) same;
          same_head_id = ap (λ (s : Session). s.head_id) same;
          same_tables = ap (λ (s : Session). s.tables) same;
          same_config = ap (λ (s : Session). s.config) same;
          apart = subst (λ (s : Session). StreamsApart s.table_streams) (sym same) tt;
          same_blocks = λ m le. block_id-close_streams pg sql sv w m h;
        }
  ]

  pub trim-Keeps : (w : World pg) → StreamsApart w.session.table_streams → Keeps pg w (trim pg sv w)
  trim-Keeps w h = record {
    same_head = unfold trim in ground arith;
    same_head_id = unfold trim in ground arith;
    same_tables = unfold trim in ground arith;
    same_config = unfold trim in ground arith;
    apart =
        let same : (trim pg sv w).session.table_streams ≡ w.session.table_streams =
          unfold trim in ground arith in
        subst StreamsApart (sym same) h;
    same_blocks = λ m le. block_id-trim pg sql sv w m le;
  }

  pub close_if-Keeps :
      (b : Bool) (w : World pg)
      → StreamsApart w.session.table_streams
      → Keeps pg w (if b then close_streams pg sv w else w)
  close_if-Keeps true w h = close_streams-Keeps w h
  close_if-Keeps false w h = Keeps-refl pg w h

  pub trim_if-Keeps :
      (b : Bool) (w : World pg)
      → StreamsApart w.session.table_streams
      → Keeps pg w (if b then trim pg sv w else w)
  trim_if-Keeps true w h = trim-Keeps w h
  trim_if-Keeps false w h = Keeps-refl pg w h

  -- What happens before the transaction of a block leaves the head and its block alone.
  pub prepare-Keeps :
      (this : BlockPosition) (result : BlocksResult) (w : World pg)
      → StreamsApart w.session.table_streams
      → Keeps pg w (prepare pg sv this result w)
  unfolding prepare
  prepare-Keeps this result w h =
      let w1 : World pg = if is_fork w.session this then close_streams pg sv w else w in
      let k1 = close_if-Keeps (is_fork w.session this) w h in
      let b2 =
        not (bulk_now w.session this result)
        || has_large_deltas this result
        || this.block_num % 200 == 0 in
      let w2 : World pg = if b2 then close_streams pg sv w1 else w1 in
      let k2 = close_if-Keeps b2 w1 k1.apart in
      let k3 = trim_if-Keeps (is_empty w2.session.table_streams) w2 k2.apart in
      Keeps-trans pg w w2 _ (Keeps-trans pg w w1 w2 k1 k2) k3

  pub finish_streams-StreamsApart :
      (this : BlockPosition) (result : BlocksResult) (bulk forks : Bool)
      (statements : List Statement) (w : World pg)
      → StreamsApart w.session.table_streams
      → StreamsApart (finish_block pg sv this result bulk forks statements w).session.table_streams
  unfolding finish_block flush_streams advance
  finish_streams-StreamsApart this result true forks statements w h = h
  finish_streams-StreamsApart this result false true statements w h = h
  finish_streams-StreamsApart this result false false statements w h = tt

  pub finish_block-IsConsistent :
      (this : BlockPosition) (result : BlocksResult) (bulk forks : Bool)
      (statements : List Statement) (w : World pg)
      → TablesApart w.session
      → StreamsApart w.session.table_streams
      → ((m : ℕ) (db : pg.Db)
          → pg.block_id db m ≡ pg.block_id w.db m
          → pg.block_id (run_all pg statements db) m ≡ pg.block_id (run_all pg statements w.db) m)
      → ((m : ℕ) → this.block_num < m → pg.block_id (run_all pg statements w.db) m ≡ none)
      → IsConsistent pg (finish_block pg sv this result bulk forks statements w)
  finish_block-IsConsistent this result bulk forks statements w ht hs same rest =
      let w' = finish_block pg sv this result bulk forks statements w in
      let head : w'.session.head ≡ this.block_num =
        unfold finish_block flush_streams advance in ground arith in
      let head_id : w'.session.head_id ≡ sv.checksum_text this.block_id =
        unfold finish_block flush_streams advance in ground arith in
      let tables : w'.session.tables ≡ w.session.tables =
        unfold finish_block flush_streams advance in ground arith in
      record {
        above = λ m lt. ground (
          arith,
          block_id-finish_block pg sql sv this result bulk forks statements w m hs (same m),
          rest m,
        );
        at_head = λ ne. ground (
          arith,
          block_id-finish_block pg sql sv this result bulk forks statements w this.block_num hs
              (same this.block_num),
        );
        tables_apart =
            subst (λ ts. All (λ (t : AbiTable). t.type ≢ received_block) ts) (sym tables) ht;
        streams_apart = finish_streams-StreamsApart this result bulk forks statements w hs;
      }

-- ===== src/FillPg/Blocks.antt =====
-- What each operation of the session does to the table `received_block`.
use history_tools.Common.{
  ℕ, ◌≤◌, ◌≡◌, ◌≢◌, refl, ap, ◌∙◌, min, Bool, true, false, ◌++◌, List, [], ◌∷◌, map, if◌then◌else◌,
  Bytes, codes, none, some, arith, ◌==◌, ltb, leb, is_empty, All, Bool-cases, inl, inr,
}
use history_tools.FillPg.Database.{
  Statement, delete_from, insert_received_block, create_trim, Postgres, run_all, received_block,
  KeepsBlocks, IsSql,
}
use history_tools.FillPg.State.{AbiTable, Stream, Session, Services, BlockPosition, BlocksResult}
use history_tools.FillPg.Session.{
  World, write_fill_status, truncate_statements, stream_statements, flush_streams, close_streams,
  trim, trim_statements, finish_block, advance,
}

-- No table of the ABI and no stream is `received_block`.
abbrev pub TablesApart : Session → Type 0
TablesApart s = All (λ (t : AbiTable). t.type ≢ received_block) s.tables

abbrev pub StreamsApart : List Stream → Type 0
StreamsApart streams = All (λ (t : Stream). t.0 ≢ received_block) streams

run_all-append :
    (pg : Postgres) (qs rs : List Statement) (db : pg.Db)
    → run_all pg (qs ++ rs) db ≡ run_all pg rs (run_all pg qs db)
unfolding run_all
run_all-append pg [] rs db = refl
run_all-append pg (q ∷ qs) rs db = run_all-append pg qs rs (pg.run q db)

first_byte : Bytes → ℕ
first_byte [] = 0
first_byte (c ∷ s) = c

block_info-ne : codes "block_info" ≢ received_block
unfolding first_byte
block_info-ne e = omega (arith, ap first_byte e)

transaction_trace-ne : codes "transaction_trace" ≢ received_block
unfolding first_byte
transaction_trace-ne e = omega (arith, ap first_byte e)

stream_statements-KeepsBlocks :
    (streams : List Stream) → StreamsApart streams → All KeepsBlocks (stream_statements streams)
unfolding stream_statements
stream_statements-KeepsBlocks [] h = tt
stream_statements-KeepsBlocks ((n, lines) ∷ streams) (hn, hs) =
    (hn, stream_statements-KeepsBlocks streams hs)

write_fill_status-KeepsBlocks : (s : Session) → KeepsBlocks (write_fill_status s)
unfolding write_fill_status
write_fill_status-KeepsBlocks s = elim (Bool-cases (ltb s.irreversible s.head)) [
  | inl e ↦ rw e tt
  | inr e ↦ rw e tt
]

map_delete-KeepsBlocks :
    (ts : List AbiTable) (block : ℕ)
    → All (λ (t : AbiTable). t.type ≢ received_block) ts
    → All KeepsBlocks (map (λ (t : AbiTable). delete_from t.type block) ts)
map_delete-KeepsBlocks [] block h = tt
map_delete-KeepsBlocks (t ∷ ts) block (ht, hs) = (ht, map_delete-KeepsBlocks ts block hs)

module _ (pg : Postgres) (sql : IsSql pg) where
  block_id-run_all :
      (qs : List Statement) (m : ℕ) (db : pg.Db)
      → All KeepsBlocks qs
      → pg.block_id (run_all pg qs db) m ≡ pg.block_id db m
  unfolding run_all
  block_id-run_all [] m db h = refl
  block_id-run_all (q ∷ qs) m db (hq, hs) =
      block_id-run_all qs m (pg.run q db) hs ∙ sql.block_id-keep q m db hq

  -- `truncate` deletes the blocks from its argument on, and no other.
  pub block_id-truncate :
      (s : Session) (block m : ℕ) (db : pg.Db)
      → TablesApart s
      → pg.block_id (run_all pg (truncate_statements s block) db) m
        ≡ (if leb block m then none else pg.block_id db m)
  unfolding truncate_statements run_all
  block_id-truncate s block m db h =
      block_id-run_all (map (λ (t : AbiTable). delete_from t.type block) s.tables) m _
        (map_delete-KeepsBlocks s.tables block h)
      ∙ sql.block_id-keep (delete_from (codes "block_info") block) m _ block_info-ne
      ∙ sql.block_id-keep (delete_from (codes "transaction_trace") block) m _ transaction_trace-ne
      ∙ sql.block_id-delete block m db

  pub block_id-flush_streams :
      (sv : Services) (w : World pg) (m : ℕ)
      → StreamsApart w.session.table_streams
      → pg.block_id (flush_streams pg sv w).db m ≡ pg.block_id w.db m
  unfolding flush_streams
  block_id-flush_streams sv w m h =
      block_id-run_all (stream_statements w.session.table_streams) m w.db
        (stream_statements-KeepsBlocks w.session.table_streams h)

  pub block_id-close_streams :
      (sv : Services) (w : World pg) (m : ℕ)
      → StreamsApart w.session.table_streams
      → pg.block_id (close_streams pg sv w).db m ≡ pg.block_id w.db m
  unfolding close_streams run_all
  block_id-close_streams sv w m h = elim (Bool-cases (is_empty w.session.table_streams)) [
    | inl e ↦ rw e refl
    | inr e ↦ rw e (
        sql.block_id-keep (write_fill_status (flush_streams pg sv w).session) m
          (flush_streams pg sv w).db (write_fill_status-KeepsBlocks (flush_streams pg sv w).session)
        ∙ block_id-flush_streams sv w m h)
  ]

  pub block_id-trim :
      (sv : Services) (w : World pg) (m : ℕ)
      → w.session.head ≤ m
      → pg.block_id (trim pg sv w).db m ≡ pg.block_id w.db m
  unfolding trim trim_statements run_all
  block_id-trim sv w m h =
      let f = w.session.first in
      let e = min w.session.head w.session.irreversible in
      ground (
        arith,
        sql.block_id-trim f e m w.db,
        sql.block_id-trim f e m (pg.run create_trim w.db),
        sql.block_id-keep create_trim m w.db tt,
      )

  -- A block's insertion, behind a fill status or none.
  block_id-insert_last :
      (s : Session) (n m : ℕ) (id : Bytes) (bulk : Bool) (db : pg.Db)
      → pg.block_id
          (run_all pg
            ((if bulk then [] else write_fill_status s ∷ []) ++ insert_received_block n id ∷ [])
            db)
          m
        ≡ (if n == m then some id else pg.block_id db m)
  unfolding run_all
  block_id-insert_last s n m id true db = sql.block_id-insert n m id db
  block_id-insert_last s n m id false db =
      rw (← sql.block_id-keep (write_fill_status s) m db (write_fill_status-KeepsBlocks s))
        (sql.block_id-insert n m id (pg.run (write_fill_status s) db))

  block_id-transaction :
      (s : Session) (n m : ℕ) (id : Bytes) (bulk : Bool) (statements : List Statement) (db : pg.Db)
      → pg.block_id
          (run_all pg
            (statements
              ++ ((if bulk then [] else write_fill_status s ∷ [])
                  ++ insert_received_block n id ∷ []))
            db)
          m
        ≡ (if n == m then some id else pg.block_id (run_all pg statements db) m)
  block_id-transaction s n m id bulk statements db =
      rw run_all-append (block_id-insert_last s n m id bulk (run_all pg statements db))

  -- The transaction of a block adds its row to what its first statements leave; the flush before
  -- the commit leaves the table alone.
  pub block_id-finish_block :
      (sv : Services) (this : BlockPosition) (result : BlocksResult) (bulk forks : Bool)
      (statements : List Statement) (w : World pg) (m : ℕ)
      → StreamsApart w.session.table_streams
      → ((db : pg.Db)
          → pg.block_id db m ≡ pg.block_id w.db m
          → pg.block_id (run_all pg statements db) m ≡ pg.block_id (run_all pg statements w.db) m)
      → pg.block_id (finish_block pg sv this result bulk forks statements w).db m ≡ (
          if this.block_num == m
          then some (sv.checksum_text this.block_id)
          else pg.block_id (run_all pg statements w.db) m)
  unfolding finish_block
  block_id-finish_block sv this result true forks statements w m h same =
      block_id-transaction (advance sv this result w.session) this.block_num m
        (sv.checksum_text this.block_id) true statements w.db
  block_id-finish_block sv this result false true statements w m h same =
      block_id-transaction (advance sv this result w.session) this.block_num m
        (sv.checksum_text this.block_id) false statements w.db
  block_id-finish_block sv this result false false statements w m h same =
      let w1 : World pg = record { session = advance sv this result w.session; db = w.db } in
      let flushed = flush_streams pg sv w1 in
      block_id-transaction (advance sv this result w.session) this.block_num m
        (sv.checksum_text this.block_id) false statements flushed.db
      ∙ ap (λ o. if this.block_num == m then some (sv.checksum_text this.block_id) else o)
          (same flushed.db (block_id-flush_streams sv w1 m (unfold advance in h)))

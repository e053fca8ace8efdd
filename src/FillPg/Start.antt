-- ===== src/FillPg/Start.antt =====
-- The session's start: what the handler of the plugin's status makes of a database.
use history_tools.Common.{
  ◌-◌, ◌^◌, ◌<◌, ◌≡◌, ◌≢◌, refl, sym, ap, ◌∙◌, max, Bytes, Option, none, some, arith, inl, inr,
  Bool-cases, ◌==◌,
}
use history_tools.FillPg.Database.{Postgres, run_all, IsSql}
use history_tools.FillPg.State.{Session, Services}
use history_tools.FillPg.Session.{
  World, truncate_statements, truncate_head, before, after, load_fill_status, received_status,
}
use history_tools.FillPg.Blocks.{TablesApart, StreamsApart, block_id-truncate}
use history_tools.FillPg.Keeps.{IsConsistent}

module _ (pg : Postgres) (sql : IsSql pg) (sv : Services) where
  -- `truncate` of the block behind the head, by what its query finds.
  truncate_head-IsConsistent :
      (s : Session) (db : pg.Db) (o : Option Bytes)
      → TablesApart s
      → StreamsApart s.table_streams
      → s.head < 2 ^ 32 - 1
      → (s.head ≢ 0 → o ≢ none)
      → pg.block_id (run_all pg (truncate_statements s (after s.head)) db) (before (after s.head))
        ≡ o
      → IsConsistent pg (record {
        session = truncate_head (after s.head) o s;
        db = run_all pg (truncate_statements s (after s.head)) db;
      })
  unfolding truncate_head
  truncate_head-IsConsistent s db none ht hs small known e = record {
    above = λ m lt.
        block_id-truncate pg sql s (after s.head) m db ht ∙ elim (Bool-cases (s.head == 0)) [
          | inl z ↦ ground arith
          | inr z ↦ absurd (known (λ q. ground arith) refl)
        ];
    at_head = λ ne. absurd (ne refl);
    tables_apart = ht;
    streams_apart = hs;
  }
  truncate_head-IsConsistent s db (some id) ht hs small known e = record {
    above = λ m lt. block_id-truncate pg sql s (after s.head) m db ht ∙ ground arith;
    at_head = λ ne. ap (pg.block_id _) refl ∙ e;
    tables_apart = ht;
    streams_apart = hs;
  }

  truncate_head-lt :
      (s : Session) (o : Option Bytes)
      → s.head < 2 ^ 32 - 1
      → let t = truncate_head (after s.head) o s in t.head < max t.config.skip_to (after t.head)
  unfolding truncate_head
  truncate_head-lt s none small = omega arith
  truncate_head-lt s (some id) small = omega arith

  -- If the database does what SQL says, a session that starts on it is consistent with it if the
  -- recorded head is below the greatest `uint32_t` and stored unless it is zero, and no table and
  -- no stream is named `received_block`: what lies above the head is deleted. It asks for blocks
  -- from above the head on.
  pub received_status-IsConsistent :
      (w : World pg)
      → TablesApart w.session
      → StreamsApart w.session.table_streams
      → (pg.fill_status w.db).head < 2 ^ 32 - 1
      → ((pg.fill_status w.db).head ≢ 0 → pg.block_id w.db (pg.fill_status w.db).head ≢ none)
      → let (start, positions, w') = received_status pg sv w in
        IsConsistent pg w' × (w'.session.head < start)
  unfolding received_status
  received_status-IsConsistent w ht hs small known =
      let h = (pg.fill_status w.db).head in
      let s1 = load_fill_status pg sv w in
      let back : before (after h) ≡ h = omega arith in
      let found : pg.block_id (run_all pg (truncate_statements s1 (after h)) w.db)
            (before (after h))
          ≡ pg.block_id w.db h =
        block_id-truncate pg sql s1 (after h) (before (after h)) w.db ht
        ∙ ground (arith, ap (pg.block_id w.db) back) in
      (
        truncate_head-IsConsistent s1 w.db _ ht hs small (λ ne e. known ne (sym found ∙ e)) refl,
        truncate_head-lt s1 _ small,
      )

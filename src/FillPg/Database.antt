-- ===== src/FillPg/Database.antt =====
-- What src/fill_pg_plugin.cpp asks of PostgreSQL. The server is a parameter: `run` is what a
-- statement does to the tables, and the other functions are the plugin's three queries. Tables
-- are named without the schema.
use history_tools.Common.{
  ℕ, ◌≡◌, ◌≢◌, List, [], ◌∷◌, Option, none, some, Bytes, codes, leb, ◌==◌, if◌then◌else◌,
}

-- The statements of the session, by their text.
pub data Statement : Type 0 where
  -- `delete from T where block_num >= N`
  delete_from : Bytes → ℕ → Statement
  -- `update fill_status set head=…, head_id=…, irreversible=…, irreversible_id=…, first=…`
  set_fill_status : ℕ → Bytes → ℕ → Bytes → ℕ → Statement
  -- `insert into received_block (block_num, block_id) values (…)`
  insert_received_block : ℕ → Bytes → Statement
  -- the lines that a `pqxx::tablewriter` copies into T
  copy : Bytes → List Bytes → Statement
  -- the statements of `create_trim`, and `select * from trim_history(FIRST, END)`
  create_trim : Statement
  trim_history : ℕ → ℕ → Statement

-- The row of `fill_status`.
pub record StatusRow : Type 0 where
  pub head : ℕ
  pub head_id : Bytes
  pub irreversible : ℕ
  pub irreversible_id : Bytes
  pub first : ℕ

pub record Postgres : Type 1 where
  pub Db : Type 0
  pub run : Statement → Db → Db
  -- `select head, head_id, irreversible, irreversible_id, first from fill_status`
  pub fill_status : Db → StatusRow
  -- `select block_id from received_block where block_num=N`
  pub block_id : Db → ℕ → Option Bytes
  -- `select block_num, block_id from received_block where block_num >= N and block_num <= M
  -- order by block_num`
  pub positions : Db → ℕ → ℕ → List (ℕ × Bytes)

-- A transaction's statements, in the order of the pipeline.
unfoldable pub run_all : (pg : Postgres) → List Statement → pg.Db → pg.Db
run_all pg [] db = db
run_all pg (q ∷ qs) db = run_all pg qs (pg.run q db)

abbrev pub received_block : Bytes
received_block = codes "received_block"

-- The statements that leave `received_block` alone.
abbrev pub KeepsBlocks : Statement → Type 0
KeepsBlocks (delete_from t n) = t ≢ received_block
KeepsBlocks (set_fill_status h hi i ii f) = Unit
KeepsBlocks (insert_received_block n i) = ⊥
KeepsBlocks (copy t lines) = t ≢ received_block
KeepsBlocks create_trim = Unit
KeepsBlocks (trim_history f e) = ⊥

-- The statements that leave `fill_status` alone.
abbrev pub KeepsStatus : Statement → Type 0
KeepsStatus (delete_from t n) = t ≢ codes "fill_status"
KeepsStatus (set_fill_status h hi i ii f) = ⊥
KeepsStatus (insert_received_block n i) = Unit
KeepsStatus (copy t lines) = t ≢ codes "fill_status"
KeepsStatus create_trim = Unit
KeepsStatus (trim_history f e) = Unit

-- What SQL says of these statements and queries. `trim_history` is the function that
-- `create_trim` defines: it deletes the rows of `received_block` from FIRST up to END.
pub record IsSql (pg : Postgres) : Type 0 where
  pub block_id-insert :
      (n m : ℕ) (i : Bytes) (db : pg.Db)
      → pg.block_id (pg.run (insert_received_block n i) db) m
        ≡ (if n == m then some i else pg.block_id db m)
  pub block_id-delete :
      (n m : ℕ) (db : pg.Db)
      → pg.block_id (pg.run (delete_from received_block n) db) m
        ≡ (if leb n m then none else pg.block_id db m)
  pub block_id-trim :
      (f e m : ℕ) (db : pg.Db)
      → pg.block_id (pg.run (trim_history f e) db) m
        ≡ (if leb f m then (if leb e m then pg.block_id db m else none) else pg.block_id db m)
  pub block_id-keep :
      (q : Statement) (m : ℕ) (db : pg.Db)
      → KeepsBlocks q
      → pg.block_id (pg.run q db) m ≡ pg.block_id db m
  pub fill_status-set :
      (h : ℕ) (hi : Bytes) (i : ℕ) (ii : Bytes) (f : ℕ) (db : pg.Db)
      → pg.fill_status (pg.run (set_fill_status h hi i ii f) db)
        ≡ record { head = h; head_id = hi; irreversible = i; irreversible_id = ii; first = f }
  pub fill_status-keep :
      (q : Statement) (db : pg.Db)
      → KeepsStatus q
      → pg.fill_status (pg.run q db) ≡ pg.fill_status db

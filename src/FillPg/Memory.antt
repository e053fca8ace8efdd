-- ===== src/FillPg/Memory.antt =====
-- A database in memory that meets `IsSql`, and a session over it: the data of the witnesses.
use history_tools.Common.{
  ℕ, ◌-◌, ◌*◌, ◌≡◌, refl, Bool, true, false, ◌++◌, if◌then◌else◌, Bytes, codes, List, [], ◌∷◌,
  Option, none, some, Result, ok, err, arith, leb, ◌==◌, to_string, Bool-cases, inl, inr,
}
use history_tools.SqlConverter.Types.{
  AbiType, builtin, struct_, variant, no_fields, field, bytes_eq, Converter,
}
use history_tools.SqlConverter.Value.{Library}
use history_tools.FillPg.Database.{
  Statement, delete_from, set_fill_status, insert_received_block, copy, create_trim, trim_history,
  StatusRow, Postgres, received_block, IsSql, KeepsBlocks, KeepsStatus,
}
use history_tools.FillPg.State.{Session, Services, BlocksResult}
use history_tools.FillPg.Session.{World}

pub record Tables : Type 0 where
  pub status : StatusRow
  pub blocks : ℕ → Option Bytes
  pub copied : List (Bytes × List Bytes)

abbrev pub run_statement : Statement → Tables → Tables
run_statement (delete_from t n) db =
    if bytes_eq t received_block
    then record db { blocks = λ m. if leb n m then none else db.blocks m }
    else db
run_statement (set_fill_status h hi i ii f) db = record db {
  status = record { head = h; head_id = hi; irreversible = i; irreversible_id = ii; first = f };
}
run_statement (insert_received_block n id) db = record db {
  blocks = λ m. if n == m then some id else db.blocks m;
}
run_statement (copy t lines) db = record db { copied = (t, lines) ∷ db.copied }
run_statement create_trim db = db
run_statement (trim_history f e) db = record db {
  blocks = λ m. if leb f m then (if leb e m then db.blocks m else none) else db.blocks m;
}

abbrev pub memory : Postgres
memory = record {
  Db = Tables;
  run = run_statement;
  fill_status = λ db. db.status;
  block_id = λ db. db.blocks;
  positions = λ db from to. [];
}

bytes_eq-eq : (s t : Bytes) → bytes_eq s t ≡ true → s ≡ t
unfolding bytes_eq
bytes_eq-eq [] [] h = refl
bytes_eq-eq [] (d ∷ t) h = absurd (ground arith)
bytes_eq-eq (c ∷ s) [] h = absurd (ground arith)
bytes_eq-eq (c ∷ s) (d ∷ t) h = ground (arith, bytes_eq-eq s t)

memory-block_id-keep :
    (q : Statement) (m : ℕ) (db : Tables)
    → KeepsBlocks q
    → (run_statement q db).blocks m ≡ db.blocks m
memory-block_id-keep (delete_from t n) m db h = elim (Bool-cases (bytes_eq t received_block)) [
  | inl e ↦ absurd (h (bytes_eq-eq t received_block e))
  | inr e ↦ rw e refl
]
memory-block_id-keep (set_fill_status h hi i ii f) m db k = refl
memory-block_id-keep (insert_received_block n i) m db h = absurd h
memory-block_id-keep (copy t lines) m db h = refl
memory-block_id-keep create_trim m db h = refl
memory-block_id-keep (trim_history f e) m db h = absurd h

memory-fill_status-keep :
    (q : Statement) (db : Tables) → KeepsStatus q → (run_statement q db).status ≡ db.status
memory-fill_status-keep (delete_from t n) db h = elim (Bool-cases (bytes_eq t received_block)) [
  | inl e ↦ rw e refl
  | inr e ↦ rw e refl
]
memory-fill_status-keep (set_fill_status h hi i ii f) db k = absurd k
memory-fill_status-keep (insert_received_block n i) db h = refl
memory-fill_status-keep (copy t lines) db h = refl
memory-fill_status-keep create_trim db h = refl
memory-fill_status-keep (trim_history f e) db h = refl

pub memory-IsSql : IsSql memory
unfolding bytes_eq
memory-IsSql = record {
  block_id-insert = λ n m i db. refl;
  block_id-delete = λ n m db. refl;
  block_id-trim = λ f e m db. refl;
  block_id-keep = memory-block_id-keep;
  fill_status-set = λ h hi i ii f db. refl;
  fill_status-keep = memory-fill_status-keep;
}

abbrev pub join_all : Bytes → List Bytes → Bytes
join_all sep [] = []
join_all sep (v ∷ []) = v
join_all sep (v ∷ w ∷ vs) = v ++ (sep ++ join_all sep (w ∷ vs))

abbrev pub byte : Bytes → Result (ℕ × Bytes)
byte [] = err "end of stream"
byte (c ∷ s) = ok (c, s)

abbrev pub flag : Bytes → Result (Bool × Bytes)
flag [] = err "end of stream"
flag (c ∷ s) = ok (c == 1, s)

abbrev pub byte_to_sql : Bytes → Result (Bytes × Bytes)
byte_to_sql [] = err "end of stream"
byte_to_sql (c ∷ s) = ok (to_string c, s)

abbrev pub library : Library
library = record { read_bool = flag; varuint32_from_bin = byte; separated_list = join_all }

abbrev pub services : Services
services = record {
  library = library;
  join = λ vs sep. join_all sep vs;
  checksum_text = λ n. b'#' ∷ to_string n;
}

abbrev pub converter : Converter
converter = record {
  schema_name = codes "chain";
  basic_converters = λ n. some (record { name = codes "smallint"; bin_to_sql = some byte_to_sql });
}

-- A variant with two versions of one struct, the second with a field more.
abbrev pub row_type : AbiType
row_type = variant (codes "account") (
    field (codes "account_v0")
      (struct_ (codes "account_v0") (field (codes "id") (builtin (codes "uint8")) no_fields))
      (field (codes "account_v1")
        (struct_ (codes "account_v1") (
          field (codes "id") (builtin (codes "uint8"))
            (field (codes "code") (builtin (codes "uint8")) no_fields)))
        no_fields))

abbrev pub header_type : AbiType
header_type =
    struct_ (codes "signed_block_header")
      (field (codes "producer") (builtin (codes "uint8")) no_fields)

abbrev pub session : Session
session = record {
  config = record { skip_to = 0; stop_before = 0; trx_filters = []; enable_trim = true };
  converter = converter;
  abi_types =
      λ n. if bytes_eq n (codes "signed_block_header") then some header_type else some row_type;
  tables = record { type = codes "account"; key_names = codes "id" ∷ [] } ∷ [];
  created_trim = false;
  head = 9;
  head_id = codes "#90";
  irreversible = 7;
  irreversible_id = codes "#70";
  first = 5;
  first_bulk = 0;
  table_streams = [];
}

abbrev pub tables : Tables
tables = record {
  status = record {
    head = 9;
    head_id = codes "#90";
    irreversible = 7;
    irreversible_id = codes "#70";
    first = 5;
  };
  blocks = λ m. if m == 9 then some (codes "#90") else if m == 8 then some (codes "#80") else none;
  copied = [];
}

abbrev pub world : World memory
world = record { session = session; db = tables }

-- A block behind the head, and one that replaces it.
abbrev pub block : ℕ → ℕ → BlocksResult
block n prev = record {
  this_block = some (record { block_num = n; block_id = n * 10 });
  prev_block = some (record { block_num = n - 1; block_id = prev });
  last_irreversible = record { block_num = 7; block_id = 70 };
  block_header = some (3 ∷ []);
  deltas =
      record { name = codes "account"; rows = record { present = 1; bin = 1 ∷ 4 ∷ 5 ∷ [] } ∷ [] }
      ∷ [];
  deltas_size = 3;
  traces = [];
}

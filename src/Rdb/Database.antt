-- ===== src/Rdb/Database.antt =====
-- Reading and writing of src/state_history_rocksdb.hpp. RocksDB is a parameter: what a key holds,
-- what an iterator gives, and what a batch of writes makes of the database. Its own failures, which
-- `check` throws on, are left out, and a flush changes nothing that is read.
use history_tools.Common.{
  ◌≡◌, Bool, true, false, List, [], ◌∷◌, if◌then◌else◌, Bytes, Option, none, some, Result, ok, err,
  ◌>>=◌,
}
use history_tools.SqlConverter.Types.{bytes_eq}
use history_tools.Rdb.Range.{Entry, Iterator}

-- What is put into a `WriteBatch`.
pub data Write : Type 0 where
  put : Bytes → Bytes → Write
  delete : Bytes → Write

abbrev pub WriteBatch : Type 0
WriteBatch = List Write

pub record Rocksdb : Type 1 where
  pub Db : Type 0
  pub get : Db → Bytes → Option Bytes
  pub iterator : Db → Iterator
  pub write : WriteBatch → Db → Db

module _ (r : Rocksdb) where
  -- `exists`
  unfoldable pub exists : r.Db → Bytes → Bool
  exists db key = elim (r.get db key) [ none ↦ false | some v ↦ true ]

  -- `get` of a value that is read from its bytes by `from_bin`.
  unfoldable pub get {ℓ} :
      {A : Type ℓ} → (Bytes → Result A) → r.Db → Bytes → Bool → Result (Option A)
  get from_bin db key required = elim (r.get db key) [
    | none ↦ if required then err "get: " else ok none
    | some bin ↦ from_bin bin >>= λ value. ok (some value)
  ]

-- `get_raw`: the iterator stands at the first key that is not before `key`. Where there is none, the
-- source reads the key of an iterator that is not valid; here it is not found.
unfoldable pub get_raw : Iterator → Bytes → Bool → Result (Option Bytes)
get_raw it key required = at_seek (it.seek key)
  where
    at_seek : List Entry → Result (Option Bytes)
    at_seek [] = if required then err "key not found" else ok none
    at_seek ((k, v) ∷ entries) =
        if bytes_eq k key then ok (some v) else (if required then err "key not found" else ok none)

-- What is assumed of RocksDB: a batch is carried out in its order.
abbrev pub after_writes : WriteBatch → Bytes → Option Bytes → Option Bytes
after_writes [] key old = old
after_writes (put k v ∷ batch) key old =
    after_writes batch key (if bytes_eq k key then some v else old)
after_writes (delete k ∷ batch) key old =
    after_writes batch key (if bytes_eq k key then none else old)

pub record WritesInOrder (r : Rocksdb) : Type 0 where
  pub get-write :
      (batch : WriteBatch) (db : r.Db) (key : Bytes)
      → r.get (r.write batch db) key ≡ after_writes batch key (r.get db key)

-- ===== src/Rdb/Model.antt =====
-- A RocksDB in memory: entries in the order of their keys. It shows that what is assumed of RocksDB
-- can hold together.
use history_tools.Common.{
  ◌≡◌, refl, sym, ap, ◌∙◌, true, false, List, [], ◌∷◌, if◌then◌else◌, Bytes, Option, none, some,
  All, arith, Bool-cases, inl, inr,
}
use history_tools.SqlConverter.Types.{bytes_eq}
use history_tools.Rdb.Range.{Entry}
use history_tools.Rdb.InRange.{bytes_lt, from_bound, Sorted, bytes_lt_trans}
use history_tools.Rdb.Bytes.{bytes_eq_refl, bytes_eq→eq}
use history_tools.Rdb.Keeps.{IsStore}
use history_tools.Rdb.Database.{put, delete, WriteBatch, Rocksdb, after_writes}

unfoldable pub insert : Bytes → Bytes → List Entry → List Entry
insert k v [] = (k, v) ∷ []
insert k v (e ∷ es) =
    if bytes_lt k e.0
    then (k, v) ∷ e ∷ es
    else (if bytes_lt e.0 k then e ∷ insert k v es else (k, v) ∷ es)

unfoldable pub remove : Bytes → List Entry → List Entry
remove k [] = []
remove k (e ∷ es) = if bytes_eq k e.0 then remove k es else e ∷ remove k es

unfoldable pub lookup : Bytes → List Entry → Option Bytes
lookup k [] = none
lookup k (e ∷ es) = if bytes_eq e.0 k then some e.1 else lookup k es

bytes_lt-ne : (s t : Bytes) → bytes_lt s t ≡ true → bytes_eq s t ≡ false
unfolding bytes_lt bytes_eq
bytes_lt-ne s [] h = cc
bytes_lt-ne [] (d ∷ t) h = refl
bytes_lt-ne (c ∷ s) (d ∷ t) h = ground (arith, bytes_lt-ne s t)

bytes_eq-sym : (s t : Bytes) → bytes_eq s t ≡ bytes_eq t s
unfolding bytes_eq
bytes_eq-sym [] [] = refl
bytes_eq-sym [] (d ∷ t) = refl
bytes_eq-sym (c ∷ s) [] = refl
bytes_eq-sym (c ∷ s) (d ∷ t) = ground (arith, bytes_eq-sym s t)

-- Keys of which neither is before the other are the same.
bytes_lt-neither : (s t : Bytes) → bytes_lt s t ≡ false → bytes_lt t s ≡ false → s ≡ t
unfolding bytes_lt
bytes_lt-neither [] [] h k = refl
bytes_lt-neither [] (d ∷ t) h k = cc
bytes_lt-neither (c ∷ s) [] h k = cc
bytes_lt-neither (c ∷ s) (d ∷ t) h k = ground (arith, bytes_lt-neither s t)

abbrev Behind : Bytes → List Entry → Type 0
Behind k es = All (λ (d : Entry). bytes_lt k d.0 ≡ true) es

Behind-later : (j k : Bytes) (es : List Entry) → bytes_lt j k ≡ true → Behind k es → Behind j es
Behind-later j k [] h b = tt
Behind-later j k (e ∷ es) h (be, bs) = (bytes_lt_trans j k e.0 h be, Behind-later j k es h bs)

Behind-insert :
    (j k v : Bytes) (es : List Entry) → bytes_lt j k ≡ true → Behind j es → Behind j (insert k v es)
unfolding insert
Behind-insert j k v [] h b = (h, tt)
Behind-insert j k v (e ∷ es) h (be, bs) = elim (Bool-cases (bytes_lt k e.0)) [
  | inl first ↦ rw first (h, (be, bs))
  | inr later ↦ elim (Bool-cases (bytes_lt e.0 k)) [
    | inl behind ↦ rw (later, behind) (be, Behind-insert j k v es h bs)
    | inr same ↦ rw (later, same) (h, bs)
  ]
]

pub insert-Sorted : (k v : Bytes) (es : List Entry) → Sorted es → Sorted (insert k v es)
unfolding insert
insert-Sorted k v [] s = (tt, tt)
insert-Sorted k v (e ∷ es) (first, s) = elim (Bool-cases (bytes_lt k e.0)) [
  | inl before ↦ rw before ((before, Behind-later k e.0 es before first), (first, s))
  | inr later ↦ elim (Bool-cases (bytes_lt e.0 k)) [
    | inl behind ↦
        rw (later, behind) (Behind-insert e.0 k v es behind first, insert-Sorted k v es s)
    | inr same ↦ rw (later, same) (rw (bytes_lt-neither k e.0 later same) first, s)
  ]
]

Behind-remove : (j k : Bytes) (es : List Entry) → Behind j es → Behind j (remove k es)
unfolding remove
Behind-remove j k [] b = tt
Behind-remove j k (e ∷ es) (be, bs) = elim (Bool-cases (bytes_eq k e.0)) [
  | inl same ↦ rw same (Behind-remove j k es bs)
  | inr other ↦ rw other (be, Behind-remove j k es bs)
]

pub remove-Sorted : (k : Bytes) (es : List Entry) → Sorted es → Sorted (remove k es)
unfolding remove
remove-Sorted k [] s = tt
remove-Sorted k (e ∷ es) (first, s) = elim (Bool-cases (bytes_eq k e.0)) [
  | inl same ↦ rw same (remove-Sorted k es s)
  | inr other ↦ rw other (Behind-remove e.0 k es first, remove-Sorted k es s)
]

bytes_eq_twice : (s t u : Bytes) → bytes_eq s u ≡ true → bytes_eq t u ≡ true → bytes_eq s t ≡ true
bytes_eq_twice s t u h k =
    let e : s ≡ t = bytes_eq→eq s u h ∙ sym (bytes_eq→eq t u k) in rw e (bytes_eq_refl t)

lookup-insert :
    (j k v : Bytes) (es : List Entry)
    → lookup j (insert k v es) ≡ (if bytes_eq k j then some v else lookup j es)
unfolding lookup insert
lookup-insert j k v [] = refl
lookup-insert j k v (e ∷ es) = elim (Bool-cases (bytes_lt k e.0)) [
  | inl before ↦ rw before refl
  | inr later ↦ elim (Bool-cases (bytes_lt e.0 k)) [
    | inl behind ↦
        let ih = lookup-insert j k v es in
        let ne = bytes_lt-ne e.0 k behind in
        rw (later, behind, ih) (ground (arith, bytes_eq_twice e.0 k j, ne))
    | inr same ↦ let eq = bytes_lt-neither k e.0 later same in rw (later, same, eq) (ground arith)
  ]
]

lookup-remove :
    (j k : Bytes) (es : List Entry)
    → lookup j (remove k es) ≡ (if bytes_eq k j then none else lookup j es)
unfolding lookup remove
lookup-remove j k [] = ground arith
lookup-remove j k (e ∷ es) = elim (Bool-cases (bytes_eq k e.0)) [
  | inl same ↦
      let eq = bytes_eq→eq k e.0 same in
      let ih = lookup-remove j k es in rw (same, ih, eq) (ground arith)
  | inr other ↦
      let ih = lookup-remove j k es in
      rw (other, ih) (ground (arith, bytes_eq_twice k e.0 j, other))
]

lookup-listed : (es : List Entry) → Sorted es → All (λ (e : Entry). lookup e.0 es ≡ some e.1) es
unfolding lookup
lookup-listed [] s = tt
lookup-listed (e ∷ es) (first, s) =
    (rw (bytes_eq_refl e.0) refl, later es first (lookup-listed es s))
  where
    later :
        (ds : List Entry)
        → Behind e.0 ds
        → All (λ (d : Entry). lookup d.0 es ≡ some d.1) ds
        → All (λ (d : Entry). lookup d.0 (e ∷ es) ≡ some d.1) ds
    later [] b h = tt
    later (d ∷ ds) (bd, bs) (hd, hs) = (rw (bytes_lt-ne e.0 d.0 bd) hd, later ds bs hs)

-- The entries, in order.
pub record Database : Type 0 where
  pub entries : List Entry
  pub sorted : Sorted entries

unfoldable pub carry_out : WriteBatch → Database → Database
unfolding insert remove
carry_out [] db = db
carry_out (put k v ∷ batch) db =
    carry_out batch
      (record { entries = insert k v db.entries; sorted = insert-Sorted k v db.entries db.sorted })
carry_out (delete k ∷ batch) db =
    carry_out batch
      (record { entries = remove k db.entries; sorted = remove-Sorted k db.entries db.sorted })

unfoldable pub in_memory : Rocksdb
unfolding lookup carry_out
in_memory = record {
  Db = Database;
  get = λ db key. lookup key db.entries;
  iterator = λ db. record { entries = db.entries; seek = λ lower. from_bound lower db.entries };
  write = carry_out;
}

unfoldable pub empty_database : in_memory.Db
unfolding in_memory
empty_database = record { entries = []; sorted = tt }

get-carry_out :
    (batch : WriteBatch) (db : Database) (key : Bytes)
    → lookup key (carry_out batch db).entries ≡ after_writes batch key (lookup key db.entries)
unfolding carry_out
get-carry_out [] db key = refl
get-carry_out (put k v ∷ batch) db key =
    get-carry_out batch _ key ∙ ap (after_writes batch key) (lookup-insert key k v db.entries)
get-carry_out (delete k ∷ batch) db key =
    get-carry_out batch _ key ∙ ap (after_writes batch key) (lookup-remove key k db.entries)

-- It is in order, has what `get` gives, and carries out its batches.
pub in_memory-IsStore : IsStore in_memory
unfolding in_memory
in_memory-IsStore = record {
  in_order = λ db. record { sorted = db.sorted; seek-eq = λ lower. refl };
  listed = λ db. lookup-listed db.entries db.sorted;
  writes = record { get-write = get-carry_out };
}

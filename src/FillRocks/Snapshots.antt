-- ===== src/FillRocks/Snapshots.antt =====
-- The second loop of `trim` of src/fill_rocksdb_plugin.cpp: which versions of a key it removes, and
-- what a query at a later block still finds.
use history_tools.Common.{
  ℕ, ◌-◌, ◌^◌, ◌<◌, ◌≤◌, ◌≡◌, refl, ap, ◌∙◌, ◌⊎◌, inl, inr, Bool, true, false, ◌++◌, List, [], ◌∷◌,
  Bytes, Option, none, some, ok, All, arith, leb, if◌then◌else◌, Bool-cases, length, append_assoc,
}
use history_tools.Kv.Laws.{IsAbieos}
use history_tools.Kv.RoundTrip.{key_to_native-native_to_key}
use history_tools.Kv.Keys.{
  native_to_key, key_to_native, read_index_prefix, append_index_key, tag_index,
}
use history_tools.Kv.Positions.{Positions, init_positions, fill_positions_from_index, extract_pk}
use history_tools.Rdb.Database.{WriteBatch, Rocksdb}
use history_tools.Rdb.Range.{Entry, for_each}
use history_tools.Rdb.InRange.{IsRocksdb, in_range, select, visit, for_each-in_range}
use history_tools.FillRocks.State.{Index, KvTable, QueryConfig, Serial}
use history_tools.FillRocks.Rows.{remove_row_at, get_kv_table}
use history_tools.FillRocks.Trim.{add_removal, trim_entry, trim_range}

-- An entry of a trim index: the block of the row that it stands for, and what its removal writes.
pub record Version : Type 0 where
  pub block : ℕ
  pub writes : WriteBatch × WriteBatch

-- The versions that stay, and those that are removed.
pub data Split : List Version → List Version → List Version → Type 0 where
  nothing : Split [] [] []
  stays :
      {vs kept removed : List Version} (v : Version)
      → Split vs kept removed
      → Split (v ∷ vs) (v ∷ kept) removed
  goes :
      {vs kept removed : List Version} (v : Version)
      → Split vs kept removed
      → Split (v ∷ vs) kept (v ∷ removed)

-- The version that a query at a block finds: the first one that is not newer.
abbrev pub newest : ℕ → List Version → Option Version
newest block [] = none
newest block (v ∷ vs) = if leb v.block block then some v else newest block vs

-- From the newest on.
abbrev pub Descending : List Version → Type 0
Descending [] = Unit
Descending (v ∷ vs) = All (λ (u : Version). u.block ≤ v.block) vs × Descending vs

-- Every version but the last is newer than the block.
abbrev pub OneUpTo : ℕ → List Version → Type 0
OneUpTo block [] = Unit
OneUpTo block (v ∷ vs) = ((block < v.block) × OneUpTo block vs) ⊎ (vs ≡ [])

abbrev pub removals : List Version → WriteBatch → WriteBatch
removals [] batch = batch
removals (v ∷ vs) batch = removals vs (add_removal v.writes batch)

module _ (n : Serial) (c : QueryConfig) (first end_trim : ℕ) (r : Rocksdb) (db : r.Db) (t : KvTable)
    (index : Index) where
  -- What the loop reads of an entry.
  abbrev pub Decoded : Entry → Version → Type 0
  Decoded e v =
      (present_k : Bool) × (positions : Positions) × (suffix_pos : ℕ) × (pk : Bytes)
      × (fill_positions_from_index n.abieos e.0 index.sort_keys
            (init_positions (length t.table.fields))
          ≡ ok (v.block, present_k, positions, suffix_pos))
      × (extract_pk n.abieos e.0 t.table v.block present_k positions ≡ ok pk)
      × (remove_row_at n r c db pk ≡ ok v.writes)

  abbrev pub AllDecoded : List Entry → List Version → Type 0
  AllDecoded [] [] = Unit
  AllDecoded [] (v ∷ vs) = ⊥
  AllDecoded (e ∷ es) [] = ⊥
  AllDecoded (e ∷ es) (v ∷ vs) = Decoded e v × AllDecoded es vs

  trim_entry-eq :
      (e : Entry) (v : Version) (prev_block : ℕ) (batch : WriteBatch)
      → Decoded e v
      → trim_entry n c first end_trim r db t index e.0 e.1 (prev_block, batch)
        ≡ ok (
          true,
          (v.block, (if leb prev_block end_trim then add_removal v.writes batch else batch)),
        )
  unfolding trim_entry
  trim_entry-eq e v prev_block batch (present_k, positions, suffix_pos, pk, e1, e2, e3) =
      elim (Bool-cases (leb prev_block end_trim)) [
        | inl old ↦ simp (e1, old, e2, e3)
        | inr late ↦ simp (e1, late)
      ]

  -- Behind a version that is not newer than `end_trim`, all are removed.
  rest_goes :
      (es : List Entry) (vs : List Version) (prev_block : ℕ) (batch : WriteBatch)
      → AllDecoded es vs
      → prev_block ≤ end_trim
      → All (λ (u : Version). u.block ≤ prev_block) vs
      → Descending vs
      → (last : ℕ) × (removed : List Version) × Split vs [] removed
        × (visit (trim_entry n c first end_trim r db t index) es (prev_block, batch)
            ≡ ok (last, removals removed batch))
  unfolding visit
  rest_goes [] [] prev_block batch d old below desc = (prev_block, [], Split.nothing, refl)
  rest_goes [] (v ∷ vs) prev_block batch d old below desc = absurd d
  rest_goes (e ∷ es) [] prev_block batch d old below desc = absurd d
  rest_goes (e ∷ es) (v ∷ vs) prev_block batch (de, ds) old (bv, bs) (dv, desc) =
      let (last, removed, split, same) =
        rest_goes es vs v.block (add_removal v.writes batch) ds (omega arith) dv desc in
      let test : leb prev_block end_trim ≡ true = ground arith in
      (
        last,
        v ∷ removed,
        Split.goes v split,
        simp (trim_entry-eq e v prev_block batch de, test, same),
      )

  trim_loop :
      (es : List Entry) (vs : List Version) (prev_block : ℕ) (batch : WriteBatch)
      → AllDecoded es vs
      → end_trim < prev_block
      → Descending vs
      → (last : ℕ) × (kept : List Version) × (removed : List Version) × Split vs kept removed
        × (visit (trim_entry n c first end_trim r db t index) es (prev_block, batch)
            ≡ ok (last, removals removed batch))
        × ((block : ℕ) → end_trim ≤ block → newest block kept ≡ newest block vs)
        × OneUpTo end_trim kept
  unfolding visit
  trim_loop [] [] prev_block batch d late desc =
      (prev_block, [], [], Split.nothing, refl, (λ block h. refl), tt)
  trim_loop [] (v ∷ vs) prev_block batch d late desc = absurd d
  trim_loop (e ∷ es) [] prev_block batch d late desc = absurd d
  trim_loop (e ∷ es) (v ∷ vs) prev_block batch (de, ds) late (dv, desc) =
      let test : leb prev_block end_trim ≡ false = ground arith in
      elim (Bool-cases (leb v.block end_trim)) [
        | inl old ↦
            let (last, removed, split, same) =
              rest_goes es vs v.block batch ds (ground arith) dv desc in
            (
              last,
              v ∷ [],
              removed,
              Split.stays v split,
              simp (trim_entry-eq e v prev_block batch de, test, same),
              (λ block h. let test' : leb v.block block ≡ true = ground arith in rw test' refl),
              inr refl,
            )
        | inr newer ↦
            let (last, kept, removed, split, same, finds, one) =
              trim_loop es vs v.block batch ds (ground arith) desc in
            (
              last,
              v ∷ kept,
              removed,
              Split.stays v split,
              simp (trim_entry-eq e v prev_block batch de, test, same),
              (λ block h. ap (λ o. if leb v.block block then some v else o) (finds block h)),
              inl (ground arith, one),
            )
      ]

module _ (n : Serial) (h : IsAbieos n.abieos) where
  -- The names of an index are read back from its keys.
  read_index_key :
      (table index : ℕ) (rest : Bytes)
      → table < 2 ^ 64
      → index < 2 ^ 64
      → (k1 : ℕ × Bytes) × (key_to_native n.abieos 1 (append_index_key n.abieos table index ++ rest)
          ≡ ok k1)
        × (read_index_prefix n.abieos k1.1 ≡ ok (table, index, rest))
  unfolding append_index_key read_index_prefix
  read_index_key table index rest ht hi =
      let a = n.abieos in
      let k8 = native_to_key a 8 table in
      let k8' = native_to_key a 8 index in
      (
        (tag_index, k8 ++ (k8' ++ rest)),
        simp append_assoc
            (key_to_native-native_to_key a h 1 tag_index (k8 ++ (k8' ++ rest)) (omega arith)),
        rw (
          key_to_native-native_to_key a h 8 table (k8' ++ rest) ht,
          key_to_native-native_to_key a h 8 index rest hi,
        ),
      )

  -- If RocksDB is in order, abieos writes and reads numbers with the lowest byte first, and the
  -- entries of a key's trim index stand for rows that can be removed, from the newest on, `trim_range`
  -- splits these versions into those that stay and those whose rows and entries it removes: a query
  -- at `end_trim` or a later block finds what it found before, and of the versions up to `end_trim`
  -- at most one stays, the last one.
  pub trim_range-Split :
      (c : QueryConfig) (first end_trim : ℕ) (r : Rocksdb) (db : r.Db) (t : KvTable) (index : Index)
      (table_name : ℕ) (fields : Bytes) (vs : List Version) (batch : WriteBatch)
      → IsRocksdb (r.iterator db)
      → table_name < 2 ^ 64
      → index.short_name < 2 ^ 64
      → end_trim < 2 ^ 32 - 1
      → c.table_name_map table_name ≡ some t
      → t.trim_index_obj ≡ some index
      → AllDecoded n c first end_trim r db t index
          (select
            (in_range
              (append_index_key n.abieos table_name index.short_name ++ fields)
              (append_index_key n.abieos table_name index.short_name ++ fields))
            (r.iterator db).entries)
          vs
      → Descending vs
      → (kept : List Version) × (removed : List Version) × Split vs kept removed
        × (trim_range n c first end_trim r db
              (append_index_key n.abieos table_name index.short_name ++ fields)
              batch
            ≡ ok (removals removed batch))
        × ((block : ℕ) → end_trim ≤ block → newest block kept ≡ newest block vs)
        × OneUpTo end_trim kept
  unfolding trim_range get_kv_table
  trim_range-Split c first end_trim r db t index table_name fields vs batch rocks ht hi he known
        trims decoded desc =
      let range = append_index_key n.abieos table_name index.short_name ++ fields in
      let visitor = trim_entry n c first end_trim r db t index in
      let start : ℕ × WriteBatch = (2 ^ 32 - 1, batch) in
      let (last, kept, removed, split, same, finds, one) =
        trim_loop n c first end_trim r db t index
          (select (in_range range range) (r.iterator db).entries) vs (2 ^ 32 - 1) batch decoded he
          desc in
      let loop : for_each visitor (r.iterator db) range range start
          ≡ ok (last, removals removed batch) =
        for_each-in_range visitor range range (r.iterator db) start rocks ∙ same in
      let (k1, e1, e2) = read_index_key table_name index.short_name fields ht hi in
      (kept, removed, split, simp (e1, e2, known, trims, loop), finds, one)

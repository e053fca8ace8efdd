-- ===== src/FillRocks/Batches.antt =====
-- The two batches of a session of src/fill_rocksdb_plugin.cpp: what they make of a key, and that each
-- entry of the one has its row in the other.
use history_tools.Common.{
  ◌≡◌, ◌≢◌, refl, sym, ap, ◌∙◌, ◌⊎◌, inl, inr, ◌++◌, List, [], ◌∷◌, map, Bytes, Option, none, some,
  ok, subst, All, All-append, arith, Bool-cases,
}
use history_tools.SqlConverter.Types.{bytes_eq}
use history_tools.Rdb.Bytes.{bytes_eq_refl, bytes_eq→eq}
use history_tools.Kv.Keys.{tag_table, tag_index}
use history_tools.Rdb.Database.{Write, put, delete, WriteBatch, after_writes}
use history_tools.FillRocks.State.{QueryConfig, Serial}
use history_tools.FillRocks.Rows.{row_index_keys}
use history_tools.FillRocks.Covered.{
  tag_of, key_of, Among, Contents, written, Covered, Refers, RefersIn, IsPlain, All-map,
  after_writes-keep, after_writes_append,
}
use history_tools.FillRocks.Removal.{IsIndexKey}

-- What a batch makes of a key that it writes does not depend on what was there.
after_writes_over :
    (batch : WriteBatch) (key : Bytes) (old : Option Bytes) {v : Bytes}
    → after_writes batch key none ≡ some v
    → after_writes batch key old ≡ some v
after_writes_over [] key old e = cc
after_writes_over (put k v ∷ batch) key old e = elim (Bool-cases (bytes_eq k key)) [
  | inl same ↦ rw same (rw same at e)
  | inr other ↦ rw other (after_writes_over batch key old (rw other at e))
]
after_writes_over (delete k ∷ batch) key old e = elim (Bool-cases (bytes_eq k key)) [
  | inl same ↦ rw same (rw same at e)
  | inr other ↦ rw other (after_writes_over batch key old (rw other at e))
]

-- A value stems from the batch or was there.
after_writes_cases :
    (batch : WriteBatch) (key : Bytes) (old : Option Bytes) {u : Bytes}
    → after_writes batch key old ≡ some u
    → ((v : Bytes) × Among (put key v) batch) ⊎ (old ≡ some u)
after_writes_cases [] key old e = inr e
after_writes_cases (put k v ∷ batch) key old e = elim (Bool-cases (bytes_eq k key)) [
  | inl same ↦ inl (v, inl (ap (λ q. put q v) (bytes_eq→eq k key same)))
  | inr other ↦ elim (after_writes_cases batch key old (rw other at e)) [
    | inl (w, later) ↦ inl (w, inr later)
    | inr before ↦ inr before
  ]
]
after_writes_cases (delete k ∷ batch) key old e = elim (Bool-cases (bytes_eq k key)) [
  | inl same ↦ elim (after_writes_cases batch key none (rw same at e)) [
    | inl (w, later) ↦ inl (w, inr later)
    | inr before ↦ absurd (cc)
  ]
  | inr other ↦ elim (after_writes_cases batch key old (rw other at e)) [
    | inl (w, later) ↦ inl (w, inr later)
    | inr before ↦ inr before
  ]
]

All-Among :
    (P : Write → Type 0) (w : Write) (batch : WriteBatch) → All P batch → Among w batch → P w
All-Among P w [] h among = absurd among
All-Among P w (x ∷ batch) (hx, hs) (inl same) = subst P same hx
All-Among P w (x ∷ batch) (hx, hs) (inr later) = All-Among P w batch hs later

module _ (n : Serial) (c : QueryConfig) where
  -- A row that the database does not have, or that has no index entries.
  abbrev pub RowWrite : Contents → Write → Type 0
  RowWrite db (put k v) = (tag_of k ≡ tag_table) × ((db k ≡ none) ⊎ IsPlain n c k)
  RowWrite db (delete k) = ⊥

  -- An entry of a row of the contents, or a row without entries.
  abbrev pub EntryWrite : WriteBatch → Write → Type 0
  EntryWrite content (put k u) =
      ((tag_of k ≡ tag_index) × RefersIn n c (written content (λ key. none)) k)
      ⊎ ((tag_of k ≡ tag_table) × IsPlain n c k)
  EntryWrite content (delete k) = ⊥

  abbrev pub Pending : Contents → WriteBatch → WriteBatch → Type 0
  Pending db content index = All (RowWrite db) content × All (EntryWrite content) index

  RowWrite-ne_index :
      (db : Contents) (ik : Bytes) → IsIndexKey ik → (w : Write) → RowWrite db w → key_of w ≢ ik
  RowWrite-ne_index db ik t (put k v) (tk, fresh) same = let e = ap tag_of same in omega arith
  RowWrite-ne_index db ik t (delete k) d same = d

  RowWrite-ne_row :
      (db : Contents) (ik k v : Bytes)
      → db k ≡ some v
      → Refers n c ik k v
      → (w : Write) → RowWrite db w
      → key_of w ≢ k
  RowWrite-ne_row db ik k v e refers (put j u) (tj, inl fresh) same = let e' = ap db same in cc
  RowWrite-ne_row db ik k v e refers (put j u) (tj, inr plain) same =
      plain ik v (subst (λ q. Refers n c ik q v) (sym same) refers)
  RowWrite-ne_row db ik k v e refers (delete j) d same = d

  EntryWrite-ne_row :
      (content : WriteBatch) (ik k v : Bytes)
      → tag_of k ≡ tag_table
      → Refers n c ik k v
      → (w : Write) → EntryWrite content w
      → key_of w ≢ k
  EntryWrite-ne_row content ik k v t refers (put j u) (inl (tj, row)) same =
      let e = ap tag_of same in omega arith
  EntryWrite-ne_row content ik k v t refers (put j u) (inr (tj, plain)) same =
      plain ik v (subst (λ q. Refers n c ik q v) (sym same) refers)
  EntryWrite-ne_row content ik k v t refers (delete j) d same = d

  -- Behind the contents.
  pub Pending-content :
      (db : Contents) (content : WriteBatch)
      → All (RowWrite db) content
      → Covered n c db
      → Covered n c (written content db)
  Pending-content db content rows covered ik u t e =
      let keep_ik =
        after_writes-keep content ik (db ik) (All-map (RowWrite-ne_index db ik t) content rows) in
      let (k, v, tk, ek, refers) = covered ik u t (sym keep_ik ∙ e) in
      let keep_k =
        after_writes-keep content k (db k)
          (All-map (RowWrite-ne_row db ik k v ek refers) content rows) in
      (k, v, tk, keep_k ∙ ek, refers)

  -- Behind both.
  pub Pending-both :
      (db : Contents) (content index : WriteBatch)
      → Pending db content index
      → Covered n c db
      → Covered n c (written index (written content db))
  Pending-both db content index (rows, entries) covered ik u t e =
      let leaves : RefersIn n c (written content db) ik
          → RefersIn n c (written index (written content db)) ik =
        λ (k, v, tk, ek, refers). (
          k,
          v,
          tk,
          after_writes-keep index k _
                (All-map (EntryWrite-ne_row content ik k v tk refers) index entries)
              ∙ ek,
          refers,
        ) in
      elim (after_writes_cases index ik (written content db ik) e) [
        | inl (v, among) ↦ elim (All-Among (EntryWrite content) (put ik v) index entries among) [
          | inl (ti, (k, w, tk, ek, refers)) ↦
              leaves (k, w, tk, after_writes_over content k (db k) ek, refers)
          | inr (ti, plain) ↦ absurd (omega arith)
        ]
        | inr before ↦ leaves (Pending-content db content rows covered ik u t before)
      ]

  EntryWrite-more :
      (content : WriteBatch) (k value : Bytes)
      → All (λ w. key_of w ≢ k) content
      → (w : Write) → EntryWrite content w
      → EntryWrite (content ++ put k value ∷ []) w
  EntryWrite-more content k value new (put j u) (inl (tj, (k0, v0, t0, e0, refers))) =
      let row : WriteBatch = put k value ∷ [] in
      let ne : k ≢ k0 = λ same.
        let gone : after_writes content k0 none ≡ none =
          subst (λ q. after_writes content q none ≡ none) same
            (after_writes-keep content k none new) in
        cc in
      let e' : after_writes (content ++ row) k0 none ≡ some v0 =
        sym (after_writes_append content row k0 none)
        ∙ ap (after_writes row k0) e0
        ∙ after_writes-keep row k0 (some v0) (ne, tt) in
      inl (tj, (k0, v0, t0, e', refers))
  EntryWrite-more content k value new (put j u) (inr plain) = inr plain
  EntryWrite-more content k value new (delete j) d = d

  keys-EntryWrite :
      (content : WriteBatch) (k value : Bytes) (all keys : List Bytes)
      → tag_of k ≡ tag_table
      → after_writes content k none ≡ some value
      → row_index_keys n c k value ≡ ok all
      → ((ik : Bytes) → Among ik keys → Among ik all)
      → All IsIndexKey keys
      → All (EntryWrite content) (map (λ key. put key []) keys)
  keys-EntryWrite content k value all [] t e found within tags = tt
  keys-EntryWrite content k value all (key ∷ keys) t e found within (tag, tags) = (
    inl (tag, (k, value, t, e, (all, found, within key (inl refl)))),
    keys-EntryWrite content k value all keys t e found (λ ik a. within ik (inr a)) tags,
  )

  -- A new row, and its entries, behind those that wait.
  pub Pending-append :
      (db : Contents) (content index : WriteBatch) (k value : Bytes) (keys : List Bytes)
      → tag_of k ≡ tag_table
      → db k ≡ none
      → All (λ w. key_of w ≢ k) content
      → row_index_keys n c k value ≡ ok keys
      → All IsIndexKey keys
      → Pending db content index
      → Pending db (content ++ put k value ∷ []) (index ++ map (λ key. put key []) keys)
  Pending-append db content index k value keys t fresh new found tags (rows, entries) =
      let row : WriteBatch = put k value ∷ [] in
      let here : after_writes (content ++ row) k none ≡ some value =
        sym (after_writes_append content row k none) ∙ rw (bytes_eq_refl k) refl in
      (
        All-append (RowWrite db) content row rows ((t, inl fresh), tt),
        All-append (EntryWrite (content ++ row)) index (map (λ key. put key []) keys)
            (All-map (EntryWrite-more content k value new) index entries)
            (keys-EntryWrite (content ++ row) k value keys keys t here found (λ ik a. a) tags),
      )

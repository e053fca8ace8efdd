-- ===== src/FillRocks/Removal.antt =====
-- What `remove_row` adds to batches that remove rows with all their index entries.
use history_tools.Common.{
  ℕ, ◌<◌, ◌≡◌, refl, inl, inr, Bool, true, ◌++◌, List, [], ◌∷◌, map, Bytes, some, ok, >>=-eq-ok,
  ok-injective, subst, All, All-append, arith, append_assoc, append-nil, codes,
}
use history_tools.Kv.Types.{Abieos}
use history_tools.Kv.Laws.{IsAbieos}
use history_tools.Kv.RoundTrip.{native_to_key-eq}
use history_tools.Kv.Keys.{
  tag_table, tag_index, append_table_key, append_table_key_block, append_table_key_all,
  append_index_key, append_index_suffix, native_to_key, make_fill_status_key,
}
use history_tools.Kv.Positions.{extract_keys, Positions}
use history_tools.Rdb.Database.{Write, put, delete, WriteBatch}
use history_tools.Rdb.Range.{Entry, prefix_gt}
use history_tools.Rdb.InRange.{bytes_lt, in_range}
use history_tools.FillRocks.State.{Index, QueryConfig, Serial}
use history_tools.FillRocks.Rows.{
  index_key, index_keys, row_index_keys, remove_row, get_kv_table, read_row_key, row_positions,
}
use history_tools.FillRocks.Covered.{tag_of, Among, Contents, Removes, All-map}

pub Among-append_left : {A : Type 0} (a : A) (xs ys : List A) → Among a xs → Among a (xs ++ ys)
Among-append_left a [] ys h = absurd h
Among-append_left a (x ∷ xs) ys (inl same) = inl same
Among-append_left a (x ∷ xs) ys (inr later) = inr (Among-append_left a xs ys later)

pub Among-append_right : {A : Type 0} (a : A) (xs ys : List A) → Among a ys → Among a (xs ++ ys)
Among-append_right a [] ys h = h
Among-append_right a (x ∷ xs) ys h = inr (Among-append_right a xs ys h)

abbrev pub IsIndexKey : Bytes → Type 0
IsIndexKey k = tag_of k ≡ tag_index

module _ (a : Abieos) (h : IsAbieos a) where
  tag-native_to_key :
      (tag : ℕ) (rest : Bytes) → tag < 256 → tag_of (native_to_key a 1 tag ++ rest) ≡ tag
  tag-native_to_key tag rest lt = rw (native_to_key-eq a h 1 tag) (omega arith)

  pub tag-append_table_key :
      (block table : ℕ) (present_k : Bool) (rest : Bytes)
      → tag_of (append_table_key a block present_k table ++ rest) ≡ tag_table
  unfolding append_table_key
  tag-append_table_key block table present_k rest =
      rw append_assoc (tag-native_to_key tag_table _ (omega arith))

  pub tag-append_index_key :
      (table index : ℕ) (rest : Bytes) → IsIndexKey (append_index_key a table index ++ rest)
  unfolding append_index_key
  tag-append_index_key table index rest =
      rw append_assoc (tag-native_to_key tag_index _ (omega arith))

  pub tag-make_fill_status_key : tag_of (make_fill_status_key a) ≡ tag_table
  unfolding make_fill_status_key
  tag-make_fill_status_key =
      subst (λ k. tag_of k ≡ tag_table)
        (append-nil (append_table_key a 0 true (a.name_value (codes "fill.status"))))
        (tag-append_table_key 0 (a.name_value (codes "fill.status")) true [])

  pub append_table_key_block-eq :
      (block : ℕ) → append_table_key_block a block ≡ tag_table ∷ native_to_key a 4 block
  unfolding append_table_key_block
  append_table_key_block-eq block = rw (native_to_key-eq a h 1 tag_table) refl

  pub append_table_key_all-eq : append_table_key_all a ≡ tag_table ∷ []
  unfolding append_table_key_all
  append_table_key_all-eq = native_to_key-eq a h 1 tag_table

-- A key between two that begin with a tag begins with it.
pub tag_in_range :
    (tag : ℕ) (lower upper : Bytes) (e : Entry)
    → in_range (tag ∷ lower) (tag ∷ upper) e ≡ true
    → tag_of e.0 ≡ tag
unfolding bytes_lt prefix_gt
tag_in_range tag lower upper ([], v) r = cc
tag_in_range tag lower upper (d ∷ k, v) r = ground arith

-- A deletion of an index entry.
abbrev pub DeletesIndex : Write → Type 0
DeletesIndex (put k v) = ⊥
DeletesIndex (delete k) = IsIndexKey k

module _ (n : Serial) (h : IsAbieos n.abieos) (c : QueryConfig) where
  index_keys-IsIndexKey :
      (table : ℕ) (indexes : List Index) (block : ℕ) (present_k : Bool) (value : Bytes)
      (positions : Positions) (keys : List Bytes)
      → index_keys n table indexes block present_k value positions ≡ ok keys
      → All IsIndexKey keys
  unfolding index_keys index_key
  index_keys-IsIndexKey table [] block present_k value positions keys e =
      subst (All IsIndexKey) (ok-injective e) tt
  index_keys-IsIndexKey table (index ∷ indexes) block present_k value positions keys e =
      let (key, e1, h1) = >>=-eq-ok (index_key n table index block present_k value positions) _ e in
      let (more, e2, h2) =
        >>=-eq-ok (index_keys n table indexes block present_k value positions) _ h1 in
      let (fields, e3, h3) =
        >>=-eq-ok (extract_keys n.abieos value index.sort_keys positions) _ e1 in
      subst (All IsIndexKey) (ok-injective h2) (
        subst IsIndexKey (ok-injective h3) (
            tag-append_index_key n.abieos h table index.short_name
              (fields ++ append_index_suffix n.abieos block present_k)),
        index_keys-IsIndexKey table indexes block present_k value positions more e2,
      )

  -- The entries of a row are entries of indexes.
  pub row_index_keys-IsIndexKey :
      (k v : Bytes) (keys : List Bytes) → row_index_keys n c k v ≡ ok keys → All IsIndexKey keys
  unfolding row_index_keys
  row_index_keys-IsIndexKey k v keys e =
      let (row, e1, h1) = >>=-eq-ok (read_row_key n k) _ e in
      let (t, e2, h2) = >>=-eq-ok (get_kv_table n c row.1) _ h1 in
      let (positions, e3, h3) = >>=-eq-ok (row_positions n t.table v) _ h2 in
      index_keys-IsIndexKey row.1 t.indexes row.0 row.2 v positions keys h3

  -- What is deleted is a row, with all its index entries among the writes `index`.
  abbrev pub DeletesRow : Contents → WriteBatch → Write → Type 0
  DeletesRow db index (put k v) = ⊥
  DeletesRow db index (delete k) =
      (v : Bytes) × (keys : List Bytes) × (tag_of k ≡ tag_table)
      × (db k ≡ some v)
      × (row_index_keys n c k v ≡ ok keys)
      × All (λ ik. Among (delete ik) index) keys

  map_delete-DeletesIndex :
      (keys : List Bytes) → All IsIndexKey keys → All DeletesIndex (map delete keys)
  map_delete-DeletesIndex [] t = tt
  map_delete-DeletesIndex (k ∷ keys) (tk, ts) = (tk, map_delete-DeletesIndex keys ts)

  map_delete-Among : (keys : List Bytes) → All (λ ik. Among (delete ik) (map delete keys)) keys
  map_delete-Among [] = tt
  map_delete-Among (k ∷ keys) =
      (inl refl, All-map (λ ik later. inr later) keys (map_delete-Among keys))

  -- The writes of one `remove_row`, for a row that is there.
  pub remove_row-Deletes :
      (db : Contents) (k v : Bytes) (writes : WriteBatch × WriteBatch)
      → tag_of k ≡ tag_table
      → db k ≡ some v
      → remove_row n c k v ≡ ok writes
      → All DeletesIndex writes.1 × All (DeletesRow db writes.1) writes.0
  unfolding remove_row
  remove_row-Deletes db k v writes t e removed =
      let (keys, e1, h1) = >>=-eq-ok (row_index_keys n c k v) _ removed in
      subst (λ (w : WriteBatch × WriteBatch). All DeletesIndex w.1 × All (DeletesRow db w.1) w.0)
        (ok-injective h1)
        (
          map_delete-DeletesIndex keys (row_index_keys-IsIndexKey k v keys e1),
          ((v, keys, t, e, e1, map_delete-Among keys), tt),
        )

  -- More index deletions may stand behind or before.
  pub DeletesRow-more :
      (db : Contents) (index index' : WriteBatch)
      → ((ik : Bytes) → Among (delete ik) index → Among (delete ik) index')
      → (w : Write) → DeletesRow db index w
      → DeletesRow db index' w
  DeletesRow-more db index index' more (put k v) d = d
  DeletesRow-more db index index' more (delete k) (v, keys, t, e, found, gone) =
      (v, keys, t, e, found, All-map more keys gone)

  pub DeletesIndex-Removes :
      (db : Contents) (batch : WriteBatch) (w : Write) → DeletesIndex w → Removes n c db batch w
  DeletesIndex-Removes db batch (put k v) d = absurd d
  DeletesIndex-Removes db batch (delete k) d = inl d

  pub DeletesRow-Removes :
      (db : Contents) (batch : WriteBatch) (w : Write)
      → DeletesRow db batch w
      → Removes n c db batch w
  DeletesRow-Removes db batch (put k v) d = absurd d
  DeletesRow-Removes db batch (delete k) d = inr d

  -- Writes that remove rows with all their entries, and more writes.
  Removes-more :
      (db : Contents) (b b' : WriteBatch)
      → ((ik : Bytes) → Among (delete ik) b → Among (delete ik) b')
      → (w : Write) → Removes n c db b w
      → Removes n c db b' w
  Removes-more db b b' more (put k v) d = d
  Removes-more db b b' more (delete k) (inl t) = inl t
  Removes-more db b b' more (delete k) (inr (v, keys, t, e, found, gone)) =
      inr (v, keys, t, e, found, All-map more keys gone)

  pub Removes-append :
      (db : Contents) (b b' : WriteBatch)
      → All (Removes n c db b) b
      → All (Removes n c db b') b'
      → All (Removes n c db (b ++ b')) (b ++ b')
  Removes-append db b b' d d' =
      All-append (Removes n c db (b ++ b')) b b'
        (All-map (Removes-more db b (b ++ b') (λ ik. Among-append_left (delete ik) b b')) b d)
        (All-map (Removes-more db b' (b ++ b') (λ ik. Among-append_right (delete ik) b b')) b' d')

  -- The same of one `remove_row`, in one batch.
  pub remove_row-Removes :
      (db : Contents) (k v : Bytes) (writes : WriteBatch × WriteBatch)
      → tag_of k ≡ tag_table
      → db k ≡ some v
      → remove_row n c k v ≡ ok writes
      → All (Removes n c db (writes.1 ++ writes.0)) (writes.1 ++ writes.0)
  remove_row-Removes db k v (content, index) t e removed =
      let (di, dr) = remove_row-Deletes db k v (content, index) t e removed in
      let all = index ++ content in
      All-append (Removes n c db all) index content (All-map (DeletesIndex-Removes db all) index di)
        (All-map
          (λ w dw.
            DeletesRow-Removes db all w (
              DeletesRow-more db index all (λ ik. Among-append_left (delete ik) index content) w
                dw))
          content dr)

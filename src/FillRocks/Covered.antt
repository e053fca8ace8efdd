-- ===== src/FillRocks/Covered.antt =====
-- Every index entry refers to a row that is there. This is what `check` of
-- src/fill_rocksdb_plugin.cpp looks for, and what the order of the writes is to keep where the
-- program exits between two of them.
use history_tools.Common.{
  ℕ, ◌≡◌, ◌≢◌, refl, sym, ap, subst, ◌∙◌, ◌⊎◌, inl, inr, ◌++◌, List, [], ◌∷◌, Bytes, Option, none,
  some, ok, ok-injective, All, Bool-cases, arith,
}
use history_tools.SqlConverter.Types.{bytes_eq}
use history_tools.Rdb.Bytes.{bytes_eq_refl, bytes_ne→false}
use history_tools.Kv.Keys.{tag_table, tag_index}
use history_tools.Rdb.Database.{Write, put, delete, WriteBatch, after_writes}
use history_tools.FillRocks.State.{QueryConfig, Serial}
use history_tools.FillRocks.Rows.{row_index_keys}

-- The tag that a key begins with.
abbrev pub tag_of : Bytes → ℕ
tag_of [] = 0
tag_of (c ∷ k) = c

abbrev pub key_of : Write → Bytes
key_of (put k v) = k
key_of (delete k) = k

abbrev pub Among : {A : Type 0} → A → List A → Type 0
Among a [] = ⊥
Among a (x ∷ xs) = (x ≡ a) ⊎ Among a xs

-- What a database holds under a key, behind a batch.
abbrev pub Contents : Type 0
Contents = Bytes → Option Bytes

abbrev pub written : WriteBatch → Contents → Contents
written batch db key = after_writes batch key (db key)

-- A key that a batch does not write keeps its value.
pub after_writes-keep :
    (batch : WriteBatch) (key : Bytes) (old : Option Bytes)
    → All (λ w. key_of w ≢ key) batch
    → after_writes batch key old ≡ old
after_writes-keep [] key old h = refl
after_writes-keep (put k v ∷ batch) key old (hk, hs) =
    rw (bytes_ne→false k key hk) (after_writes-keep batch key old hs)
after_writes-keep (delete k ∷ batch) key old (hk, hs) =
    rw (bytes_ne→false k key hk) (after_writes-keep batch key old hs)

pub All-map :
    {A : Type 0} {P Q : A → Type 0} (f : (a : A) → P a → Q a) (xs : List A) → All P xs → All Q xs
All-map f [] h = tt
All-map f (x ∷ xs) (hx, hs) = (f x hx, All-map f xs hs)

-- Two batches, one behind the other.
pub after_writes_append :
    (b b' : WriteBatch) (key : Bytes) (old : Option Bytes)
    → after_writes b' key (after_writes b key old) ≡ after_writes (b ++ b') key old
after_writes_append [] b' key old = refl
after_writes_append (put k v ∷ b) b' key old = after_writes_append b b' key _
after_writes_append (delete k ∷ b) b' key old = after_writes_append b b' key _

-- The key is not put.
abbrev pub NotPut : Bytes → Write → Type 0
NotPut key (put k v) = k ≢ key
NotPut key (delete k) = Unit

pub after_writes_left :
    (batch : WriteBatch) (key : Bytes) (old : Option Bytes) {u : Bytes}
    → All (NotPut key) batch
    → after_writes batch key old ≡ some u
    → (old ≡ some u) × ¬ Among (delete key) batch
after_writes_left [] key old h e = (e, λ among. among)
after_writes_left (put k v ∷ batch) key old (hk, hs) e =
    let (before, not_among) =
      after_writes_left batch key old hs (rw (bytes_ne→false k key hk) at e) in
    (before, λ among. elim among [ inl same ↦ cc | inr later ↦ not_among later ])
after_writes_left (delete k ∷ batch) key old (hk, hs) e = elim (Bool-cases (bytes_eq k key)) [
  | inl same ↦
      let (before, not_among) = after_writes_left batch key none hs (rw same at e) in absurd (cc)
  | inr other ↦
      let (before, not_among) = after_writes_left batch key old hs (rw other at e) in
      (
        before,
        λ among. elim among [
          | inl same ↦
              let here : k ≡ key = ap key_of same in
              let eq = rw here at other in let eq' = bytes_eq_refl key in cc
          | inr later ↦ not_among later
        ],
      )
]

module _ (n : Serial) (c : QueryConfig) where
  -- An index key is one of those of a row.
  abbrev pub Refers : Bytes → Bytes → Bytes → Type 0
  Refers ik k v = (keys : List Bytes) × (row_index_keys n c k v ≡ ok keys) × Among ik keys

  -- The row is there, and the key is one of its index keys.
  abbrev pub RefersIn : Contents → Bytes → Type 0
  RefersIn db ik =
      (k : Bytes) × (v : Bytes) × (tag_of k ≡ tag_table) × (db k ≡ some v) × Refers ik k v

  -- Every entry of an index refers to a row.
  abbrev pub Covered : Contents → Type 0
  Covered db = (ik u : Bytes) → tag_of ik ≡ tag_index → db ik ≡ some u → RefersIn db ik

  -- A row that has no index entries, whatever its value is.
  abbrev pub IsPlain : Bytes → Type 0
  IsPlain k = (ik v : Bytes) → ¬ Refers ik k v

  -- A batch removes index entries, and rows with all their entries; what it puts is plain.
  abbrev pub Removes : Contents → WriteBatch → Write → Type 0
  Removes db batch (put k v) = (tag_of k ≡ tag_table) × IsPlain k
  Removes db batch (delete k) =
      (tag_of k ≡ tag_index)
      ⊎ ((v : Bytes) × (keys : List Bytes) × (tag_of k ≡ tag_table)
          × (db k ≡ some v)
          × (row_index_keys n c k v ≡ ok keys)
          × All (λ ik. Among (delete ik) batch) keys)

  All-Among :
      {ik : Bytes} (P : Bytes → Type 0) (keys : List Bytes) → All P keys → Among ik keys → P ik
  All-Among P [] h among = absurd among
  All-Among P (k ∷ keys) (hk, hs) (inl same) = subst P same hk
  All-Among P (k ∷ keys) (hk, hs) (inr later) = All-Among P keys hs later

  Removes-NotPut :
      (db : Contents) (all batch : WriteBatch) (ik : Bytes)
      → tag_of ik ≡ tag_index
      → All (Removes db all) batch
      → All (NotPut ik) batch
  Removes-NotPut db all [] ik t h = tt
  Removes-NotPut db all (put k v ∷ batch) ik t ((hk, plain), hs) =
      ((λ e. let e' = ap tag_of e in omega arith), Removes-NotPut db all batch ik t hs)
  Removes-NotPut db all (delete k ∷ batch) ik t (hk, hs) = (tt, Removes-NotPut db all batch ik t hs)

  -- A write of such a batch leaves the row of an entry that stays.
  Removes-ne :
      (db : Contents) (all : WriteBatch) (ik k v : Bytes) (w : Write)
      → tag_of k ≡ tag_table
      → db k ≡ some v
      → Refers ik k v
      → ¬ Among (delete ik) all
      → Removes db all w
      → key_of w ≢ k
  Removes-ne db all ik k v (put j u) t e refers stays (tj, plain) same =
      plain ik v (subst (λ q. Refers ik q v) (sym same) refers)
  Removes-ne db all ik k v (delete j) t e refers stays (inl tj) same =
      let e' = ap tag_of same in omega arith
  Removes-ne db all ik k v (delete j) t e (keys, found, among) stays
        (inr (u, keys', tj, eu, found', gone)) same =
      let ev : v ≡ u = let both : some v ≡ some u = sym e ∙ ap db (sym same) ∙ eu in cc in
      let found_k : row_index_keys n c k v ≡ ok keys' =
        ap (λ q. row_index_keys n c q v) (sym same) ∙ ap (row_index_keys n c j) ev ∙ found' in
      let ek : keys ≡ keys' = ok-injective (sym found ∙ found_k) in
      stays (All-Among (λ q. Among (delete q) all) keys' gone (subst (λ l. Among ik l) ek among))

  -- A batch that removes rows with all their index entries leaves every entry covered.
  pub Removes-Covered :
      (db : Contents) (batch : WriteBatch)
      → All (Removes db batch) batch
      → Covered db
      → Covered (written batch db)
  Removes-Covered db batch removes covered ik u t e =
      let (before, stays) =
        after_writes_left batch ik (db ik) (Removes-NotPut db batch batch ik t removes) e in
      let (k, v, tk, ek, refers) = covered ik u t before in
      let others = All-map (λ w. Removes-ne db batch ik k v w tk ek refers stays) batch removes in
      (k, v, tk, after_writes-keep batch k (db k) others ∙ ek, refers)

  -- The same of a database with the same contents.
  pub Covered-get :
      (db db' : Contents) → ((key : Bytes) → db key ≡ db' key) → Covered db' → Covered db
  Covered-get db db' same covered ik u t e =
      let (k, v, tk, ek, refers) = covered ik u t (sym (same ik) ∙ e) in
      (k, v, tk, same k ∙ ek, refers)

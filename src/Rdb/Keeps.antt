-- ===== src/Rdb/Keeps.antt =====
-- What the function of a `for_each` keeps of its state.
use history_tools.Common.{
  ◌≡◌, sym, ◌∙◌, Bool, true, List, [], ◌∷◌, Bytes, ok, >>=-eq-ok, ok-injective, subst, some, All,
  Bool-cases, inl, inr,
}
use history_tools.Rdb.Database.{Rocksdb, WritesInOrder}
use history_tools.Rdb.Range.{Entry, Iterator, Visitor, for_each}
use history_tools.Rdb.InRange.{IsRocksdb, in_range, select, visit, for_each-in_range}

-- An iterator of the database is in order, and has what `get` gives.
pub record IsStore (r : Rocksdb) : Type 0 where
  pub in_order : (db : r.Db) → IsRocksdb (r.iterator db)
  pub listed : (db : r.Db) → All (λ (e : Entry). r.get db e.0 ≡ some e.1) (r.iterator db).entries
  pub writes : WritesInOrder r

-- The function keeps `P` on the entries that satisfy `Q`.
abbrev pub VisitKeeps {κ} : {S : Type 0} → (Entry → Type 0) → (S → Type κ) → Visitor S → Type κ
VisitKeeps Q P f =
    (k v : Bytes) (s : _) (more : Bool) (s' : _) → Q (k, v) → f k v s ≡ ok (more, s') → P s → P s'

module _ {κ} {S : Type 0} (Q : Entry → Type 0) (P : S → Type κ) (f : Visitor S)
    (keeps : VisitKeeps Q P f) where
  visit-Keeps : (es : List Entry) (s s' : S) → All Q es → visit f es s ≡ ok s' → P s → P s'
  unfolding visit
  visit-Keeps [] s s' q h p = subst P (ok-injective h) p
  visit-Keeps (e ∷ es) s s' (qe, qs) h p =
      let (r, called, rest) = >>=-eq-ok (f e.0 e.1 s) _ h in
      let p' = keeps e.0 e.1 s r.0 r.1 qe called p in
      elim (Bool-cases r.0) [
        | inl more ↦ visit-Keeps es r.1 s' qs (rw more at rest) p'
        | inr stop ↦ subst P (ok-injective (rw stop at rest)) p'
      ]

All-select :
    (R Q : Entry → Type 0) (p : Entry → Bool) (es : List Entry)
    → ((e : Entry) → R e → p e ≡ true → Q e)
    → All R es
    → All Q (select p es)
unfolding select
All-select R Q p [] h r = tt
All-select R Q p (e ∷ es) h (re, rs) = elim (Bool-cases (p e)) [
  | inl taken ↦ rw taken (h e re taken, All-select R Q p es h rs)
  | inr left_ ↦ rw left_ (All-select R Q p es h rs)
]

-- What holds of the entries of a database, and what the bounds say of a key, hold where the function
-- of a `for_each` is called.
pub for_each-Keeps {κ} :
    {S : Type 0} (R Q : Entry → Type 0) (P : S → Type κ) (f : Visitor S) (it : Iterator)
    (lower upper : Bytes) (s s' : S)
    → IsRocksdb it
    → All R it.entries
    → ((e : Entry) → R e → in_range lower upper e ≡ true → Q e)
    → VisitKeeps Q P f
    → for_each f it lower upper s ≡ ok s'
    → P s
    → P s'
for_each-Keeps R Q P f it lower upper s s' rocks r q keeps h =
    visit-Keeps Q P f keeps (select (in_range lower upper) it.entries) s s'
      (All-select R Q (in_range lower upper) it.entries q r)
      (sym (for_each-in_range f lower upper it s rocks) ∙ h)

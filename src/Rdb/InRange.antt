-- ===== src/Rdb/InRange.antt =====
-- `for_each` visits the entries of its range, as the comment above it says: partial keys are allowed,
-- and both bounds are within.
use history_tools.Common.{
  ◌≡◌, refl, ap, ◌∙◌, Bool, true, false, ◌&&◌, not, List, [], ◌∷◌, if◌then◌else◌, Bytes, Result, ok,
  ◌>>=◌, ltb, ◌==◌, All, arith, Bool-cases, inl, inr,
}
use history_tools.Rdb.Range.{Entry, Iterator, prefix_gt, Visitor, for_each_from, for_each}

-- RocksDB's default order of keys: that of their bytes, the shorter first.
unfoldable pub bytes_lt : Bytes → Bytes → Bool
bytes_lt s [] = false
bytes_lt [] (d ∷ t) = true
bytes_lt (c ∷ s) (d ∷ t) = if ltb c d then true else (if c == d then bytes_lt s t else false)

-- The entries from the first one on whose key is not before the bound.
unfoldable pub from_bound : Bytes → List Entry → List Entry
from_bound lower [] = []
from_bound lower (e ∷ entries) =
    if bytes_lt e.0 lower then from_bound lower entries else e ∷ entries

-- Not before the lower bound, and not behind all keys that begin with the upper one.
abbrev pub in_range : Bytes → Bytes → Entry → Bool
in_range lower upper e = not (bytes_lt e.0 lower) && not (prefix_gt e.0 upper)

unfoldable pub select : (Entry → Bool) → List Entry → List Entry
select p [] = []
select p (e ∷ es) = if p e then e ∷ select p es else select p es

-- A function called on every entry of a list in turn, until it says to stop.
unfoldable pub visit : {S : Type 0} → Visitor S → List Entry → S → Result S
visit f [] s = ok s
visit f (e ∷ es) s = f e.0 e.1 s >>= λ r. (if r.0 then visit f es r.1 else ok r.1)

abbrev pub Sorted : List Entry → Type 0
Sorted [] = Unit
Sorted (e ∷ es) = All (λ (d : Entry). bytes_lt e.0 d.0 ≡ true) es × Sorted es

-- What is assumed of RocksDB: the entries are in the order of their keys, and `Seek` goes to the first
-- one that is not before its key.
pub record IsRocksdb (it : Iterator) : Type 0 where
  pub sorted : Sorted it.entries
  pub seek-eq : (lower : Bytes) → it.seek lower ≡ from_bound lower it.entries

pub bytes_lt_trans :
    (s t u : Bytes) → bytes_lt s t ≡ true → bytes_lt t u ≡ true → bytes_lt s u ≡ true
unfolding bytes_lt
bytes_lt_trans s [] u h k = cc
bytes_lt_trans s (d ∷ t) [] h k = cc
bytes_lt_trans [] (d ∷ t) (c ∷ u) h k = refl
bytes_lt_trans (b ∷ s) (d ∷ t) (c ∷ u) h k = ground (arith, bytes_lt_trans s t u)

not_before-later :
    (s t lower : Bytes) → bytes_lt s t ≡ true → bytes_lt s lower ≡ false → bytes_lt t lower ≡ false
unfolding bytes_lt
not_before-later s t [] h k = refl
not_before-later s [] (l ∷ lower) h k = cc
not_before-later [] (d ∷ t) (l ∷ lower) h k = cc
not_before-later (c ∷ s) (d ∷ t) (l ∷ lower) h k = ground (arith, not_before-later s t lower)

prefix_gt-later :
    (s t upper : Bytes) → bytes_lt s t ≡ true → prefix_gt s upper ≡ true → prefix_gt t upper ≡ true
unfolding bytes_lt prefix_gt
prefix_gt-later [] t upper h k = cc
prefix_gt-later (c ∷ s) t [] h k = cc
prefix_gt-later (c ∷ s) [] (u ∷ upper) h k = cc
prefix_gt-later (c ∷ s) (d ∷ t) (u ∷ upper) h k = ground (arith, prefix_gt-later s t upper)

select-behind :
    (lower upper k : Bytes) (es : List Entry)
    → prefix_gt k upper ≡ true
    → All (λ (d : Entry). bytes_lt k d.0 ≡ true) es
    → select (in_range lower upper) es ≡ []
unfolding select
select-behind lower upper k [] h all = refl
select-behind lower upper k (e ∷ es) h (he, hes) =
    ground (arith, prefix_gt-later k e.0 upper he h, select-behind lower upper k es h hes)

module _ {S : Type 0} (f : Visitor S) (lower upper : Bytes) where
  for_each_from-in_range :
      (es : List Entry) (s : S)
      → Sorted es
      → All (λ (e : Entry). bytes_lt e.0 lower ≡ false) es
      → for_each_from f upper es s ≡ visit f (select (in_range lower upper) es) s
  unfolding for_each_from select visit
  for_each_from-in_range [] s sorted above = refl
  for_each_from-in_range (e ∷ es) s (first, sorted) (he, above) =
      let same = λ (r : Bool × S).
        ap (λ q. if r.0 then q else ok r.1) (for_each_from-in_range es r.1 sorted above) in
      elim (Bool-cases (prefix_gt e.0 upper)) [
        | inl behind ↦ rw (he, behind, select-behind lower upper e.0 es behind first) refl
        | inr within ↦
            rw (he, within)
              (ap (λ (rest : Bool × S → Result S). f e.0 e.1 s >>= rest)
                (λ i (r : Bool × S). same r i))
      ]

  above-later :
      (k : Bytes) (es : List Entry)
      → bytes_lt k lower ≡ false
      → All (λ (d : Entry). bytes_lt k d.0 ≡ true) es
      → All (λ (e : Entry). bytes_lt e.0 lower ≡ false) es
  above-later k [] h all = tt
  above-later k (e ∷ es) h (he, hes) = (not_before-later k e.0 lower he h, above-later k es h hes)

  from_bound-in_range :
      (es : List Entry) (s : S)
      → Sorted es
      → for_each_from f upper (from_bound lower es) s ≡ visit f (select (in_range lower upper) es) s
  unfolding from_bound select
  from_bound-in_range [] s sorted = for_each_from-in_range [] s tt tt
  from_bound-in_range (e ∷ es) s (first, sorted) = elim (Bool-cases (bytes_lt e.0 lower)) [
    | inl early ↦ rw early (from_bound-in_range es s sorted)
    | inr late ↦
        let stays : from_bound lower (e ∷ es) ≡ e ∷ es = rw (late, from_bound) refl in
        ap (λ q. for_each_from f upper q s) stays
        ∙ for_each_from-in_range (e ∷ es) s (first, sorted) (late, above-later e.0 es late first)
  ]

  -- If RocksDB keeps its entries in the order of their keys, `for_each` calls its function on exactly
  -- those within the bounds, in their order, until the function says to stop or throws.
  pub for_each-in_range :
      (it : Iterator) (s : S)
      → IsRocksdb it
      → for_each f it lower upper s ≡ visit f (select (in_range lower upper) it.entries) s
  unfolding for_each
  for_each-in_range it s h =
      ap (λ q. for_each_from f upper q s) (h.seek-eq lower)
      ∙ from_bound-in_range it.entries s h.sorted

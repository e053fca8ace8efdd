-- ===== src/Rdb/SubkeysEnd.antt =====
-- `for_each_subkey` of src/state_history_rocksdb.hpp ends: each seek leaves fewer entries ahead.
use history_tools.Common.{
  ℕ, zero, suc, ◌<◌, ◌≤◌, ◌≡◌, refl, sym, ap, ◌∙◌, subst, Bool, true, false, ◌++◌, List, [], ◌∷◌,
  Bytes, Option, some, Result, ok, err, ltb, ◌==◌, length, take, drop, All, arith, Bool-cases, inl,
  inr,
}
use history_tools.Kv.Keys.{inc_key}
use history_tools.Kv.Order.{BytesLt}
use history_tools.Kv.Increment.{inc_key-value}
use history_tools.Kv.Successor.{IsGreatest, BytesLt-inc_key}
use history_tools.Rdb.Range.{Entry, Iterator, prefix_gt}
use history_tools.Rdb.InRange.{bytes_lt, bytes_lt_trans, from_bound, IsRocksdb}
use history_tools.Rdb.Subkeys.{
  SubkeyVisitor, at_place, at_entry, after_call, subkey_loop, for_each_subkey,
}

pub BytesLt→bytes_lt : (s t : Bytes) → BytesLt s t → bytes_lt s t ≡ true
unfolding bytes_lt
BytesLt→bytes_lt [] [] h = absurd h
BytesLt→bytes_lt [] (d ∷ t) h = refl
BytesLt→bytes_lt (c ∷ s) [] h = absurd h
BytesLt→bytes_lt (c ∷ s) (d ∷ t) (inl lt) = ground arith
BytesLt→bytes_lt (c ∷ s) (d ∷ t) (inr (same, h)) = ground (arith, BytesLt→bytes_lt s t h)

take-drop : (n : ℕ) (k : Bytes) → take n k ++ drop n k ≡ k
take-drop zero k = refl
take-drop (suc n) [] = refl
take-drop (suc n) (c ∷ k) = ap (λ q. c ∷ q) (take-drop n k)

take-bytes : (n : ℕ) (k : Bytes) → All (λ c. c < 256) k → All (λ c. c < 256) (take n k)
take-bytes zero k h = tt
take-bytes (suc n) [] h = tt
take-bytes (suc n) (c ∷ k) (hc, hs) = (hc, take-bytes n k hs)

length-take : (n : ℕ) (k : Bytes) → n ≤ length k → length (take n k) ≡ n
length-take zero k h = refl
length-take (suc n) [] h = absurd (omega arith)
length-take (suc n) (c ∷ k) h = ap suc (length-take n k (omega arith))

-- What is before a bound is before a key that is not.
before_bound :
    (s t lower : Bytes) → bytes_lt s lower ≡ true → bytes_lt t lower ≡ false → bytes_lt s t ≡ true
unfolding bytes_lt
before_bound s t [] h k = cc
before_bound s [] (l ∷ lower) h k = cc
before_bound [] (d ∷ t) (l ∷ lower) h k = refl
before_bound (c ∷ s) (d ∷ t) (l ∷ lower) h k = ground (arith, before_bound s t lower)

-- A prefix of the greatest number is not before the upper bound only if that is the greatest too.
upper_of_prefix :
    (k upper : Bytes)
    → All (λ c. c < 256) upper
    → prefix_gt k upper ≡ false
    → length upper ≤ length k
    → IsGreatest (take (length upper) k)
    → IsGreatest upper
unfolding prefix_gt
upper_of_prefix k [] h within size g = tt
upper_of_prefix [] (u ∷ upper) h within size g = absurd (omega arith)
upper_of_prefix (c ∷ k) (u ∷ upper) (hu, hs) within size (gc, gs) =
    let e : u ≡ 255 = ground arith in
    (e, upper_of_prefix k upper hs (ground arith) (omega arith) gs)

length-from_bound : (lower : Bytes) (es : List Entry) → length (from_bound lower es) ≤ length es
unfolding from_bound
length-from_bound lower [] = omega arith
length-from_bound lower (e ∷ es) = elim (Bool-cases (bytes_lt e.0 lower)) [
  | inl before ↦ rw before (omega (arith, length-from_bound lower es))
  | inr there ↦ rw there (omega arith)
]

from_bound-All :
    (P : Entry → Type 0) (lower : Bytes) (es : List Entry) → All P es → All P (from_bound lower es)
unfolding from_bound
from_bound-All P lower [] h = tt
from_bound-All P lower (e ∷ es) (he, hs) = elim (Bool-cases (bytes_lt e.0 lower)) [
  | inl before ↦ rw before (from_bound-All P lower es hs)
  | inr there ↦ rw there (he, hs)
]

found-not_before :
    (lower : Bytes) (es : List Entry) (e : Entry) (rest : List Entry)
    → from_bound lower es ≡ e ∷ rest
    → bytes_lt e.0 lower ≡ false
unfolding from_bound
found-not_before lower [] e rest found = cc
found-not_before lower (d ∷ es) e rest found = elim (Bool-cases (bytes_lt d.0 lower)) [
  | inl before ↦ found-not_before lower es e rest (rw before at found)
  | inr there ↦
      let same : d ∷ es ≡ e ∷ rest = rw there at found in
      let same_entry : d ≡ e = cc in ap (λ (q : Entry). bytes_lt q.0 lower) (sym same_entry) ∙ there
]

-- A bound behind the entry that was found leaves fewer.
from_bound-shorter :
    (lower lower' : Bytes) (es : List Entry) (e : Entry) (rest : List Entry)
    → from_bound lower es ≡ e ∷ rest
    → bytes_lt e.0 lower' ≡ true
    → length (from_bound lower' es) < length (from_bound lower es)
unfolding from_bound
from_bound-shorter lower lower' [] e rest found behind = cc
from_bound-shorter lower lower' (d ∷ es) e rest found behind =
    elim (Bool-cases (bytes_lt d.0 lower)) [
      | inl before ↦
          let found' = rw before at found in
          let d_e = before_bound d.0 e.0 lower before (found-not_before lower es e rest found') in
          let d_lower' = bytes_lt_trans d.0 e.0 lower' d_e behind in
          rw (before, d_lower') (from_bound-shorter lower lower' es e rest found' behind)
      | inr there ↦
          let same : d ∷ es ≡ e ∷ rest = rw there at found in
          let same_entry : d ≡ e = cc in
          let d_lower' : bytes_lt d.0 lower' ≡ true =
            ap (λ (q : Entry). bytes_lt q.0 lower') same_entry ∙ behind in
          rw (there, d_lower') (omega (arith, length-from_bound lower' es))
    ]

after_call-returns :
    {S : Type 0} (r : Result (Bool × S)) (loop : S → Option (Result S))
    → ((s : S) → (result : Result S) × (loop s ≡ some result))
    → (result : Result S) × (after_call r loop ≡ some result)
after_call-returns (err e) loop h = (err e, refl)
after_call-returns (ok (false, s)) loop h = (ok s, refl)
after_call-returns (ok (true, s)) loop h = h s

module _ {S : Type 0} (f : SubkeyVisitor S) (it : Iterator) (upper : Bytes) (rocks : IsRocksdb it)
    (keys : All (λ (e : Entry). All (λ c. c < 256) e.0) it.entries)
    (bytes : All (λ c. c < 256) upper) (not_greatest : ¬ IsGreatest upper) where
  at_entry-returns :
      (lower : Bytes) (e : Entry) (s : S) (loop : Bytes → S → Option (Result S))
      → length lower ≡ length upper
      → All (λ c. c < 256) e.0
      → ((lower' : Bytes) (s' : S)
          → length lower' ≡ length upper
          → bytes_lt e.0 lower' ≡ true
          → (result : Result S) × (loop lower' s' ≡ some result))
      → (result : Result S) × (at_entry f it upper lower e s loop ≡ some result)
  at_entry-returns lower e s loop size he next = elim (Bool-cases (prefix_gt e.0 upper)) [
    | inl behind ↦ (ok s, rw behind refl)
    | inr within ↦ elim (Bool-cases (ltb (length e.0) (length lower))) [
      | inl short ↦ (err "for_each_subkey: found key with size < prefix", rw (within, short) refl)
      | inr long ↦
          let prefix = take (length lower) e.0 in
          let size_e : length lower ≤ length e.0 = ground arith in
          let prefix_bytes = take-bytes (length lower) e.0 he in
          let (same_size, value) = inc_key-value prefix prefix_bytes in
          let not_last : ¬ IsGreatest prefix = λ g. not_greatest (
            upper_of_prefix e.0 upper bytes within (omega arith)
              (subst (λ k. IsGreatest (take k e.0)) size g)) in
          let behind : bytes_lt e.0 (inc_key prefix) ≡ true =
            BytesLt→bytes_lt e.0 (inc_key prefix) (
              subst (λ q. BytesLt q (inc_key prefix)) (take-drop (length lower) e.0)
                (BytesLt-inc_key prefix (drop (length lower) e.0) prefix_bytes not_last)) in
          let next_size : length (inc_key prefix) ≡ length upper =
            same_size ∙ length-take (length lower) e.0 size_e ∙ size in
          let (result, same) =
            after_call-returns (f prefix e.0 e.1 s) (loop (inc_key prefix))
              (λ s'. next (inc_key prefix) s' next_size behind) in
          (result, rw (within, long) same)
    ]
  ]

  at_place-returns :
      (lower : Bytes) (s : S) (loop : Bytes → S → Option (Result S)) (entries : List Entry)
      → length lower ≡ length upper
      → from_bound lower it.entries ≡ entries
      → ((lower' : Bytes) (s' : S)
          → length lower' ≡ length upper
          → length (from_bound lower' it.entries) < length (from_bound lower it.entries)
          → (result : Result S) × (loop lower' s' ≡ some result))
      → (result : Result S) × (at_place f it upper lower entries s loop ≡ some result)
  at_place-returns lower s loop [] size found next = (ok s, refl)
  at_place-returns lower s loop (e ∷ rest) size found next =
      let inside =
        subst (All (λ (q : Entry). All (λ c. c < 256) q.0)) found
          (from_bound-All (λ (q : Entry). All (λ c. c < 256) q.0) lower it.entries keys) in
      at_entry-returns lower e s loop size inside.0 (λ lower' s' size' behind.
        next lower' s' size' (from_bound-shorter lower lower' it.entries e rest found behind))

  subkey_loop-returns :
      (fuel : ℕ) (lower : Bytes) (s : S)
      → length lower ≡ length upper
      → length (from_bound lower it.entries) < fuel
      → (result : Result S) × (subkey_loop f it upper fuel lower s ≡ some result)
  unfolding subkey_loop
  subkey_loop-returns zero lower s size h = absurd (omega arith)
  subkey_loop-returns (suc fuel) lower s size h =
      let (result, same) =
        at_place-returns lower s (λ lower' s'. subkey_loop f it upper fuel lower' s')
          (from_bound lower it.entries) size refl
          (λ lower' s' size' shorter. subkey_loop-returns fuel lower' s' size' (omega arith)) in
      (result, rw (rocks.seek-eq lower) same)

  -- If RocksDB is in order, its keys and the upper bound are bytes, and the upper bound is not the
  -- greatest number of its size, `for_each_subkey` ends within one round more than the database has
  -- entries, whatever its function does and the lower bound is.
  pub for_each_subkey-returns :
      (fuel : ℕ) (lower : Bytes) (s : S)
      → length it.entries < fuel
      → (result : Result S) × (for_each_subkey f it upper fuel lower s ≡ some result)
  unfolding for_each_subkey
  for_each_subkey-returns fuel lower s h = elim (Bool-cases (length lower == length upper)) [
    | inl same ↦
        let (result, e) =
          subkey_loop-returns fuel lower s (ground arith)
            (let shorter = length-from_bound lower it.entries in omega arith) in
        (result, rw same e)
    | inr differ ↦ (err "for_each_subkey: key sizes don't match", rw differ refl)
  ]

-- ===== src/RocksQuery/Bounds.antt =====
-- A query of src/wasm_ql_rocksdb_plugin.cpp gives no more rows than it is asked for, but for one.
use history_tools.Common.{
  ℕ, zero, suc, ◌+◌, ◌≤◌, ◌<◌, ◌≡◌, refl, sym, ap, ◌∙◌, max, Bool, true, false, ◌++◌, List, [], ◌∷◌,
  Bytes, Option, none, some, Result, ok, err, >>=-eq-ok, ok-injective, ltb, ◌==◌, length, take,
  arith, Bool-cases, inl, inr, subst, length-append,
}
use history_tools.Kv.Keys.{inc_key}
use history_tools.Rdb.Range.{Entry, Iterator, prefix_gt, for_each, for_each_from}
use history_tools.Rdb.Subkeys.{SubkeyVisitor, at_place, after_call, subkey_loop, for_each_subkey}
use history_tools.FillRocks.State.{Serial}
use history_tools.FillRocks.Check.{fueled}
use history_tools.RocksQuery.Session.{
  Query, visit_entry, visit_key, limit_block, query_rows, row_of_entry, join_fields,
}

-- What holds at the start and while the loop goes on gives what holds at its end.
module _ {S : Type 0} (P Q : S → Type 0) (ends : (s : S) → P s → Q s) (f : SubkeyVisitor S)
    (call : (prefix k v : Bytes) (s : S) (more : Bool) (s' : S)
      → P s
      → f prefix k v s ≡ ok (more, s')
      → (more ≡ true → P s') × Q s')
    (it : Iterator) (upper : Bytes) where
  after_call-Ends :
      (r : Result (Bool × S)) (loop : S → Option (Result S)) (s' : S)
      → ((more : Bool) (t : S) → r ≡ ok (more, t) → (more ≡ true → P t) × Q t)
      → ((t : S) → P t → loop t ≡ some (ok s') → Q s')
      → after_call r loop ≡ some (ok s')
      → Q s'
  after_call-Ends (err e) loop s' h next e' = absurd (cc)
  after_call-Ends (ok (false, t)) loop s' h next e' =
      let same : t ≡ s' = cc in subst Q same (h false t refl).1
  after_call-Ends (ok (true, t)) loop s' h next e' = next t ((h true t refl).0 refl) e'

  subkey_loop-Ends :
      (fuel : ℕ) (lower : Bytes) (s s' : S)
      → P s
      → subkey_loop f it upper fuel lower s ≡ some (ok s')
      → Q s'
  unfolding subkey_loop
  subkey_loop-Ends zero lower s s' p e = absurd (cc)
  subkey_loop-Ends (suc fuel) lower s s' p e =
      place (it.seek lower) e (λ l t pt et. subkey_loop-Ends fuel l t s' pt et)
    where
      place :
          (es : List Entry)
          → at_place f it upper lower es s (λ l t. subkey_loop f it upper fuel l t) ≡ some (ok s')
          → ((l : Bytes) (t : S) → P t → subkey_loop f it upper fuel l t ≡ some (ok s') → Q s')
          → Q s'
      place [] e next = let same : s ≡ s' = cc in subst Q same (ends s p)
      place (d ∷ es) e next = elim (Bool-cases (prefix_gt d.0 upper)) [
        | inl behind ↦ let e' = rw behind at e in let same : s ≡ s' = cc in subst Q same (ends s p)
        | inr within ↦ elim (Bool-cases (ltb (length d.0) (length lower))) [
          | inl short ↦ let e' = rw (within, short) at e in absurd (cc)
          | inr long ↦
              let prefix = take (length lower) d.0 in
              after_call-Ends (f prefix d.0 d.1 s)
                (λ t. subkey_loop f it upper fuel (inc_key prefix) t) s'
                (λ more t r. call prefix d.0 d.1 s more t p r)
                (λ t pt et. next (inc_key prefix) t pt et) (rw (within, long) at e)
        ]
      ]

module _ (n : Serial) (it : Iterator) (q : Query) (block : ℕ) where
  pub visit_entry-length :
      (k v : Bytes) (rows : List Bytes) (more : Bool) (rows' : List Bytes)
      → visit_entry n it q block k v rows ≡ ok (more, rows')
      → (more ≡ false) × (length rows' ≡ suc (length rows))
  unfolding visit_entry
  visit_entry-length k v rows more rows' h =
      let (value, e1, h1) = >>=-eq-ok (row_of_entry n it q.table_obj q.index_obj k) _ h in
      let (fields, e2, h2) = >>=-eq-ok (join_fields n it q block value) _ h1 in
      let same : (false, rows ++ (value ++ fields) ∷ []) ≡ (more, rows') = ok-injective h2 in
      (
        sym (ap (λ (o : Bool × List Bytes). o.0) same),
        subst (λ (l : List Bytes). length l ≡ suc (length rows))
            (ap (λ (o : Bool × List Bytes). o.1) same)
            (omega (arith, length-append rows ((value ++ fields) ∷ []))),
      )

  -- One key gives one row at most.
  for_each-length :
      (lower upper : Bytes) (rows rows' : List Bytes)
      → for_each (visit_entry n it q block) it lower upper rows ≡ ok rows'
      → length rows' ≤ suc (length rows)
  unfolding for_each for_each_from
  for_each-length lower upper rows rows' h = from (it.seek lower) h
    where
      from :
          (es : List Entry)
          → for_each_from (visit_entry n it q block) upper es rows ≡ ok rows'
          → length rows' ≤ suc (length rows)
      from [] e = subst (λ l. length l ≤ suc (length rows)) (ok-injective e) (omega arith)
      from (d ∷ es) e = elim (Bool-cases (prefix_gt d.0 upper)) [
        | inl behind ↦
            subst (λ l. length l ≤ suc (length rows)) (ok-injective (rw behind at e)) (omega arith)
        | inr within ↦
            let (r, e1, h1) =
              >>=-eq-ok (visit_entry n it q block d.0 d.1 rows) _ (rw within at e) in
            let (stops, len) = visit_entry-length d.0 d.1 rows r.0 r.1 e1 in
            subst (λ l. length l ≤ suc (length rows)) (ok-injective (rw stops at h1)) (omega arith)
      ]

  visit_key-length :
      (max_results : ℕ) (prefix k v : Bytes) (s : List Bytes × ℕ) (more : Bool)
      (s' : List Bytes × ℕ)
      → (length s.0 ≤ s.1) × (s.1 < max 1 max_results)
      → visit_key n it q block max_results prefix k v s ≡ ok (more, s')
      → (more ≡ true → (length s'.0 ≤ s'.1) × (s'.1 < max 1 max_results))
        × (length s'.0 ≤ max 1 max_results)
  unfolding visit_key
  visit_key-length max_results prefix k v (rows, num) more (rows', num') (few, below) h =
      let (found, e1, h1) =
        >>=-eq-ok
          (for_each (visit_entry n it q block) it (limit_block n it q.table_obj block prefix) prefix
            rows)
          _ h in
      let bound =
        for_each-length (limit_block n it q.table_obj block prefix) prefix rows found e1 in
      let same = ok-injective h1 in
      let same_more : ltb (num + 1) max_results ≡ more =
        ap (λ (o : Bool × (List Bytes × ℕ)). o.0) same in
      let same_rows : found ≡ rows' = ap (λ (o : Bool × (List Bytes × ℕ)). o.1.0) same in
      let same_num : num + 1 ≡ num' = ap (λ (o : Bool × (List Bytes × ℕ)). o.1.1) same in
      let same_length = ap (λ (l : List Bytes). length l) same_rows in
      (
        (λ go.
            let test = same_more ∙ go in
            (omega (arith, same_length, bound), ground (arith, same_num, test))),
        omega (arith, same_length, bound),
      )

  fueled-ok : {S : Type 0} (o : Option (Result S)) {s : S} → fueled o ≡ ok s → o ≡ some (ok s)
  unfolding fueled
  fueled-ok none h = cc
  fueled-ok (some r) h = cc

  found-length :
      (fuel max_results : ℕ) (lower upper : Bytes) (found : List Bytes × ℕ)
      → for_each_subkey (visit_key n it q block max_results) it upper fuel lower ([], 0)
        ≡ some (ok found)
      → length found.0 ≤ max 1 max_results
  unfolding for_each_subkey
  found-length fuel max_results lower upper found e =
      elim (Bool-cases (length lower == length upper)) [
        | inl same ↦
            subkey_loop-Ends
              (λ (s : List Bytes × ℕ). (length s.0 ≤ s.1) × (s.1 < max 1 max_results))
              (λ (s : List Bytes × ℕ). length s.0 ≤ max 1 max_results) (λ s p. omega arith)
              (visit_key n it q block max_results) (visit_key-length max_results) it upper fuel
              lower ([], 0) found (omega arith, omega arith) (rw same at e)
        | inr differ ↦ let e' = rw differ at e in absurd (cc)
      ]

  -- A query that returns gives at most `max_results` rows, but where that is 0 it may give one.
  pub length-query_rows :
      (fuel max_results : ℕ) (lower upper : Bytes) (rows : List Bytes)
      → query_rows n it fuel q block max_results lower upper ≡ ok rows
      → length rows ≤ max 1 max_results
  unfolding query_rows
  length-query_rows fuel max_results lower upper rows h =
      let loop = for_each_subkey (visit_key n it q block max_results) it upper fuel lower ([], 0) in
      let (found, e, h1) = >>=-eq-ok (fueled loop) _ h in
      subst (λ (l : List Bytes). length l ≤ max 1 max_results) (ok-injective h1)
        (found-length fuel max_results lower upper found (fueled-ok loop e))

-- ===== src/RocksQuery/Snapshot.antt =====
-- The version of a row that a query of src/wasm_ql_rocksdb_plugin.cpp reads at a block.
use native.Mathlib.Decide.{dec_lt}
use history_tools.Common.{
  ℕ, ◌^◌, ◌<◌, ◌≡◌, refl, sym, ap, ◌∙◌, Bool, true, false, not, ◌++◌, List, [], ◌∷◌, map,
  if◌then◌else◌, Bytes, Option, none, some, Result, ok, err, ◌>>=◌, ltb, leb, arith, Bool-cases,
  inl, inr, subst, append-nil, All,
}
use history_tools.Kv.Laws.{IsAbieos, be_bytes, length-be_bytes}
use history_tools.Kv.RoundTrip.{native_to_key-eq}
use history_tools.Kv.Order.{BytesLt-append, be_bytes-BytesLt}
use history_tools.Kv.Types.{Abieos}
use history_tools.Kv.Keys.{
  append_index_suffix, append_index_suffix_block, complement, native_to_key, from_bool,
}
use history_tools.Rdb.Range.{Entry, Iterator, prefix_gt, for_each}
use history_tools.Rdb.InRange.{IsRocksdb, bytes_lt, in_range, select, visit, for_each-in_range}
use history_tools.Rdb.SubkeysEnd.{BytesLt→bytes_lt}
use history_tools.FillRocks.State.{Serial}
use history_tools.RocksQuery.Bounds.{visit_entry-length}
use history_tools.RocksQuery.Session.{Query, visit_entry, limit_block}

bytes_lt_asym : (s t : Bytes) → bytes_lt s t ≡ true → bytes_lt t s ≡ false
unfolding bytes_lt
bytes_lt_asym s [] h = cc
bytes_lt_asym [] (d ∷ t) h = refl
bytes_lt_asym (c ∷ s) (d ∷ t) h = ground (arith, bytes_lt_asym s t)

bytes_lt-longer : (x k : Bytes) → bytes_lt (x ++ k) x ≡ false
unfolding bytes_lt
bytes_lt-longer [] k = refl
bytes_lt-longer (c ∷ x) k = ground (arith, bytes_lt-longer x k)

bytes_lt-behind : (e p x : Bytes) → bytes_lt e p ≡ true → bytes_lt e (p ++ x) ≡ true
unfolding bytes_lt
bytes_lt-behind e [] x h = cc
bytes_lt-behind [] (d ∷ p) x h = refl
bytes_lt-behind (c ∷ e) (d ∷ p) x h = ground (arith, bytes_lt-behind e p x)

bytes_lt-prefix : (p a b : Bytes) → bytes_lt (p ++ a) (p ++ b) ≡ bytes_lt a b
unfolding bytes_lt
bytes_lt-prefix [] a b = refl
bytes_lt-prefix (c ∷ p) a b = ground (arith, bytes_lt-prefix p a b)

-- The entries from a longer bound on are among those of its prefix.
select-from :
    (p x : Bytes) (es : List Entry)
    → select (in_range (p ++ x) p) es
      ≡ select (λ e. not (bytes_lt e.0 (p ++ x))) (select (in_range p p) es)
unfolding select
select-from p x [] = refl
select-from p x (e ∷ es) = elim (Bool-cases (bytes_lt e.0 p)) [
  | inl before ↦ rw (before, bytes_lt-behind e.0 p x before) (select-from p x es)
  | inr there ↦ elim (Bool-cases (prefix_gt e.0 p)) [
    | inl behind ↦ ground (arith, there, behind, select-from p x es)
    | inr within ↦ rw (there, within) (ground (arith, select-from p x es))
  ]
]

module _ (a : Abieos) (h : IsAbieos a) where
  -- In the suffix of an index key the later block comes first.
  bytes_lt-index_suffix :
      (block snapshot : ℕ) (present_k : Bool)
      → block < 2 ^ 32
      → snapshot < 2 ^ 32
      → bytes_lt (append_index_suffix a block present_k) (append_index_suffix_block a snapshot)
        ≡ ltb snapshot block
  unfolding append_index_suffix append_index_suffix_block
  bytes_lt-index_suffix block snapshot present_k hb hs =
      let k = native_to_key a 1 (from_bool (not present_k)) in
      let b = be_bytes 4 (complement block) in
      let s = be_bytes 4 (complement snapshot) in
      let size_b = length-be_bytes 4 (complement block) in
      let size_s = length-be_bytes 4 (complement snapshot) in
      rw (native_to_key-eq a h 4 (complement block), native_to_key-eq a h 4 (complement snapshot))
        (elim (dec_lt snapshot block) [
          | yes later ↦
              let lt =
                be_bytes-BytesLt 4 (complement block) (complement snapshot) (omega arith)
                  (omega arith) in
              let lt' : bytes_lt (b ++ k) s ≡ true =
                subst (λ q. bytes_lt (b ++ k) q ≡ true) (append-nil s)
                  (BytesLt→bytes_lt (b ++ k) (s ++ [])
                    (BytesLt-append b s k [] (size_b ∙ sym size_s) lt)) in
              let test : ltb snapshot block ≡ true = ground arith in lt' ∙ sym test
          | no not_later ↦
              let test : ltb snapshot block ≡ false = ground arith in
              let not_before : bytes_lt (b ++ k) s ≡ false = elim (dec_lt block snapshot) [
                | yes earlier ↦
                    let lt =
                      be_bytes-BytesLt 4 (complement snapshot) (complement block) (omega arith)
                        (omega arith) in
                    bytes_lt_asym s (b ++ k) (
                      subst (λ q. bytes_lt q (b ++ k) ≡ true) (append-nil s)
                        (BytesLt→bytes_lt (s ++ []) (b ++ k)
                          (BytesLt-append s b [] k (size_s ∙ sym size_b) lt)))
                | no not_earlier ↦
                    let same : block ≡ snapshot = omega arith in
                    subst
                      (λ m.
                        bytes_lt (be_bytes 4 (complement block) ++ k) (be_bytes 4 (complement m))
                        ≡ false)
                      same (bytes_lt-longer b k)
              ] in
              not_before ∙ sym test
        ])

-- A call that never asks to go on.
ends_there :
    {S : Type 0} (call : Result (Bool × S)) (rest : S → Result S)
    → ((r : Bool × S) → call ≡ ok r → r.0 ≡ false)
    → (call >>= λ r. (if r.0 then rest r.1 else ok r.1)) ≡ (call >>= λ r. ok r.1)
ends_there (err e) rest h = refl
ends_there (ok r) rest h = rw (h r refl) refl

-- An index entry of a key: the block and the flag of its suffix, and its value.
pub record Version : Type 0 where
  pub block : ℕ
  pub present_k : Bool
  pub value : Bytes

-- The first version that is not newer than a block.
abbrev pub newest : ℕ → List Version → Option Version
newest snapshot [] = none
newest snapshot (v ∷ vs) = if leb v.block snapshot then some v else newest snapshot vs

module _ (n : Serial) (h : IsAbieos n.abieos) (it : Iterator) (q : Query) (key : Bytes) where
  abbrev pub entry_of : Version → Entry
  entry_of v = (key ++ append_index_suffix n.abieos v.block v.present_k, v.value)

  -- What the loop makes of the rows, by the entry that it finds.
  abbrev pub read_version : ℕ → Option Version → List Bytes → Result (List Bytes)
  read_version snapshot none rows = ok rows
  read_version snapshot (some v) rows =
      visit_entry n it q snapshot (entry_of v).0 v.value rows >>= λ r. ok r.1

  visit-newest :
      (snapshot : ℕ) (vs : List Version) (rows : List Bytes)
      → snapshot < 2 ^ 32
      → All (λ (v : Version). v.block < 2 ^ 32) vs
      → visit
          (visit_entry n it q snapshot)
          (select
            (λ e. not (bytes_lt e.0 (key ++ append_index_suffix_block n.abieos snapshot)))
            (map entry_of vs))
          rows
        ≡ read_version snapshot (newest snapshot vs) rows
  unfolding visit select
  visit-newest snapshot [] rows hs hv = refl
  visit-newest snapshot (v ∷ vs) rows hs (hb, hv) =
      let lim = key ++ append_index_suffix_block n.abieos snapshot in
      let test : bytes_lt (entry_of v).0 lim ≡ ltb snapshot v.block =
        bytes_lt-prefix key _ _
        ∙ bytes_lt-index_suffix n.abieos h v.block snapshot v.present_k hb hs in
      elim (dec_lt snapshot v.block) [
        | yes newer ↦
            let t : ltb snapshot v.block ≡ true = ground arith in
            let t' : leb v.block snapshot ≡ false = ground arith in
            rw (test, t, t') (visit-newest snapshot vs rows hs hv)
        | no found ↦
            let t : ltb snapshot v.block ≡ false = ground arith in
            let t' : leb v.block snapshot ≡ true = ground arith in
            rw (test, t, t')
              (ends_there (visit_entry n it q snapshot (entry_of v).0 v.value rows) _ (λ r e.
                (visit_entry-length n it q snapshot (entry_of v).0 v.value rows r.0 r.1 e).0))
      ]

  -- If RocksDB is in order, abieos writes numbers with the lowest byte first, the query's table is a
  -- delta, and the index entries that begin with a key are those of some versions, all blocks having
  -- 32 bits, then the loop over the key's entries adds the row of the first version that is not newer
  -- than the snapshot, with its join, and nothing where there is none.
  pub for_each-newest :
      (snapshot : ℕ) (vs : List Version) (rows : List Bytes)
      → IsRocksdb it
      → q.table_obj.is_delta ≡ true
      → snapshot < 2 ^ 32
      → All (λ (v : Version). v.block < 2 ^ 32) vs
      → select (in_range key key) it.entries ≡ map entry_of vs
      → for_each
          (visit_entry n it q snapshot)
          it
          (limit_block n it q.table_obj snapshot key)
          key
          rows
        ≡ read_version snapshot (newest snapshot vs) rows
  unfolding limit_block
  for_each-newest snapshot vs rows rocks delta hs hv entries =
      let lim = key ++ append_index_suffix_block n.abieos snapshot in
      let f = visit_entry n it q snapshot in
      let limit : limit_block n it q.table_obj snapshot key ≡ lim =
        ap (λ d. if d then lim else key) delta in
      ap (λ l. for_each f it l key rows) limit
      ∙ for_each-in_range f lim key it rows rocks
      ∙ ap (λ es. visit f es rows)
          (select-from key (append_index_suffix_block n.abieos snapshot) it.entries
            ∙ ap (select (λ e. not (bytes_lt e.0 lim))) entries)
      ∙ visit-newest snapshot vs rows hs hv

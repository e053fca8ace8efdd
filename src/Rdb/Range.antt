-- ===== src/Rdb/Range.antt =====
-- `for_each` of src/state_history_rocksdb.hpp. RocksDB is a parameter: what an iterator gives from the
-- place of a `Seek` on. Its own failures are left out.
use history_tools.Common.{
  Bool, true, false, List, [], ◌∷◌, if◌then◌else◌, Bytes, Result, ok, ◌>>=◌, ltb, ◌==◌,
}

-- A key and its value.
abbrev pub Entry : Type 0
Entry = Bytes × Bytes

-- An iterator of a database: the entries that `Seek(key)` and then `Next` arrive at in turn.
pub record Iterator : Type 0 where
  pub entries : List Entry
  pub seek : Bytes → List Entry

-- `memcmp(…) > 0` over the size of the shorter.
unfoldable pub prefix_gt : Bytes → Bytes → Bool
prefix_gt [] t = false
prefix_gt (c ∷ s) [] = false
prefix_gt (c ∷ s) (d ∷ t) = if ltb d c then true else (if c == d then prefix_gt s t else false)

-- A function on the entries, with a state: whether to continue.
abbrev pub Visitor : Type 0 → Type 0
Visitor S = Bytes → Bytes → S → Result (Bool × S)

module _ {S : Type 0} (f : Visitor S) where
  -- The loop, from the iterator's place on.
  unfoldable pub for_each_from : Bytes → List Entry → S → Result S
  unfolding prefix_gt
  for_each_from upper_bound [] s = ok s
  for_each_from upper_bound (e ∷ entries) s =
      if prefix_gt e.0 upper_bound
      then ok s
      else f e.0 e.1 s >>= λ r. (if r.0 then for_each_from upper_bound entries r.1 else ok r.1)

  unfoldable pub for_each : Iterator → Bytes → Bytes → S → Result S
  unfolding for_each_from
  for_each it lower_bound upper_bound s = for_each_from upper_bound (it.seek lower_bound) s

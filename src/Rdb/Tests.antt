-- ===== src/Rdb/Tests.antt =====
-- A small database, and the witness for the range of `for_each`.
use history_tools.Common.{◌≡◌, refl, true, List, [], ◌∷◌, ◌++◌, Bytes, Result, ok, some, arith}
use history_tools.Kv.Keys.{inc_key, inc_reversed}
use history_tools.Rdb.Subkeys.{SubkeyVisitor, for_each_subkey, subkey_loop}
use history_tools.Rdb.SubkeysEnd.{for_each_subkey-returns}
use history_tools.Rdb.Range.{Entry, Iterator, prefix_gt, Visitor, for_each_from, for_each}
use history_tools.Rdb.InRange.{
  Sorted, IsRocksdb, bytes_lt, from_bound, in_range, select, visit, for_each-in_range,
}

abbrev entries : List Entry
entries = (1 ∷ [], 10 ∷ []) ∷ (1 ∷ 5 ∷ [], 11 ∷ []) ∷ (2 ∷ 9 ∷ [], 12 ∷ []) ∷ (3 ∷ [], 13 ∷ []) ∷ []

entries-Sorted : Sorted entries
unfolding bytes_lt
entries-Sorted = ((refl, (refl, (refl, tt))), ((refl, (refl, tt)), ((refl, tt), (tt, tt))))

abbrev iterator : Iterator
iterator = record { entries = entries; seek = λ lower. from_bound lower entries }

iterator-IsRocksdb : IsRocksdb iterator
iterator-IsRocksdb = record { sorted = entries-Sorted; seek-eq = λ lower. refl }

-- The values, in their order.
abbrev values : Visitor Bytes
values = λ key value s. ok (true, s ++ value)

from_one_five : for_each values iterator (1 ∷ 5 ∷ []) (2 ∷ []) [] ≡ ok (11 ∷ 12 ∷ [])
unfolding for_each for_each_from from_bound bytes_lt prefix_gt
from_one_five = refl

for_each-in_range_example :
    for_each values iterator (1 ∷ 5 ∷ []) (2 ∷ []) []
    ≡ visit values (select (in_range (1 ∷ 5 ∷ []) (2 ∷ [])) entries) []
for_each-in_range_example =
    for_each-in_range values (1 ∷ 5 ∷ []) (2 ∷ []) iterator [] iterator-IsRocksdb

-- The first values of the prefixes of one byte.
abbrev first_values : SubkeyVisitor Bytes
first_values = λ prefix key value s. ok (true, s ++ value)

first_two : for_each_subkey first_values iterator (2 ∷ []) 5 (1 ∷ []) [] ≡ some (ok (10 ∷ 12 ∷ []))
unfolding for_each_subkey subkey_loop from_bound bytes_lt prefix_gt inc_key inc_reversed
first_two = refl

for_each_subkey-returns_example :
    (result : Result Bytes) × (for_each_subkey first_values iterator (2 ∷ []) 5 (1 ∷ []) []
      ≡ some result)
for_each_subkey-returns_example =
    for_each_subkey-returns first_values iterator (2 ∷ []) iterator-IsRocksdb (omega arith)
      (omega arith) (λ g. omega (arith, g.0)) 5 (1 ∷ []) [] (omega arith)

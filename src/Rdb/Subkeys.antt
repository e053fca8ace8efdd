-- ===== src/Rdb/Subkeys.antt =====
-- `for_each_subkey` of src/state_history_rocksdb.hpp. The loop seeks once for each prefix, and takes
-- fuel: a prefix that is the greatest number of its size wraps to zero.
use history_tools.Common.{
  ℕ, zero, suc, Bool, true, false, List, [], ◌∷◌, if◌then◌else◌, Bytes, Option, none, some, Result,
  ok, err, ltb, ◌==◌, length, take, not,
}
use history_tools.Kv.Keys.{inc_key}
use history_tools.Rdb.Range.{Entry, Iterator, prefix_gt}

-- A function on the prefix, the key and the value: whether to continue.
abbrev pub SubkeyVisitor : Type 0 → Type 0
SubkeyVisitor S = Bytes → Bytes → Bytes → S → Result (Bool × S)

-- What the loop does behind a call.
abbrev pub after_call :
    {S : Type 0} → Result (Bool × S) → (S → Option (Result S)) → Option (Result S)
after_call (err e) loop = some (err e)
after_call (ok (false, s)) loop = some (ok s)
after_call (ok (true, s)) loop = loop s

module _ {S : Type 0} (f : SubkeyVisitor S) (it : Iterator) (upper_bound : Bytes) where
  -- At a valid place of the iterator.
  abbrev pub at_entry : Bytes → Entry → S → (Bytes → S → Option (Result S)) → Option (Result S)
  at_entry lower_bound e s loop =
      let prefix = take (length lower_bound) e.0 in
      if prefix_gt e.0 upper_bound
      then some (ok s)
      else (if ltb (length e.0) (length lower_bound)
          then some (err "for_each_subkey: found key with size < prefix")
          else after_call (f prefix e.0 e.1 s) (loop (inc_key prefix)))

  abbrev pub at_place : Bytes → List Entry → S → (Bytes → S → Option (Result S)) → Option (Result S)
  at_place lower_bound [] s loop = some (ok s)
  at_place lower_bound (e ∷ entries) s loop = at_entry lower_bound e s loop

  unfoldable pub subkey_loop : ℕ → Bytes → S → Option (Result S)
  subkey_loop zero lower_bound s = none
  subkey_loop (suc fuel) lower_bound s =
      at_place lower_bound (it.seek lower_bound) s (λ lower s'. subkey_loop fuel lower s')

  unfoldable pub for_each_subkey : ℕ → Bytes → S → Option (Result S)
  unfolding subkey_loop
  for_each_subkey fuel lower_bound s =
      if not (length lower_bound == length upper_bound)
      then some (err "for_each_subkey: key sizes don't match")
      else subkey_loop fuel lower_bound s

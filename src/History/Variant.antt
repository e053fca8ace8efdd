-- ===== src/History/Variant.antt =====
-- The two `check_variant` functions of src/state_history.hpp. The type's `as_variant` is the list
-- of the alternatives' names, if the type is a variant; `varuint32_from_bin` is abieos's.
use history_tools.Common.{
  ℕ, List, Option, ◌==◌, leb, not, Bytes, Result, ok, ◌>>=◌, ◌>>◌, get_elem?, length, throw_if,
  or_throw,
}
use history_tools.SqlConverter.Types.{bytes_eq}

module _ (varuint32_from_bin : Bytes → Result (ℕ × Bytes)) where
  -- `check_variant(bin, type, uint32_t expected)` returns the rest of `bin`. The message of the
  -- last two throws names `at(expected)`, which throws first if `expected` is out of range.
  unfoldable pub check_variant : Bytes → Option (List Bytes) → ℕ → Result Bytes
  check_variant bin as_variant expected = do
    (index, rest) ← varuint32_from_bin bin
    alternatives ← or_throw as_variant "is not a variant"
    throw_if (leb (length alternatives) index) "expected"
    throw_if (not (index == expected)) "expected"
    ok rest

  -- `check_variant(bin, type, const char* expected)` compares the alternative's name.
  unfoldable pub check_variant_name : Bytes → Option (List Bytes) → Bytes → Result Bytes
  check_variant_name bin as_variant expected = do
    (index, rest) ← varuint32_from_bin bin
    alternatives ← or_throw as_variant "is not a variant"
    throw_if (leb (length alternatives) index) "expected"
    name ← or_throw (get_elem? alternatives index) "expected"
    throw_if (not (bytes_eq name expected)) "expected"
    ok rest

-- ===== src/Kv/Keys.antt =====
-- Keys of src/state_history_kv.hpp: numbers with the first byte highest, and the parts of the keys
-- of tables and indexes. `append_…` gives what the function appends to `dest`.
use history_tools.Common.{
  ℕ, ◌+◌, ◌-◌, ◌%◌, ◌^◌, Bool, true, false, not, ◌++◌, [], ◌∷◌, reverse, if◌then◌else◌, Bytes,
  codes, Result, ok, err, ◌>>=◌, ltb, ◌==◌, length, take, drop,
}
use history_tools.Kv.Types.{Abieos}

-- `inc_key` from the last byte on.
unfoldable pub inc_reversed : Bytes → Bytes
inc_reversed [] = []
inc_reversed (c ∷ s) = let d = (c + 1) % 256 in if d == 0 then d ∷ inc_reversed s else d ∷ s

unfoldable pub inc_key : Bytes → Bytes
unfolding inc_reversed
inc_key key = reverse (inc_reversed (reverse key))

-- `enum class key_tag`
abbrev pub tag_table : ℕ
tag_table = 0x50

abbrev pub tag_index : ℕ
tag_index = 0x60

-- `~block` of a `uint32_t`.
abbrev pub complement : ℕ → ℕ
complement block = 2 ^ 32 - 1 - block

abbrev pub from_bool : Bool → ℕ
from_bool true = 1
from_bool false = 0

module _ (a : Abieos) where
  -- `native_to_key` of an unsigned number of `size` bytes.
  unfoldable pub native_to_key : ℕ → ℕ → Bytes
  native_to_key size n = reverse (a.uint_to_bin size n)

  unfoldable pub key_to_native : ℕ → Bytes → Result (ℕ × Bytes)
  key_to_native size b =
      if ltb (length b) size
      then err "key deserialization error"
      else a.bin_to_uint size (reverse (take size b)) >>= λ (n, _). ok (n, drop size b)

  unfoldable pub append_table_key_all : Bytes
  append_table_key_all = native_to_key 1 tag_table

  unfoldable pub append_table_key_block : ℕ → Bytes
  append_table_key_block block = native_to_key 1 tag_table ++ native_to_key 4 block

  unfoldable pub append_table_key : ℕ → Bool → ℕ → Bytes
  append_table_key block present_k table_name =
      native_to_key 1 tag_table
      ++ (native_to_key 4 block
          ++ (native_to_key 8 table_name ++ native_to_key 1 (from_bool present_k)))

  unfoldable pub append_index_key_all : Bytes
  append_index_key_all = native_to_key 1 tag_index

  unfoldable pub append_index_key : ℕ → ℕ → Bytes
  append_index_key table_name index_name =
      native_to_key 1 tag_index ++ (native_to_key 8 table_name ++ native_to_key 8 index_name)

  unfoldable pub read_table_prefix : Bytes → Result (ℕ × ℕ × Bool × Bytes)
  read_table_prefix bin = do
    (block_num, bin1) ← key_to_native 4 bin
    (table_name, bin2) ← key_to_native 8 bin1
    (present_k, rest) ← key_to_native 1 bin2
    ok (block_num, table_name, not (present_k == 0), rest)

  unfoldable pub append_index_suffix_block : ℕ → Bytes
  append_index_suffix_block block = native_to_key 4 (complement block)

  unfoldable pub append_index_suffix : ℕ → Bool → Bytes
  append_index_suffix block present_k =
      native_to_key 4 (complement block) ++ native_to_key 1 (from_bool (not present_k))

  unfoldable pub read_index_prefix : Bytes → Result (ℕ × ℕ × Bytes)
  read_index_prefix bin = do
    (table, bin1) ← key_to_native 8 bin
    (index, rest) ← key_to_native 8 bin1
    ok (table, index, rest)

  unfoldable pub read_index_suffix : Bytes → Result (ℕ × Bool × Bytes)
  read_index_suffix bin = do
    (block, bin1) ← key_to_native 4 bin
    (absent, rest) ← key_to_native 1 bin1
    ok (complement block, absent == 0, rest)

  unfoldable pub make_fill_status_key : Bytes
  make_fill_status_key = append_table_key 0 true (a.name_value (codes "fill.status"))

  unfoldable pub make_received_block_key : ℕ → Bytes
  make_received_block_key block = append_table_key block true (a.name_value (codes "recvd.block"))

  unfoldable pub make_block_info_key : ℕ → Bytes
  make_block_info_key block = append_table_key block true (a.name_value (codes "block.info"))

  unfoldable pub append_transaction_trace_key : ℕ → ℕ → Bytes
  append_transaction_trace_key block transaction_id =
      append_table_key block true (a.name_value (codes "ttrace")) ++ native_to_key 32 transaction_id

  unfoldable pub append_action_trace_key : ℕ → ℕ → ℕ → Bytes
  append_action_trace_key block transaction_id action_index =
      append_table_key block true (a.name_value (codes "atrace"))
      ++ (native_to_key 32 transaction_id ++ native_to_key 4 action_index)

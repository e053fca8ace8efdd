-- ===== src/Kv/Tests.antt =====
-- A serialization that meets `IsAbieos`, and the witnesses for the keys.
use history_tools.Common.{
  ℕ, ◌^◌, ◌-◌, ◌≡◌, refl, true, false, ◌++◌, [], ◌∷◌, Bytes, Result, ok, err, arith, ltb, ◌==◌,
  length, take, drop, if◌then◌else◌, take_all_append, drop_all_append, length-append,
}
use history_tools.Kv.Types.{Abieos, size_of}
use history_tools.Kv.Keys.{
  native_to_key, append_table_key, append_table_key_block, read_table_prefix, append_index_suffix,
  read_index_suffix, inc_key,
}
use history_tools.Kv.Laws.{IsAbieos, le_bytes, be_bytes, value_le}
use history_tools.Kv.RoundTrip.{
  native_to_key-eq, read_table_prefix-append_table_key, read_index_suffix-append_index_suffix,
}
use history_tools.Kv.Order.{BytesLt, table_key-BytesLt, table_key_block-BytesLt}
use history_tools.Kv.Increment.{value_be, inc_key-value}

abbrev pub read_uint : ℕ → Bytes → Result (ℕ × Bytes)
read_uint size bin =
    if ltb (length bin) size
    then err "read past end"
    else ok (value_le (take size bin), drop size bin)

abbrev pub abieos : Abieos
abieos = record {
  transcode = λ t bin.
      if ltb (length bin) (size_of t)
      then err "read past end"
      else ok (take (size_of t) bin, drop (size_of t) bin);
  uint_to_bin = le_bytes;
  bin_to_uint = read_uint;
  bin_to_varuint32 = read_uint 1;
  bin_to_bool = λ bin. elim (read_uint 1 bin) [ ok (n, rest) ↦ ok (n == 1, rest) | err e ↦ err e ];
  name_value = value_le;
}

read_uint-eq :
    (size : ℕ) (bin rest : Bytes)
    → length bin ≡ size
    → read_uint size (bin ++ rest) ≡ ok (value_le bin, rest)
read_uint-eq size bin rest h =
    let long : ltb (length (bin ++ rest)) size ≡ false =
      ground (arith, length-append bin rest, h) in
    rw (long, take_all_append bin rest size h, drop_all_append bin rest size h)

pub abieos-IsAbieos : IsAbieos abieos
abieos-IsAbieos = record { uint_to_bin-eq = λ size n. refl; bin_to_uint-eq = read_uint-eq }

native_to_key-eq_example : native_to_key abieos 4 258 ≡ 0 ∷ 0 ∷ 1 ∷ 2 ∷ []
native_to_key-eq_example = native_to_key-eq abieos abieos-IsAbieos 4 258

read_table_prefix-append_table_key_example :
    read_table_prefix abieos (drop 1 (append_table_key abieos 77 true 5 ++ (9 ∷ [])))
    ≡ ok (77, 5, true, 9 ∷ [])
read_table_prefix-append_table_key_example =
    read_table_prefix-append_table_key abieos abieos-IsAbieos 77 5 true (9 ∷ []) (omega arith)
      (omega arith)

read_index_suffix-append_index_suffix_example :
    (append_index_suffix abieos 77 false ≡ be_bytes 4 (2 ^ 32 - 1 - 77) ++ 1 ∷ [])
    × (read_index_suffix abieos (append_index_suffix abieos 77 false ++ []) ≡ ok (77, false, []))
read_index_suffix-append_index_suffix_example =
    read_index_suffix-append_index_suffix abieos abieos-IsAbieos 77 false [] (omega arith)

table_key-BytesLt_example :
    BytesLt
      (append_table_key abieos 255 true 9 ++ (8 ∷ []))
      (append_table_key abieos 256 false 3 ++ [])
table_key-BytesLt_example =
    table_key-BytesLt abieos abieos-IsAbieos 255 256 9 3 true false (8 ∷ []) [] (omega arith)
      (omega arith)

table_key_block-BytesLt_example :
    BytesLt (append_table_key abieos 255 true 9 ++ (8 ∷ [])) (append_table_key_block abieos 256)
table_key_block-BytesLt_example =
    table_key_block-BytesLt abieos abieos-IsAbieos 255 256 9 true (8 ∷ []) (omega arith)
      (omega arith)

inc_key-value_example :
    (length (inc_key (1 ∷ 255 ∷ [])) ≡ 2) × (value_be (inc_key (1 ∷ 255 ∷ [])) ≡ 512)
inc_key-value_example = inc_key-value (1 ∷ 255 ∷ []) (omega arith, (omega arith, tt))

-- ===== src/Kv/RoundTrip.antt =====
-- What is written into a key is read back from it.
use history_tools.Common.{
  ℕ, ◌^◌, ◌-◌, ◌∷◌, if◌then◌else◌, ◌<◌, ◌≡◌, refl, sym, ap, ◌∙◌, Bool, true, false, not, ◌++◌, [],
  reverse, Bytes, ok, arith, ltb, ◌==◌, length, drop, length-append, take_all_append,
  drop_all_append, append_assoc, append-nil,
}
use history_tools.Kv.Types.{Abieos}
use history_tools.Kv.Keys.{
  native_to_key, key_to_native, append_table_key, read_table_prefix, append_index_suffix,
  read_index_suffix, from_bool, complement, tag_table,
}
use history_tools.Kv.Laws.{
  IsAbieos, le_bytes, be_bytes, length-be_bytes, length-le_bytes, reverse-le_bytes,
  reverse-be_bytes, value_le-le_bytes,
}

from_bool-lt : (b : Bool) → from_bool b < 256 ^ 1
from_bool-lt true = omega arith
from_bool-lt false = omega arith

from_bool-back : (b : Bool) → not (from_bool b == 0) ≡ b
from_bool-back true = refl
from_bool-back false = refl

from_bool-not : (b : Bool) → (from_bool (not b) == 0) ≡ b
from_bool-not true = refl
from_bool-not false = refl

module _ (a : Abieos) (h : IsAbieos a) where
  -- If abieos writes numbers with the lowest byte first, a key's number has its highest byte first.
  pub native_to_key-eq : (size n : ℕ) → native_to_key a size n ≡ be_bytes size n
  unfolding native_to_key
  native_to_key-eq size n = ap reverse (h.uint_to_bin-eq size n) ∙ reverse-le_bytes size n

  -- If abieos writes and reads numbers with the lowest byte first, a number that fits its size is
  -- read back from a key, whatever follows it.
  pub key_to_native-native_to_key :
      (size n : ℕ) (rest : Bytes)
      → n < 256 ^ size
      → key_to_native a size (native_to_key a size n ++ rest) ≡ ok (n, rest)
  unfolding key_to_native
  key_to_native-native_to_key size n rest lt =
      let k = be_bytes size n in
      let len = length-be_bytes size n in
      let long : ltb (length (k ++ rest)) size ≡ false =
        ground (arith, length-append k rest, len) in
      let read : a.bin_to_uint size (le_bytes size n) ≡ ok (n, []) =
        ap (a.bin_to_uint size) (sym (append-nil (le_bytes size n)))
        ∙ h.bin_to_uint-eq size (le_bytes size n) [] (length-le_bytes size n)
        ∙ ap (λ v. ok (v, [])) (value_le-le_bytes size n lt) in
      rw (
        native_to_key-eq size n,
        long,
        take_all_append k rest size len,
        drop_all_append k rest size len,
        reverse-be_bytes size n,
        read,
      )

  pub length-native_to_key : (size n : ℕ) → length (native_to_key a size n) ≡ size
  length-native_to_key size n = rw (native_to_key-eq size n) (length-be_bytes size n)

  -- If abieos writes and reads numbers with the lowest byte first, reading the prefix of a table's
  -- key, behind its tag, gives the block, the table and the flag, if the block has 32 and the table
  -- 64 bits.
  pub read_table_prefix-append_table_key :
      (block table : ℕ) (present_k : Bool) (rest : Bytes)
      → block < 2 ^ 32
      → table < 2 ^ 64
      → read_table_prefix a (drop 1 (append_table_key a block present_k table ++ rest))
        ≡ ok (block, table, present_k, rest)
  unfolding read_table_prefix
  read_table_prefix-append_table_key block table present_k rest hb ht =
      let k4 = native_to_key a 4 block in
      let k8 = native_to_key a 8 table in
      let k1 = native_to_key a 1 (from_bool present_k) in
      let parts : drop 1 (append_table_key a block present_k table ++ rest)
          ≡ k4 ++ (k8 ++ (k1 ++ rest)) =
        unfold append_table_key in
        simp append_assoc
          (drop_all_append (native_to_key a 1 tag_table) _ 1 (length-native_to_key 1 tag_table)) in
      rw
        (
          parts,
          key_to_native-native_to_key 4 block (k8 ++ (k1 ++ rest)) hb,
          key_to_native-native_to_key 8 table (k1 ++ rest) ht,
          key_to_native-native_to_key 1 (from_bool present_k) rest (from_bool-lt present_k),
        )
        (ap (λ b. ok (block, table, b, rest)) (from_bool-back present_k))

  suffix_bytes :
      (block : ℕ) (present_k : Bool)
      → block < 2 ^ 32
      → append_index_suffix a block present_k
        ≡ be_bytes 4 (2 ^ 32 - 1 - block) ++ (if present_k then 0 else 1) ∷ []
  unfolding append_index_suffix
  suffix_bytes block true hb =
      rw (native_to_key-eq 4 (complement block), native_to_key-eq 1 (from_bool false))
        (ap (λ m. be_bytes 4 m ++ 0 ∷ []) (omega arith))
  suffix_bytes block false hb =
      rw (native_to_key-eq 4 (complement block), native_to_key-eq 1 (from_bool true))
        (ap (λ m. be_bytes 4 m ++ 1 ∷ []) (omega arith))

  suffix_back :
      (block : ℕ) (present_k : Bool) (rest : Bytes)
      → block < 2 ^ 32
      → read_index_suffix a (append_index_suffix a block present_k ++ rest)
        ≡ ok (block, present_k, rest)
  unfolding read_index_suffix append_index_suffix
  suffix_back block present_k rest hb =
      let k1 = native_to_key a 1 (from_bool (not present_k)) in
      rw
        (
          append_assoc,
          key_to_native-native_to_key 4 (complement block) (k1 ++ rest) (omega arith),
          key_to_native-native_to_key 1 (from_bool (not present_k)) rest
              (from_bool-lt (not present_k)),
        )
        (ground (arith, from_bool-not present_k))

  -- If abieos writes and reads numbers with the lowest byte first and the block has 32 bits, the suffix
  -- of an index key has four bytes of the block taken from 2 ^ 32 - 1, the highest first, and a byte
  -- that is 0 for a row that is present and 1 for one that is not; reading it gives the block and the
  -- flag back, and leaves what follows.
  pub read_index_suffix-append_index_suffix :
      (block : ℕ) (present_k : Bool) (rest : Bytes)
      → block < 2 ^ 32
      → (append_index_suffix a block present_k
          ≡ be_bytes 4 (2 ^ 32 - 1 - block) ++ (if present_k then 0 else 1) ∷ [])
        × (read_index_suffix a (append_index_suffix a block present_k ++ rest)
            ≡ ok (block, present_k, rest))
  read_index_suffix-append_index_suffix block present_k rest hb =
      (suffix_bytes block present_k hb, suffix_back block present_k rest hb)

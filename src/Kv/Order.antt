-- ===== src/Kv/Order.antt =====
-- "Keys are serialized in a lexigraphical sort format": the byte order of keys is the order of what
-- they hold. RocksDB's default order is that of `memcmp`, the shorter first.
use Prim.Native.Nat.{zero}
use native.Mathlib.Decide.{dec_lt}
use native.Mathlib.Nat.{pow-succ'}
use history_tools.Common.{
  ℕ, suc, ◌*◌, ◌/◌, ◌^◌, ◌<◌, ◌≡◌, refl, sym, ◌∙◌, ◌⊎◌, inl, inr, Bool, ◌++◌, [], ◌∷◌, Bytes, arith,
  length, append_assoc, append-nil,
}
use history_tools.Kv.Types.{Abieos}
use history_tools.Kv.Keys.{
  native_to_key, append_table_key, append_table_key_block, append_index_suffix, complement,
  tag_table,
}
use history_tools.Kv.Laws.{IsAbieos, be_bytes, length-be_bytes}
use history_tools.Kv.RoundTrip.{native_to_key-eq}

abbrev pub BytesLt : Bytes → Bytes → Type 0
BytesLt [] [] = ⊥
BytesLt [] (d ∷ t) = Unit
BytesLt (c ∷ s) [] = ⊥
BytesLt (c ∷ s) (d ∷ t) = (c < d) ⊎ ((c ≡ d) × BytesLt s t)

pub BytesLt-prefix : (p s t : Bytes) → BytesLt s t → BytesLt (p ++ s) (p ++ t)
BytesLt-prefix [] s t h = h
BytesLt-prefix (c ∷ p) s t h = inr (refl, BytesLt-prefix p s t h)

pub BytesLt-append :
    (x y s t : Bytes) → length x ≡ length y → BytesLt x y → BytesLt (x ++ s) (y ++ t)
BytesLt-append [] [] s t e h = absurd h
BytesLt-append [] (d ∷ y) s t e h = absurd (omega arith)
BytesLt-append (c ∷ x) [] s t e h = absurd h
BytesLt-append (c ∷ x) (d ∷ y) s t e (inl lt) = inl lt
BytesLt-append (c ∷ x) (d ∷ y) s t e (inr (same, h)) =
    inr (same, BytesLt-append x y s t (omega arith) h)

last_lt : (c d : ℕ) → c < d → BytesLt (c ∷ []) (d ∷ [])
last_lt c d h = inl h

-- Numbers of one size, each within it, stand in the order of their bytes.
pub be_bytes-BytesLt :
    (size m n : ℕ) → m < n → n < 256 ^ size → BytesLt (be_bytes size m) (be_bytes size n)
be_bytes-BytesLt zero m n lt h = absurd (omega arith)
be_bytes-BytesLt (suc size) m n lt h =
    let small : n < 256 * 256 ^ size = rw (← pow-succ' 256 size) h in
    elim (dec_lt (m / 256) (n / 256)) [
      | yes above ↦
          BytesLt-append (be_bytes size (m / 256)) (be_bytes size (n / 256)) _ _
            (length-be_bytes size (m / 256) ∙ sym (length-be_bytes size (n / 256)))
            (be_bytes-BytesLt size (m / 256) (n / 256) above (omega arith))
      | no same ↦
          let e : m / 256 ≡ n / 256 = omega arith in
          rw e (BytesLt-prefix (be_bytes size (n / 256)) _ _ (inl (omega arith)))
    ]

module _ (a : Abieos) (h : IsAbieos a) where
  -- If abieos writes numbers with the lowest byte first, the keys of two numbers of one size stand
  -- in the order of the numbers if the greater one fits the size, whatever follows each.
  pub native_to_key-BytesLt :
      (size m n : ℕ) (s t : Bytes)
      → m < n
      → n < 256 ^ size
      → BytesLt (native_to_key a size m ++ s) (native_to_key a size n ++ t)
  native_to_key-BytesLt size m n s t lt fits =
      rw (native_to_key-eq a h size m, native_to_key-eq a h size n)
        (BytesLt-append (be_bytes size m) (be_bytes size n) s t
          (length-be_bytes size m ∙ sym (length-be_bytes size n))
          (be_bytes-BytesLt size m n lt fits))

  -- If abieos writes numbers with the lowest byte first, every row of a block stands in the
  -- key-value database before the rows of each later block, if that has 32 bits.
  pub table_key-BytesLt :
      (block later table table' : ℕ) (present_k present_k' : Bool) (s t : Bytes)
      → block < later
      → later < 2 ^ 32
      → BytesLt
          (append_table_key a block present_k table ++ s)
          (append_table_key a later present_k' table' ++ t)
  unfolding append_table_key
  table_key-BytesLt block later table table' present_k present_k' s t lt fits = simp append_assoc (
      BytesLt-prefix (native_to_key a 1 tag_table) _ _
        (native_to_key-BytesLt 4 block later _ _ lt fits))

  -- If abieos writes numbers with the lowest byte first, every row of an earlier block stands
  -- before the key from which the rows of a block of 32 bits are erased.
  pub table_key_block-BytesLt :
      (block later table : ℕ) (present_k : Bool) (s : Bytes)
      → block < later
      → later < 2 ^ 32
      → BytesLt (append_table_key a block present_k table ++ s) (append_table_key_block a later)
  unfolding append_table_key append_table_key_block
  table_key_block-BytesLt block later table present_k s lt fits =
      let k = native_to_key a 4 later in
      simp append_assoc (
        BytesLt-prefix (native_to_key a 1 tag_table) _ k
          (rw (← append-nil k) (native_to_key-BytesLt 4 block later _ [] lt fits)))

  -- If abieos writes numbers with the lowest byte first, the entries of later blocks of 32 bits
  -- come first behind one index prefix and key.
  pub index_suffix-BytesLt :
      (prefix : Bytes) (block later : ℕ) (present_k present_k' : Bool)
      → block < later
      → later < 2 ^ 32
      → BytesLt
          (prefix ++ append_index_suffix a later present_k')
          (prefix ++ append_index_suffix a block present_k)
  unfolding append_index_suffix
  index_suffix-BytesLt prefix block later present_k present_k' lt fits = BytesLt-prefix prefix _ _ (
      native_to_key-BytesLt 4 (complement later) (complement block) _ _ (omega arith) (omega arith))

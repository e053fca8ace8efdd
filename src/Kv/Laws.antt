-- ===== src/Kv/Laws.antt =====
-- What is assumed of abieos: an unsigned number is serialized with its lowest byte first, in
-- exactly its size, and read back from that; shorter input is an error.
use mathlib.Core.List.{reverse-cons, reverse-reverse}
use native.Mathlib.Nat.{pow-succ'}
use history_tools.Common.{
  ℕ, zero, suc, ◌+◌, ◌*◌, ◌/◌, ◌%◌, ◌^◌, ◌<◌, ◌≡◌, refl, sym, ap, ◌∙◌, ◌++◌, [], ◌∷◌, reverse,
  Bytes, ok, arith, length, length-append,
}
use history_tools.Kv.Types.{Abieos}

abbrev pub le_bytes : ℕ → ℕ → Bytes
le_bytes zero n = []
le_bytes (suc size) n = n % 256 ∷ le_bytes size (n / 256)

-- The same with the highest byte first.
abbrev pub be_bytes : ℕ → ℕ → Bytes
be_bytes zero n = []
be_bytes (suc size) n = be_bytes size (n / 256) ++ n % 256 ∷ []

abbrev pub value_le : Bytes → ℕ
value_le [] = 0
value_le (c ∷ s) = c + 256 * value_le s

pub record IsAbieos (a : Abieos) : Type 0 where
  pub uint_to_bin-eq : (size n : ℕ) → a.uint_to_bin size n ≡ le_bytes size n
  pub bin_to_uint-eq :
      (size : ℕ) (bin rest : Bytes)
      → length bin ≡ size
      → a.bin_to_uint size (bin ++ rest) ≡ ok (value_le bin, rest)

pub length-le_bytes : (size n : ℕ) → length (le_bytes size n) ≡ size
length-le_bytes zero n = refl
length-le_bytes (suc size) n = ap suc (length-le_bytes size (n / 256))

pub length-be_bytes : (size n : ℕ) → length (be_bytes size n) ≡ size
length-be_bytes zero n = refl
length-be_bytes (suc size) n =
    omega (
      arith,
      length-append (be_bytes size (n / 256)) (n % 256 ∷ []),
      length-be_bytes size (n / 256),
    )

pub reverse-le_bytes : (size n : ℕ) → reverse (le_bytes size n) ≡ be_bytes size n
reverse-le_bytes zero n = refl
reverse-le_bytes (suc size) n =
    reverse-cons (n % 256) (le_bytes size (n / 256))
    ∙ ap (λ l. l ++ n % 256 ∷ []) (reverse-le_bytes size (n / 256))

pub reverse-be_bytes : (size n : ℕ) → reverse (be_bytes size n) ≡ le_bytes size n
reverse-be_bytes size n =
    ap reverse (sym (reverse-le_bytes size n)) ∙ reverse-reverse (le_bytes size n)

-- A number that fits its size is read back.
pub value_le-le_bytes : (size n : ℕ) → n < 256 ^ size → value_le (le_bytes size n) ≡ n
value_le-le_bytes zero n h = omega arith
value_le-le_bytes (suc size) n h =
    let small : n < 256 * 256 ^ size = rw (← pow-succ' 256 size) h in
    let e = value_le-le_bytes size (n / 256) (omega arith) in omega (arith, e)

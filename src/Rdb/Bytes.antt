-- ===== src/Rdb/Bytes.antt =====
-- The equality of byte strings.
use history_tools.Common.{◌≡◌, ◌≢◌, refl, true, false, [], ◌∷◌, Bytes, arith, Bool-cases, inl, inr}
use history_tools.SqlConverter.Types.{bytes_eq}

pub bytes_eq_refl : (k : Bytes) → bytes_eq k k ≡ true
unfolding bytes_eq
bytes_eq_refl [] = refl
bytes_eq_refl (c ∷ k) = ground (arith, bytes_eq_refl k)

pub bytes_eq→eq : (k j : Bytes) → bytes_eq k j ≡ true → k ≡ j
unfolding bytes_eq
bytes_eq→eq [] [] h = refl
bytes_eq→eq [] (d ∷ j) h = cc
bytes_eq→eq (c ∷ k) [] h = cc
bytes_eq→eq (c ∷ k) (d ∷ j) h = ground (arith, bytes_eq→eq k j)

pub bytes_ne→false : (k j : Bytes) → k ≢ j → bytes_eq k j ≡ false
bytes_ne→false k j h = elim (Bool-cases (bytes_eq k j)) [
  | inl e ↦ absurd (h (bytes_eq→eq k j e))
  | inr e ↦ e
]

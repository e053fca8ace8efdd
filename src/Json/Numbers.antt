-- ===== src/Json/Numbers.antt =====
-- The integers that `to_json` writes are read back by `parse_json`.
use native.Mathlib.Nat.{pow-succ', mod-eq_of_lt}
use history_tools.Common.{
  ℕ, zero, suc, ◌+◌, ◌-◌, ◌*◌, ◌/◌, ◌%◌, ◌^◌, ◌<◌, ◌≡◌, refl, ◌∙◌, Bool, true, false, ◌++◌, [], ◌∷◌,
  Bytes, arith, ◌==◌, Bool-cases, inl, inr,
}
use history_tools.Json.Write.{digits}
use history_tools.Json.Parse.{parse_digits, is_digit}

-- No digit stands in front.
abbrev pub NoDigit : Bytes → Type 0
NoDigit [] = Unit
NoDigit (c ∷ s) = is_digit c ≡ false

parse_digits_last :
    (modulus n : ℕ) (found : Bool) (s : Bytes)
    → n < modulus
    → parse_digits modulus (n / 10) found ((b'0' + n % 10) ∷ s) ≡ parse_digits modulus n true s
unfolding parse_digits is_digit
parse_digits_last modulus n found s h =
    let test : is_digit (b'0' + n % 10) ≡ true = ground arith in
    let q : n / 10 * 10 + (b'0' + n % 10 - b'0') ≡ n = omega arith in rw (test, q, mod-eq_of_lt h)

-- One digit, read where nothing has been read before.
parse_digits_first :
    (modulus n : ℕ) (s : Bytes)
    → n < 10
    → n < modulus
    → parse_digits modulus 0 false ((b'0' + n % 10) ∷ s) ≡ parse_digits modulus n true s
parse_digits_first modulus n s small h =
    let e : n / 10 ≡ 0 = omega arith in rw e at (parse_digits_last modulus n false s h)

tenth_lt : (k n : ℕ) → n < 10 ^ suc k → n / 10 < 10 ^ k
tenth_lt k n h = let small : n < 10 * 10 ^ k = rw (← pow-succ' 10 k) h in omega arith

parse_digits-digits :
    (fuel modulus n : ℕ) (out rest : Bytes)
    → n < 10 ^ suc fuel
    → n < modulus
    → parse_digits modulus 0 false (digits (suc fuel) n out ++ rest)
      ≡ parse_digits modulus n true (out ++ rest)
unfolding digits
parse_digits-digits zero modulus n out rest h k =
    let z : (n / 10 == 0) ≡ true = ground arith in
    rw z (parse_digits_first modulus n (out ++ rest) (omega arith) k)
parse_digits-digits (suc fuel) modulus n out rest h k = elim (Bool-cases (n / 10 == 0)) [
  | inl z ↦ rw z (parse_digits_first modulus n (out ++ rest) (ground arith) k)
  | inr z ↦ rw z (
      parse_digits-digits fuel modulus (n / 10) ((b'0' + n % 10) ∷ out) rest
        (tenth_lt (suc fuel) n h) (omega arith)
      ∙ parse_digits_last modulus n true (out ++ rest) k)
]

parse_digits_end :
    (modulus n : ℕ) (rest : Bytes)
    → NoDigit rest
    → parse_digits modulus n true rest ≡ (n, true, rest)
unfolding parse_digits
parse_digits_end modulus n [] h = refl
parse_digits_end modulus n (c ∷ s) h = ground arith

-- The digits of a number of at most 64 bits, up to what follows them.
pub parse_digits_number :
    (modulus n : ℕ) (rest : Bytes)
    → n < 2 ^ 64
    → n < modulus
    → NoDigit rest
    → parse_digits modulus 0 false (digits 20 n [] ++ rest) ≡ (n, true, rest)
parse_digits_number modulus n rest h k nd =
    parse_digits-digits 19 modulus n [] rest (omega arith) k ∙ parse_digits_end modulus n rest nd

-- `digits` begins with a digit.
pub digits_head :
    (fuel n : ℕ) (out : Bytes)
    → (c : ℕ) × (s : Bytes) × (digits (suc fuel) n out ≡ c ∷ s) × (is_digit c ≡ true)
unfolding digits is_digit
digits_head zero n out = (b'0' + n % 10, out, ground arith, ground arith)
digits_head (suc fuel) n out = elim (Bool-cases (n / 10 == 0)) [
  | inl z ↦ (b'0' + n % 10, out, ground arith, ground arith)
  | inr z ↦
      let (c, s, e, d) = digits_head fuel (n / 10) ((b'0' + n % 10) ∷ out) in (c, s, rw z e, d)
]

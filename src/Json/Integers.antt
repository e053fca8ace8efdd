-- ===== src/Json/Integers.antt =====
-- Whole integers: what `int_to_json` writes is read back, and what the signed reader refuses.
use history_tools.Common.{
  ℕ, ◌-◌, ◌%◌, ◌^◌, ◌<◌, ◌≤◌, ◌≡◌, refl, ap, ◌∙◌, Bool, true, false, ◌++◌, [], ◌∷◌, if◌then◌else◌,
  Bytes, ok, err, arith, ltb, leb, ◌==◌, append_assoc, append-nil, Bool-cases, inl, inr,
}
use history_tools.Json.Write.{quote, digits, uint_to_json, int_to_json}
use history_tools.Json.Parse.{
  parse_digits, parse_close, parse_uint_from, parse_json_uint, parse_json_skip_space, is_digit,
  is_space, parse_json_expect, parse_int32, parse_int32_sign, parse_int32_digits,
}
use history_tools.Json.Numbers.{NoDigit, parse_digits_number, digits_head}

parse_uint_from_narrow :
    (modulus n : ℕ) (rest : Bytes)
    → n < 2 ^ 64
    → n < modulus
    → NoDigit rest
    → parse_uint_from modulus false (digits 20 n [] ++ rest) ≡ ok (n, parse_json_skip_space rest)
unfolding parse_uint_from parse_close
parse_uint_from_narrow modulus n rest h k nd = rw (parse_digits_number modulus n rest h k nd)

parse_uint_from_wide :
    (modulus n : ℕ) (rest : Bytes)
    → n < 2 ^ 64
    → n < modulus
    → parse_uint_from modulus true (digits 20 n [] ++ quote ∷ rest)
      ≡ ok (n, parse_json_skip_space rest)
unfolding parse_uint_from parse_close parse_json_skip_space parse_json_expect is_space
parse_uint_from_wide modulus n rest h k =
    rw (parse_digits_number modulus n (quote ∷ rest) h k (unfold is_digit in refl))

skip_space_digit : (c : ℕ) (s : Bytes) → is_digit c ≡ true → parse_json_skip_space (c ∷ s) ≡ c ∷ s
unfolding parse_json_skip_space is_space is_digit
skip_space_digit c s h = ground arith

skip_space-digits :
    (n : ℕ) (rest : Bytes) → parse_json_skip_space (digits 20 n [] ++ rest) ≡ digits 20 n [] ++ rest
skip_space-digits n rest =
    let (c, s, e, d) = digits_head 19 n [] in rw e (skip_space_digit c (s ++ rest) d)

parse_json_uint-digits :
    (modulus n : ℕ) (rest : Bytes)
    → parse_json_uint modulus (digits 20 n [] ++ rest)
      ≡ parse_uint_from modulus false (digits 20 n [] ++ rest)
unfolding parse_json_uint
parse_json_uint-digits modulus n rest =
    let (c, s, e, d) = digits_head 19 n [] in
    let other : (c == quote) ≡ false = unfold is_digit in ground arith in rw (e, other)

parse_json_uint_wide :
    (modulus n : ℕ) (rest : Bytes)
    → n < 2 ^ 64
    → n < modulus
    → parse_json_uint modulus (quote ∷ (digits 20 n [] ++ quote ∷ []) ++ rest)
      ≡ ok (n, parse_json_skip_space rest)
unfolding parse_json_uint
parse_json_uint_wide modulus n rest h k =
    rw (append_assoc, skip_space-digits n (quote ∷ rest)) (parse_uint_from_wide modulus n rest h k)

-- A number of at most 64 bits that fits an unsigned type of at most eight bytes is read back from
-- its JSON text, with what follows the text; if the type has at most 32 bits, no digit may follow.
pub parse_json_uint-uint_to_json :
    (size n : ℕ) (rest : Bytes)
    → size ≤ 8
    → n < 256 ^ size
    → n < 2 ^ 64
    → (size ≤ 4 → NoDigit rest)
    → parse_json_uint (256 ^ size) (uint_to_json size n ++ rest)
      ≡ ok (n, parse_json_skip_space rest)
unfolding uint_to_json
parse_json_uint-uint_to_json size n rest h8 k h nd = elim (Bool-cases (ltb 4 size)) [
  | inl wide ↦ rw wide (parse_json_uint_wide (256 ^ size) n rest h k)
  | inr narrow ↦
      rw (narrow, append-nil)
        (parse_json_uint-digits (256 ^ size) n rest
          ∙ parse_uint_from_narrow (256 ^ size) n rest h k (nd (ground arith)))
]

-- The reader of an `int32_t` refuses every text that begins with a quote.
pub parse_int32_quoted : (s : Bytes) → parse_int32 (quote ∷ s) ≡ err "expected integer"
unfolding parse_int32 parse_int32_sign parse_int32_digits parse_json_skip_space is_space
    parse_digits is_digit
parse_int32_quoted s = refl

-- The digits of an `int32_t` behind its sign.
parse_int32_digits_plain :
    (neg : Bool) (n : ℕ) (rest : Bytes)
    → n < 2 ^ 32
    → NoDigit rest
    → parse_int32_digits false neg (digits 20 n [] ++ rest)
      ≡ ok ((if neg then (2 ^ 32 - n) % 2 ^ 32 else n), parse_json_skip_space rest)
unfolding parse_int32_digits parse_close
parse_int32_digits_plain neg n rest h nd =
    rw (parse_digits_number (2 ^ 32) n rest (omega arith) h nd)

parse_int32-digits :
    (n : ℕ) (rest : Bytes)
    → parse_int32 (digits 20 n [] ++ rest) ≡ parse_int32_digits false false (digits 20 n [] ++ rest)
unfolding parse_int32 parse_int32_sign
parse_int32-digits n rest =
    let (c, s, e, d) = digits_head 19 n [] in
    let no_quote : (c == quote) ≡ false = unfold is_digit in ground arith in
    let no_minus : (c == b'-') ≡ false = unfold is_digit in ground arith in
    rw (e, no_quote, no_minus)

-- An `int32_t`, as its two's complement, is read back from its JSON text if no digit follows.
pub parse_int32-int_to_json :
    (value : ℕ) (rest : Bytes)
    → value < 2 ^ 32
    → NoDigit rest
    → parse_int32 (int_to_json 4 value ++ rest) ≡ ok (value, parse_json_skip_space rest)
unfolding int_to_json
parse_int32-int_to_json value rest h nd = elim (Bool-cases (leb (2 ^ 31) value)) [
  | inl neg ↦
      let back : (2 ^ 32 - (2 ^ 32 - value) % 2 ^ 32) % 2 ^ 32 ≡ value = ground arith in
      rw (neg, append-nil)
        (unfold parse_int32 parse_int32_sign in
          parse_int32_digits_plain true ((2 ^ 32 - value) % 2 ^ 32) rest (omega arith) nd
          ∙ ap (λ v. ok (v, parse_json_skip_space rest)) back)
  | inr pos ↦
      rw (pos, append-nil)
        (parse_int32-digits value rest ∙ parse_int32_digits_plain false value rest h nd)
]

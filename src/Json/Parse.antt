-- ===== src/Json/Parse.antt =====
-- libraries/eosiolib/wasmql/eosio/parse_json.hpp: values from JSON text. `pos` and `end` are the
-- text that is left; a parser gives its value and what is left then. `check` throws its message.
use history_tools.Common.{
  ℕ, zero, suc, ◌+◌, ◌-◌, ◌*◌, ◌%◌, ◌^◌, Bool, true, false, ◌||◌, ◌&&◌, List, [], ◌∷◌,
  if◌then◌else◌, Bytes, codes, Option, none, some, Result, ok, err, ◌>>=◌, ◌>>◌, check, leb, ◌==◌,
  length, String, is_empty, drop,
}
use history_tools.Json.Write.{quote}

-- A parser of `A`.
abbrev pub Parser {ℓ} : Type ℓ → Type ℓ
Parser A = Bytes → Result (A × Bytes)

unfoldable pub is_space : ℕ → Bool
is_space c = c == 0x09 || c == 0x0a || c == 0x0d || c == 0x20

unfoldable pub parse_json_skip_space : Bytes → Bytes
unfolding is_space
parse_json_skip_space [] = []
parse_json_skip_space (c ∷ s) = if is_space c then parse_json_skip_space s else c ∷ s

unfoldable pub parse_json_skip_value : Bytes → Bytes
parse_json_skip_value [] = []
parse_json_skip_value (c ∷ s) = if c == b',' || c == b'}' then c ∷ s else parse_json_skip_value s

-- `pos != end && *pos == ch`
abbrev pub next_is : ℕ → Bytes → Bool
next_is ch [] = false
next_is ch (c ∷ s) = c == ch

unfoldable pub parse_json_expect : ℕ → String → Bytes → Result Bytes
unfolding parse_json_skip_space
parse_json_expect ch msg [] = err msg
parse_json_expect ch msg (c ∷ s) = do check (c == ch) msg; ok (parse_json_skip_space s)

unfoldable pub parse_json_expect_end : Bytes → Result (Unit {0})
parse_json_expect_end [] = ok tt
parse_json_expect_end (c ∷ s) = err "expected end of json"

-- The characters up to a quote, and the text from it on.
unfoldable pub until_quote : Bytes → Bytes × Bytes
until_quote [] = ([], [])
until_quote (c ∷ s) =
    let (text, rest) = until_quote s in if c == quote then ([], c ∷ s) else (c ∷ text, rest)

-- The end of a string: the space behind it is left.
unfoldable pub end_string : Bytes → Bytes → Result (Bytes × Bytes)
end_string text [] = err "expected end of string"
end_string text (c ∷ s) = do check (c == quote) "expected end of string"; ok (text, s)

unfoldable pub parse_string : Parser Bytes
unfolding until_quote end_string
parse_string [] = err "expected string"
parse_string (c ∷ s) = do
  check (c == quote) "expected string"
  end_string (until_quote s).0 (until_quote s).1

unfoldable pub is_digit : ℕ → Bool
is_digit c = leb b'0' c && leb c b'9'

-- The loop over digits, in a type of `modulus` values: `result * 10 + *pos++ - '0'`, whether a
-- digit was found, and what is left.
unfoldable pub parse_digits : ℕ → ℕ → Bool → Bytes → ℕ × Bool × Bytes
unfolding is_digit
parse_digits modulus result found [] = (result, found, [])
parse_digits modulus result found (c ∷ s) =
    let more = parse_digits modulus ((result * 10 + (c - b'0')) % modulus) true s in
    if is_digit c then more else (result, found, c ∷ s)

-- What follows the digits: the space, and the closing quote if there was an opening one.
unfoldable pub parse_close : Bool → String → Bytes → Result Bytes
unfolding parse_json_skip_space parse_json_expect
parse_close in_str msg s =
    if in_str
    then parse_json_expect quote msg (parse_json_skip_space s)
    else ok (parse_json_skip_space s)

-- `parse_json_expect` skips the space itself, so the source's second skip changes nothing.
unfoldable pub parse_uint_from : ℕ → Bool → Parser ℕ
unfolding parse_digits parse_close
parse_uint_from modulus in_str s = do
  let (result, found, s1) = parse_digits modulus 0 false s
  check found "expected positive integer"
  rest ← parse_close in_str "expected positive integer" s1
  ok (result, rest)

-- `parse_json_uint` for a type of `modulus` values.
unfoldable pub parse_json_uint : ℕ → Parser ℕ
unfolding parse_uint_from parse_json_skip_space
parse_json_uint modulus [] = parse_uint_from modulus false []
parse_json_uint modulus (c ∷ s) =
    if c == quote
    then parse_uint_from modulus true (parse_json_skip_space s)
    else parse_uint_from modulus false (c ∷ s)

-- The digits of an `int32_t`; its overflow, undefined in the source, is the processor's.
unfoldable pub parse_int32_digits : Bool → Bool → Parser ℕ
unfolding parse_digits parse_close
parse_int32_digits in_str neg s = do
  let (result, found, s1) = parse_digits (2 ^ 32) 0 false s
  check found "expected integer"
  rest ← parse_close in_str "expected integer" s1
  ok ((if neg then (2 ^ 32 - result) % 2 ^ 32 else result), rest)

-- The sign, where the digits begin.
unfoldable pub parse_int32_sign : Bool → Parser ℕ
unfolding parse_int32_digits
parse_int32_sign in_str [] = parse_int32_digits in_str false []
parse_int32_sign in_str (c ∷ s) =
    if c == b'-' then parse_int32_digits in_str true s else parse_int32_digits in_str false (c ∷ s)

-- `parse_json(int32_t&)`, as a two's complement. Behind an opening quote the source skips space but
-- does not step over the quote itself.
unfoldable pub parse_int32 : Parser ℕ
unfolding parse_int32_sign parse_json_skip_space
parse_int32 s =
    if next_is quote s
    then parse_int32_sign true (parse_json_skip_space s)
    else parse_int32_sign false s

-- `end - pos >= n && !strncmp(pos, word, n)`: what follows the word.
unfoldable pub strip_prefix : Bytes → Bytes → Option Bytes
strip_prefix [] s = some s
strip_prefix (c ∷ w) [] = none
strip_prefix (c ∷ w) (d ∷ s) = if c == d then strip_prefix w s else none

unfoldable pub parse_bool : Parser Bool
unfolding strip_prefix parse_json_skip_space
parse_bool s = elim (strip_prefix (codes "true") s) [
  | some rest ↦ ok (true, parse_json_skip_space rest)
  | none ↦ elim (strip_prefix (codes "false") s) [
    | some rest ↦ ok (false, parse_json_skip_space rest)
    | none ↦ err "expected boolean"
  ]
]

-- `get_digit`
unfoldable pub get_digit : ℕ → Result ℕ
get_digit ch =
    if leb b'0' ch && leb ch b'9'
    then ok (ch - b'0')
    else if leb b'a' ch && leb ch b'f'
    then ok (ch - b'a' + 10)
    else if leb b'A' ch && leb ch b'F'
    then ok (ch - b'A' + 10)
    else err "expected checksum256"

unfoldable pub hex_pairs : Bytes → Result Bytes
unfolding get_digit
hex_pairs [] = ok []
hex_pairs (h ∷ []) = err "expected checksum256"
hex_pairs (h ∷ l ∷ s) = do
  high ← get_digit h
  low ← get_digit l
  more ← hex_pairs s
  ok ((high * 16 + low) ∷ more)

unfoldable pub parse_checksum256 : Parser Bytes
parse_checksum256 s = do
  (sv, rest) ← parse_string s
  check (length sv == 64) "expected checksum256"
  bytes ← hex_pairs sv
  ok (bytes, rest)

-- `while (true)` over the elements. A round takes at least the comma, so the length of the text is
-- enough fuel; without fuel the parser fails.
unfoldable pub parse_elements {ℓ} : {A : Type ℓ} → ℕ → Parser A → Parser (List A)
unfolding parse_json_skip_space
parse_elements zero parser s = err "fuel"
parse_elements (suc fuel) parser s = parser s >>= λ (v, s1).
    let more =
      (parse_elements fuel parser (parse_json_skip_space (drop 1 s1)) >>= λ (vs, s2).
      ok (v ∷ vs, s2)) in
    if next_is b',' s1 then more else ok (v ∷ [], s1)

unfoldable pub parse_vector {ℓ} : {A : Type ℓ} → Parser A → Parser (List A)
parse_vector parser s = do
  s1 ← parse_json_expect b'[' "expected [" s
  (vs, s2) ←
      (if is_empty s1 || next_is b']' s1
        then ok ([], s1)
        else parse_elements (suc (length s1)) parser s1)
  rest ← parse_json_expect b']' "expected ]" s2
  ok (vs, rest)

-- The loop over the members of an object: `member key` is the functor, which parses the value and
-- adds it to the object, or skips it.
unfoldable pub parse_members {ℓ} : {A : Type ℓ} → ℕ → (Bytes → A → Parser A) → A → Parser A
unfolding parse_json_skip_space
parse_members zero member obj s = err "fuel"
parse_members (suc fuel) member obj s = do
  (key, s1) ← parse_string s
  s2 ← parse_json_expect b':' "expected :" s1
  (obj', s3) ← member key obj s2
  let more = parse_members fuel member obj' (parse_json_skip_space (drop 1 s3))
  (if next_is b',' s3 then more else ok (obj', s3))

unfoldable pub parse_json_object {ℓ} : {A : Type ℓ} → (Bytes → A → Parser A) → A → Parser A
parse_json_object member obj s = do
  s1 ← parse_json_expect b'{' "expected {" s
  (obj', s2) ←
      (if is_empty s1 || next_is b'}' s1
        then ok (obj, s1)
        else parse_members (suc (length s1)) member obj s1)
  rest ← parse_json_expect b'}' "expected }" s2
  ok (obj', rest)

-- The convenience wrapper: the whole text is one value.
unfoldable pub parse_json {ℓ} : {A : Type ℓ} → Parser A → Bytes → Result A
parse_json parser s = do
  (result, rest) ← parser (parse_json_skip_space s)
  parse_json_expect_end rest
  ok result

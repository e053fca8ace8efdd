-- ===== src/Json/Tests.antt =====
-- Witnesses and tests for JSON text.
use history_tools.Common.{
  ℕ, ◌-◌, ◌≡◌, ◌⊎◌, ap, ◌∙◌, refl, false, ◌++◌, [], ◌∷◌, Bytes, codes, ok, err, arith, replicate,
  ◌^◌,
}
use history_tools.Json.Write.{
  uint_to_json, int_to_json, checksum256_to_json, vector_to_json, string_to_json, string_body,
  string_char,
}
use history_tools.Json.Parse.{
  parse_json_uint, parse_int32, parse_checksum256, parse_string, parse_vector, parse_json,
  parse_json_skip_space, is_space, is_digit, parse_json_expect_end, until_quote, end_string,
}
use history_tools.Json.Integers.{
  parse_json_uint-uint_to_json, parse_int32_quoted, parse_int32-int_to_json,
}
use history_tools.Json.Containers.{
  Element, parse_checksum256-checksum256_to_json, parse_vector-vector_to_json,
}

parse_json_uint-uint_to_json_example :
    parse_json_uint (256 ^ 4) (uint_to_json 4 1234 ++ codes " ,")
    ≡ ok (1234, parse_json_skip_space (codes " ,"))
parse_json_uint-uint_to_json_example =
    parse_json_uint-uint_to_json 4 1234 (codes " ,") (omega arith) (omega arith) (omega arith)
      (λ h. unfold is_digit in refl)

parse_int32_quoted_example : parse_int32 (codes "\"12\"") ≡ err "expected integer"
parse_int32_quoted_example = parse_int32_quoted (codes "12\"")

parse_int32-int_to_json_example :
    parse_int32 (int_to_json 4 (2 ^ 32 - 12) ++ codes "]")
    ≡ ok (2 ^ 32 - 12, parse_json_skip_space (codes "]"))
parse_int32-int_to_json_example =
    parse_int32-int_to_json (2 ^ 32 - 12) (codes "]") (omega arith) (unfold is_digit in refl)

abbrev checksum : Bytes
checksum = replicate 32 171

parse_checksum256-checksum256_to_json_example :
    parse_checksum256 (checksum256_to_json checksum ++ codes "]") ≡ ok (checksum, codes "]")
parse_checksum256-checksum256_to_json_example =
    parse_checksum256-checksum256_to_json checksum (codes "]") refl (omega arith)

seven-reads :
    (c : ℕ) (s : Bytes)
    → (c ≡ b',') ⊎ (c ≡ b']')
    → parse_json_uint (256 ^ 4) (uint_to_json 4 7 ++ c ∷ s) ≡ ok (7, c ∷ s)
seven-reads c s h =
    let plain : is_digit c ≡ false = unfold is_digit in ground arith in
    let stays : parse_json_skip_space (c ∷ s) ≡ c ∷ s =
      unfold parse_json_skip_space is_space in ground arith in
    parse_json_uint-uint_to_json 4 7 (c ∷ s) (omega arith) (omega arith) (omega arith)
      (λ small. plain)
    ∙ ap (λ r. ok (7, r)) stays

-- The element 7 of a vector of `uint32_t`.
seven-Element : Element (uint_to_json 4) (parse_json_uint (256 ^ 4)) 7
unfolding uint_to_json is_space is_digit
seven-Element = record {
  first = b'7';
  others = [];
  text = refl;
  no_space = refl;
  no_bracket = refl;
  reads = seven-reads;
}

parse_vector-vector_to_json_example :
    parse_vector
      (parse_json_uint (256 ^ 4))
      (vector_to_json (uint_to_json 4) (7 ∷ 7 ∷ []) ++ codes "}")
    ≡ ok (7 ∷ 7 ∷ [], parse_json_skip_space (codes "}"))
parse_vector-vector_to_json_example =
    parse_vector-vector_to_json (uint_to_json 4) (parse_json_uint (256 ^ 4)) (7 ∷ 7 ∷ [])
      (codes "}") (seven-Element, (seven-Element, tt))

-- A quote inside a string is written with an escape, which `parse_string` does not read.
escapes_are_not_read :
    parse_json parse_string (string_to_json (codes "a\"b")) ≡ err "expected end of json"
unfolding parse_json parse_string parse_json_skip_space is_space parse_json_expect_end until_quote
    end_string string_to_json string_body string_char
escapes_are_not_read = refl

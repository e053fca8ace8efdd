-- ===== src/Json/Containers.antt =====
-- Checksums and vectors that `to_json` writes are read back by `parse_json`.
use history_tools.Common.{
  ℕ, zero, suc, ◌*◌, ◌/◌, ◌%◌, ◌<◌, ◌≤◌, ◌≡◌, ◌≢◌, ◌⊎◌, refl, true, false, ◌||◌, ◌++◌, List, [],
  ◌∷◌, Bytes, ok, arith, ◌==◌, append_assoc, inl, inr, length, length-append, All, is_empty,
}
use history_tools.Json.Write.{
  quote, hex_digit, hex_byte, hex_bytes, checksum256_to_json, vector_to_json, elements,
}
use history_tools.Json.Parse.{
  Parser, parse_json_skip_space, is_space, parse_json_expect, next_is, until_quote, end_string,
  parse_string, get_digit, hex_pairs, parse_checksum256, parse_elements, parse_vector,
}

until_quote_text :
    (text rest : Bytes)
    → All (λ c. c ≢ quote) text
    → until_quote (text ++ quote ∷ rest) ≡ (text, quote ∷ rest)
unfolding until_quote
until_quote_text [] rest h = refl
until_quote_text (c ∷ text) rest (hc, hs) = ground (arith, until_quote_text text rest hs)

-- A quoted text without a quote in it is read to its closing quote.
pub parse_string_text :
    (text rest : Bytes)
    → All (λ c. c ≢ quote) text
    → parse_string (quote ∷ (text ++ quote ∷ rest)) ≡ ok (text, rest)
unfolding parse_string
parse_string_text text rest h = rw (until_quote_text text rest h) (unfold end_string in refl)

get_digit-hex_digit : (d : ℕ) → d < 16 → get_digit (hex_digit d) ≡ ok d
unfolding get_digit hex_digit
get_digit-hex_digit d h = ground arith

hex_pairs-hex_bytes :
    (bytes : Bytes) → All (λ c. c < 256) bytes → hex_pairs (hex_bytes bytes) ≡ ok bytes
unfolding hex_pairs hex_bytes hex_byte
hex_pairs-hex_bytes [] h = refl
hex_pairs-hex_bytes (c ∷ s) (hc, hs) =
    rw
      (
        get_digit-hex_digit (c / 16) (omega arith),
        get_digit-hex_digit (c % 16) (omega arith),
        hex_pairs-hex_bytes s hs,
      )
      (ground arith)

length-hex_bytes : (bytes : Bytes) → length (hex_bytes bytes) ≡ 2 * length bytes
unfolding hex_bytes hex_byte
length-hex_bytes [] = refl
length-hex_bytes (c ∷ s) = omega (arith, length-hex_bytes s)

hex_digit-ne : (d : ℕ) → d < 16 → hex_digit d ≢ quote
unfolding hex_digit
hex_digit-ne d h = ground arith

hex_bytes-plain :
    (bytes : Bytes) → All (λ c. c < 256) bytes → All (λ c. c ≢ quote) (hex_bytes bytes)
unfolding hex_bytes hex_byte
hex_bytes-plain [] h = tt
hex_bytes-plain (c ∷ s) (hc, hs) = (
  hex_digit-ne (c / 16) (omega arith),
  (hex_digit-ne (c % 16) (omega arith), hex_bytes-plain s hs),
)

-- The 32 bytes of a checksum are read back from its JSON text, whatever follows it.
pub parse_checksum256-checksum256_to_json :
    (bytes rest : Bytes)
    → length bytes ≡ 32
    → All (λ c. c < 256) bytes
    → parse_checksum256 (checksum256_to_json bytes ++ rest) ≡ ok (bytes, rest)
unfolding parse_checksum256 checksum256_to_json
parse_checksum256-checksum256_to_json bytes rest len h =
    let size : (length (hex_bytes bytes) == 64) ≡ true =
      ground (arith, length-hex_bytes bytes, len) in
    rw (
      append_assoc,
      parse_string_text (hex_bytes bytes) rest (hex_bytes-plain bytes h),
      size,
      hex_pairs-hex_bytes bytes h,
    )

-- What the text of an element must be like: it does not begin with a space or a closing bracket,
-- and it is read back in front of a comma or a closing bracket.
pub record Element {ℓ} {A : Type ℓ} (to_json : A → Bytes) (parser : Parser A) (v : A) : Type ℓ where
  pub first : ℕ
  pub others : Bytes
  pub text : to_json v ≡ first ∷ others
  pub no_space : is_space first ≡ false
  pub no_bracket : (first == b']') ≡ false
  pub reads :
      (c : ℕ) (s : Bytes) → (c ≡ b',') ⊎ (c ≡ b']') → parser (to_json v ++ c ∷ s) ≡ ok (v, c ∷ s)

module _ {ℓ} {A : Type ℓ} (to_json : A → Bytes) (parser : Parser A) where
  skip_space-Element :
      (v : A) (s : Bytes)
      → Element to_json parser v
      → parse_json_skip_space (to_json v ++ s) ≡ to_json v ++ s
  unfolding parse_json_skip_space
  skip_space-Element v s e = rw (e.text, e.no_space)

  parse_elements-elements :
      (fuel : ℕ) (v : A) (vs : List A) (rest : Bytes)
      → length vs < fuel
      → All (Element to_json parser) (v ∷ vs)
      → parse_elements fuel parser (to_json v ++ (elements to_json vs ++ b']' ∷ rest))
        ≡ ok (v ∷ vs, b']' ∷ rest)
  unfolding parse_elements elements
  parse_elements-elements zero v vs rest lt h = absurd (omega arith)
  parse_elements-elements (suc fuel) v [] rest lt (e, h) = rw (e.reads b']' rest (inr refl))
  parse_elements-elements (suc fuel) v (w ∷ vs) rest lt (e, h) = rw (
    append_assoc,
    e.reads b',' (to_json w ++ (elements to_json vs ++ b']' ∷ rest)) (inl refl),
    skip_space-Element w (elements to_json vs ++ b']' ∷ rest) h.0,
    parse_elements-elements fuel w vs rest (omega arith) h,
  )

  length-elements : (vs : List A) → length vs ≤ length (elements to_json vs)
  unfolding elements
  length-elements [] = omega arith
  length-elements (v ∷ vs) =
      omega (arith, length-append (to_json v) (elements to_json vs), length-elements vs)

  -- A vector is read back from its JSON text, with what follows it, if each of its elements is read
  -- back in front of a comma or a bracket.
  pub parse_vector-vector_to_json :
      (vs : List A) (rest : Bytes)
      → All (Element to_json parser) vs
      → parse_vector parser (vector_to_json to_json vs ++ rest)
        ≡ ok (vs, parse_json_skip_space rest)
  unfolding parse_vector vector_to_json parse_json_expect
  parse_vector-vector_to_json [] rest h = unfold parse_json_skip_space is_space in refl
  parse_vector-vector_to_json (v ∷ vs) rest (e, h) =
      let body = elements to_json vs ++ b']' ∷ rest in
      let text = to_json v ++ body in
      let fuel : length vs < suc (length text) = omega (
        arith,
        length-append (to_json v) body,
        length-append (elements to_json vs) (b']' ∷ rest),
        length-elements vs,
      ) in
      let first : (is_empty text || next_is b']' text) ≡ false = rw e.text e.no_bracket in
      rw (
        append_assoc,
        append_assoc,
        skip_space-Element v body e,
        first,
        parse_elements-elements (suc (length text)) v vs rest fuel (e, h),
      )

-- ===== src/Json/Write.antt =====
-- libraries/eosiolib/wasmql/eosio/to_json.hpp: values as JSON text. A rope is the text that it
-- spells, and a `rope_buffer` with `reverse` is a text written from its end. The text of a `name`,
-- a `symbol_code` and an `asset`, and of a floating-point number, are of other libraries and left out.
use history_tools.Common.{
  ℕ, zero, suc, ◌+◌, ◌-◌, ◌/◌, ◌%◌, ◌^◌, ◌≡◌, refl, Bool, true, false, ◌||◌, ◌++◌, List, [], ◌∷◌,
  if◌then◌else◌, Bytes, codes, Option, none, some, ltb, leb, ◌==◌,
}

abbrev pub quote : ℕ
quote = b'"'

abbrev pub backslash : ℕ
backslash = b'\\'

-- `hex_digits[d]`
unfoldable pub hex_digit : ℕ → ℕ
hex_digit d = if ltb d 10 then d + b'0' else d - 10 + b'A'

unfoldable pub hex_byte : ℕ → Bytes
unfolding hex_digit
hex_byte c = hex_digit (c / 16) ∷ hex_digit (c % 16) ∷ []

-- What `to_json(std::string_view)` writes for one character.
unfoldable pub string_char : ℕ → Bytes
unfolding hex_byte
string_char c =
    if c == quote
    then backslash ∷ quote ∷ []
    else if c == backslash
    then backslash ∷ backslash ∷ []
    else if ltb c 32 || c == 127
    then backslash ∷ b'u' ∷ b'0' ∷ b'0' ∷ hex_byte c
    else c ∷ []

-- The inner loop copies the characters that need no escape at once; the text is the same.
unfoldable pub string_body : Bytes → Bytes
unfolding string_char
string_body [] = []
string_body (c ∷ s) = string_char c ++ string_body s

unfoldable pub string_to_json : Bytes → Bytes
unfolding string_body
string_to_json sv = quote ∷ string_body sv ++ quote ∷ []

unfoldable pub bool_to_json : Bool → Bytes
bool_to_json true = codes "true"
bool_to_json false = codes "false"

-- The `do … while (uvalue)` loop, whose buffer is reversed at the end. The fuel bounds its rounds.
unfoldable pub digits : ℕ → ℕ → Bytes → Bytes
digits zero uvalue out = out
digits (suc fuel) uvalue out =
    let more = digits fuel (uvalue / 10) ((b'0' + uvalue % 10) ∷ out) in
    if uvalue / 10 == 0 then (b'0' + uvalue % 10) ∷ out else more

-- `if (sizeof(T) > 4) '"'`
abbrev pub if_wide : ℕ → Bytes
if_wide size = if ltb 4 size then quote ∷ [] else []

-- `int_to_json` of an unsigned type of `size` bytes; at most 20 rounds are made.
unfoldable pub uint_to_json : ℕ → ℕ → Bytes
unfolding digits
uint_to_json size value = if_wide size ++ (digits 20 value [] ++ if_wide size)

-- `int_to_json` of a signed type: `value` is its two's complement.
unfoldable pub int_to_json : ℕ → ℕ → Bytes
unfolding digits
int_to_json size value =
    let neg = leb (256 ^ size / 2) value in
    let uvalue = if neg then (256 ^ size - value) % 256 ^ size else value in
    if_wide size ++ ((if neg then b'-' ∷ [] else []) ++ (digits 20 uvalue [] ++ if_wide size))

-- `uint_to_json_fixed_size`: the last `digits` digits, with leading zeros.
unfoldable pub fixed_digits : ℕ → ℕ → Bytes → Bytes
fixed_digits zero value out = out
fixed_digits (suc n) value out = fixed_digits n (value / 10) ((b'0' + value % 10) ∷ out)

unfoldable pub uint_to_json_fixed_size : ℕ → ℕ → ℕ → Bytes
unfolding fixed_digits
uint_to_json_fixed_size size value n = if_wide size ++ (fixed_digits n value [] ++ if_wide size)

unfoldable pub hex_bytes : Bytes → Bytes
unfolding hex_byte
hex_bytes [] = []
hex_bytes (c ∷ s) = hex_byte c ++ hex_bytes s

-- `to_json` of a `checksum256`, by its 32 bytes.
unfoldable pub checksum256_to_json : Bytes → Bytes
unfolding hex_bytes
checksum256_to_json value = quote ∷ hex_bytes value ++ quote ∷ []

-- `to_json` of `std::vector<char>` and of a `datastream`.
unfoldable pub bytes_to_json : Bytes → Bytes
unfolding hex_bytes
bytes_to_json obj = quote ∷ hex_bytes obj ++ quote ∷ []

unfoldable pub optional_to_json {ℓ} : {A : Type ℓ} → (A → Bytes) → Option A → Bytes
optional_to_json to_json none = codes "null"
optional_to_json to_json (some obj) = to_json obj

-- The loop of `to_json(const std::vector<T>&)` behind the first element.
unfoldable pub elements {ℓ} : {A : Type ℓ} → (A → Bytes) → List A → Bytes
elements to_json [] = []
elements to_json (v ∷ vs) = b',' ∷ to_json v ++ elements to_json vs

unfoldable pub vector_to_json {ℓ} : {A : Type ℓ} → (A → Bytes) → List A → Bytes
unfolding elements
vector_to_json to_json [] = codes "[]"
vector_to_json to_json (v ∷ vs) = b'[' ∷ to_json v ++ (elements to_json vs ++ codes "]")

-- A reflected object: its members' names, with their values as text.
unfoldable pub members : List (Bytes × Bytes) → Bytes
unfolding string_to_json
members [] = []
members ((n, v) ∷ ms) = b',' ∷ string_to_json n ++ (b':' ∷ v ++ members ms)

unfoldable pub object_to_json : List (Bytes × Bytes) → Bytes
unfolding members string_to_json
object_to_json [] = codes "{}"
object_to_json ((n, v) ∷ ms) = b'{' ∷ string_to_json n ++ (b':' ∷ v ++ (members ms ++ codes "}"))

-- A `tagged_variant`: the text of its tag, and of its value unless its type is empty.
unfoldable pub variant_to_json : Bytes → Option Bytes → Bytes
unfolding string_to_json
variant_to_json key none = b'[' ∷ string_to_json key ++ codes "]"
variant_to_json key (some value) = b'[' ∷ string_to_json key ++ (b',' ∷ value ++ codes "]")

negative : int_to_json 4 (2 ^ 32 - 12) ≡ codes "-12"
unfolding int_to_json
negative = refl

wide : uint_to_json 8 (2 ^ 64 - 1) ≡ codes "\"18446744073709551615\""
unfolding uint_to_json
wide = refl

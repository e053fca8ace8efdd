-- ===== src/SqlConverter/Escape.antt =====
-- The escaping functions of src/abieos_sql_converter.cpp. Text is a sequence of bytes; a C++
-- `char` is signed, so that a byte from 128 on is below `' '`.
use history_tools.Common.{
  ℕ, ◌+◌, ◌/◌, ◌%◌, ◌≡◌, refl, Bool, true, false, ◌||◌, ◌++◌, [], ◌∷◌, ◌==◌, ltb, if◌then◌else◌,
  Bytes, codes,
}

-- `remove_trailing_question_mark`: the changed name, and whether a mark was removed.
unfoldable pub remove_trailing_question_mark : Bytes → Bytes × Bool
remove_trailing_question_mark [] = ([], false)
remove_trailing_question_mark (c ∷ []) = if c == b'?' then ([], true) else (c ∷ [], false)
remove_trailing_question_mark (c ∷ d ∷ s) =
    let (rest, removed) = remove_trailing_question_mark (d ∷ s) in (c ∷ rest, removed)

abbrev pub quote : ℕ
quote = b'"'

abbrev pub backslash : ℕ
backslash = b'\\'

unfoldable pub quote_name : Bytes → Bytes
quote_name x = quote ∷ x ++ quote ∷ []

unfoldable pub number_to_digit : ℕ → ℕ
number_to_digit i = i + b'0'

-- The `default` case of the switch.
octal_or_plain : ℕ → Bytes
unfolding number_to_digit
octal_or_plain c =
    if ltb c b' ' || ltb b'~' c
    then backslash
      ∷ number_to_digit (c / 64 % 8)
      ∷ number_to_digit (c / 8 % 8)
      ∷ number_to_digit (c % 8)
      ∷ []
    else c ∷ []

-- What one round of the loop of `escape_table_field` appends.
unfoldable pub escape_char : ℕ → Bytes
unfolding octal_or_plain
escape_char c =
    if c == 8
    then backslash ∷ b'b' ∷ []
    else if c == 12
    then backslash ∷ b'f' ∷ []
    else if c == 10
    then backslash ∷ b'n' ∷ []
    else if c == 13
    then backslash ∷ b'r' ∷ []
    else if c == 9
    then backslash ∷ b't' ∷ []
    else if c == 11
    then backslash ∷ b'v' ∷ []
    else if c == backslash
    then backslash ∷ backslash ∷ []
    else octal_or_plain c

unfoldable pub escape_table_field : Bytes → Bytes
unfolding escape_char
escape_table_field [] = []
escape_table_field (c ∷ s) = escape_char c ++ escape_table_field s

-- The loop of `escape_composite_field`.
unfoldable pub escape_quoted : Bytes → Bytes
escape_quoted [] = []
escape_quoted (c ∷ s) =
    (if c == backslash || c == quote then backslash ∷ c ∷ [] else c ∷ []) ++ escape_quoted s

unfoldable pub escape_composite_field : Bytes → Bytes
unfolding escape_quoted
escape_composite_field elem = quote ∷ escape_quoted elem ++ quote ∷ []

pub data FieldKind : Type 0 where
  table_field composite_field : FieldKind

unfoldable pub escape_field : Bytes → FieldKind → Bytes
escape_field elem FieldKind.table_field = escape_table_field elem
escape_field elem FieldKind.composite_field = escape_composite_field elem

tabs : escape_table_field (codes "a\tb" ++ 200 ∷ []) ≡ codes "a\\tb\\310"
unfolding escape_table_field
tabs = refl

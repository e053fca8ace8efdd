-- ===== src/SqlConverter/Escaped.antt =====
-- Escaped text can be read back, and holds nothing that would end a field early.
use history_tools.Common.{
  ℕ, ◌+◌, ◌-◌, ◌*◌, ◌<◌, ◌≤◌, ◌≡◌, refl, ap, ◌∙◌, Bool, true, false, ◌++◌, [], ◌∷◌, ◌==◌, ltb,
  if◌then◌else◌, Bytes, Option, none, some, arith, All, All-append, append_assoc, ◌⊎◌, inl, inr,
}
use history_tools.SqlConverter.Escape.{
  quote, backslash, escape_char, escape_table_field, escape_quoted, escape_composite_field,
}

-- The letter that follows a backslash in PostgreSQL's COPY text, as its manual lists them.
letter : ℕ → ℕ
letter d =
    if d == b'b'
    then 8
    else if d == b'f'
    then 12
    else if d == b'n'
    then 10
    else if d == b'r'
    then 13
    else if d == b't'
    then 9
    else if d == b'v'
    then 11
    else d

is_octal : ℕ → Bool
is_octal d = if ltb d b'0' then false else ltb d b'8'

-- How COPY reads a field: a backslash and three octal digits are a byte, a backslash and another
-- character are what `letter` says.
pub read_copy : Bytes → Bytes
read_copy [] = []
read_copy (c ∷ []) = c ∷ []
read_copy (c ∷ d ∷ []) = if c == backslash then letter d ∷ [] else c ∷ d ∷ []
read_copy (c ∷ d ∷ e ∷ []) =
    if c == backslash then letter d ∷ e ∷ [] else c ∷ read_copy (d ∷ e ∷ [])
read_copy (c ∷ d ∷ e ∷ f ∷ s) =
    if c == backslash
    then (if is_octal d
        then ((d - b'0') * 64 + (e - b'0') * 8 + (f - b'0')) ∷ read_copy s
        else letter d ∷ read_copy (e ∷ f ∷ s))
    else c ∷ read_copy (d ∷ e ∷ f ∷ s)

read_copy-escape_char :
    (c : ℕ) (s : Bytes) → c < 256 → read_copy (escape_char c ++ s) ≡ c ∷ read_copy s
unfolding read_copy escape_char letter is_octal
read_copy-escape_char c [] h = ground arith
read_copy-escape_char c (d ∷ []) h = ground arith
read_copy-escape_char c (d ∷ e ∷ []) h = ground arith
read_copy-escape_char c (d ∷ e ∷ f ∷ s) h = ground arith

-- COPY reads back every string of bytes from its escaped form.
pub read_copy-escape_table_field :
    (s : Bytes) → All (λ c. c < 256) s → read_copy (escape_table_field s) ≡ s
unfolding escape_table_field
read_copy-escape_table_field [] h = unfold read_copy in refl
read_copy-escape_table_field (c ∷ s) (hc, hs) =
    read_copy-escape_char c (escape_table_field s) hc
    ∙ ap (λ l. c ∷ l) (read_copy-escape_table_field s hs)

abbrev pub IsPrintable : ℕ → Type 0
IsPrintable c = (b' ' ≤ c) × (c ≤ b'~')

escape_char-IsPrintable : (c : ℕ) → c < 256 → All IsPrintable (escape_char c)
unfolding escape_char
escape_char-IsPrintable c h = ground arith

-- The escaped form of a string of bytes is printable ASCII: no tab ends its field early, and no
-- newline its row.
pub escape_table_field-IsPrintable :
    (s : Bytes) → All (λ c. c < 256) s → All IsPrintable (escape_table_field s)
unfolding escape_table_field
escape_table_field-IsPrintable [] h = tt
escape_table_field-IsPrintable (c ∷ s) (hc, hs) =
    All-append IsPrintable (escape_char c) (escape_table_field s) (escape_char-IsPrintable c hc)
      (escape_table_field-IsPrintable s hs)

prepend : ℕ → Option (Bytes × Bytes) → Option (Bytes × Bytes)
prepend c none = none
prepend c (some (t, rest)) = some (c ∷ t, rest)

-- Where the reader of a row's text is: outside of quotes, inside, behind a quote inside, and behind a
-- backslash outside or inside.
data Place : Type 0 where
  outside inside behind_quote escaped_outside escaped_inside : Place

ends_field : ℕ → Bool
ends_field c = if c == b',' then true else c == b')'

-- How PostgreSQL reads a field of a row's text (its manual, 8.16.6): a field ends at a comma or a
-- parenthesis outside of quotes; a quote opens or closes a quoted part, in which two quotes are one;
-- a backslash takes the character behind it as it is. It gives the field and what is left.
read_field : Place → Bytes → Option (Bytes × Bytes)
unfolding prepend ends_field
read_field p [] = none
read_field outside (c ∷ s) =
    let opened = read_field inside s in
    let taken = read_field escaped_outside s in
    let plain = prepend c (read_field outside s) in
    if ends_field c
    then some ([], c ∷ s)
    else if c == quote
    then opened
    else if c == backslash
    then taken
    else plain
read_field inside (c ∷ s) =
    let closed = read_field behind_quote s in
    let taken = read_field escaped_inside s in
    let plain = prepend c (read_field inside s) in
    if c == quote then closed else if c == backslash then taken else plain
read_field behind_quote (c ∷ s) =
    let doubled = prepend quote (read_field inside s) in
    let taken = read_field escaped_outside s in
    let plain = prepend c (read_field outside s) in
    if c == quote
    then doubled
    else if ends_field c
    then some ([], c ∷ s)
    else if c == backslash
    then taken
    else plain
read_field escaped_outside (c ∷ s) = prepend c (read_field outside s)
read_field escaped_inside (c ∷ s) = prepend c (read_field inside s)

pub read_composite : Bytes → Option (Bytes × Bytes)
unfolding read_field
read_composite s = read_field outside s

-- A comma or a closing parenthesis.
abbrev pub EndsField : ℕ → Type 0
EndsField d = (d ≡ b',') ⊎ (d ≡ b')')

ends-ends_field : (d : ℕ) → EndsField d → (ends_field d ≡ true) × ((d == quote) ≡ false)
unfolding ends_field
ends-ends_field d (inl e) = (ground arith, ground arith)
ends-ends_field d (inr e) = (ground arith, ground arith)

read_field-escape_quoted :
    (s rest : Bytes) (d : ℕ)
    → EndsField d
    → read_field inside (escape_quoted s ++ quote ∷ d ∷ rest) ≡ some (s, d ∷ rest)
unfolding read_field escape_quoted
read_field-escape_quoted [] rest d h = rw ((ends-ends_field d h).1, (ends-ends_field d h).0) refl
read_field-escape_quoted (c ∷ s) rest d h = ground (arith, read_field-escape_quoted s rest d h)

-- A row's text: a field in its quoted form, in front of the comma or the parenthesis that ends it, is
-- read back by PostgreSQL's rules, and what is left begins with that comma or parenthesis.
pub read_composite-escape_composite_field :
    (s rest : Bytes) (d : ℕ)
    → EndsField d
    → read_composite (escape_composite_field s ++ d ∷ rest) ≡ some (s, d ∷ rest)
unfolding read_composite escape_composite_field read_field
read_composite-escape_composite_field s rest d h =
    rw (append_assoc) (read_field-escape_quoted s rest d h)

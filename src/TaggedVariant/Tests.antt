-- ===== src/TaggedVariant/Tests.antt =====
-- A variant of two types, one of them empty, and the witness for tagged variants.
use history_tools.Common.{
  ℕ, zero, suc, ◌≡◌, ap, ◌∙◌, refl, true, false, List, [], ◌∷◌, Bytes, some, Result, ok, err, arith,
  ◌++◌,
}
use history_tools.TaggedVariant.{
  Stream, IsStream, TaggedType, TaggedVariant, deserialize, serialize, serialize_tag_as_name,
  serialize_tag_as_index,
}
use history_tools.TaggedVariant.RoundTrip.{HasOwnName, deserialize-serialize}

abbrev read_byte : Bytes → Result (ℕ × Bytes)
read_byte [] = err "no bytes left"
read_byte (c ∷ rest) = ok (c, rest)

abbrev write_byte : ℕ → Bytes
write_byte c = c ∷ []

-- Names and indexes of one byte.
abbrev stream : Stream
stream = record {
  read_name = read_byte;
  write_name = write_byte;
  read_unsigned_int = read_byte;
  write_unsigned_int = write_byte;
}

stream-IsStream : IsStream stream
stream-IsStream = record { name_back = λ n rest. refl; unsigned_int_back = λ n rest h. refl }

abbrev nothing : TaggedType ℕ
nothing = record {
  name = 7;
  type_is_empty = true;
  initial = 0;
  read = read_byte;
  write = write_byte;
}

abbrev number : TaggedType ℕ
number = record {
  name = 9;
  type_is_empty = false;
  initial = 0;
  read = read_byte;
  write = write_byte;
}

abbrev types : List (TaggedType ℕ)
types = nothing ∷ number ∷ []

abbrev five : TaggedVariant ℕ
five = record { index = 1; value = 5 }

not_nine : nothing.name ≡ number.name → ⊥
not_nine e = omega arith

some_injective : {A : Type 0} {a b : A} → some a ≡ some b → a ≡ b
some_injective e = cc

own_name : HasOwnName types 1 9
own_name zero t g e =
    let same : nothing ≡ t = some_injective g in
    absurd (not_nine (ap (λ (u : TaggedType ℕ). u.name) same ∙ e))
own_name (suc zero) t g e = refl
own_name (suc (suc j)) t g e = absurd (cc)

by_index : serialize stream serialize_tag_as_index types five ≡ 1 ∷ 5 ∷ []
unfolding serialize
by_index = refl

deserialize-serialize_example :
    deserialize stream serialize_tag_as_name types
      (serialize stream serialize_tag_as_name types five ++ 3 ∷ [])
    ≡ ok (five, 3 ∷ [])
deserialize-serialize_example =
    deserialize-serialize stream serialize_tag_as_name types five number (3 ∷ []) stream-IsStream
      refl own_name (omega arith) (λ rest. refl)

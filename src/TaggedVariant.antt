-- ===== src/TaggedVariant.antt =====
-- libraries/eosiolib/wasmql/eosio/tagged_variant.hpp: the binary form of a variant whose types have
-- names. A variant's value is the index of its type and the value of that type.
mod RoundTrip
mod Tests
use history_tools.Common.{
  ℕ, ◌+◌, ◌<◌, ◌^◌, ◌≡◌, Bool, ◌++◌, List, [], ◌∷◌, if◌then◌else◌, Bytes, Option, none, some,
  Result, ok, err, ◌>>=◌, ◌==◌, get_elem?,
}

-- How a stream reads and writes a name and an `unsigned_int`.
pub record Stream : Type 0 where
  pub read_name : Bytes → Result (ℕ × Bytes)
  pub write_name : ℕ → Bytes
  pub read_unsigned_int : Bytes → Result (ℕ × Bytes)
  pub write_unsigned_int : ℕ → Bytes

-- What is written is read back, where an `unsigned_int` has the bits of a `uint32_t`.
pub record IsStream (s : Stream) : Type 0 where
  pub name_back : (n : ℕ) (rest : Bytes) → s.read_name (s.write_name n ++ rest) ≡ ok (n, rest)
  pub unsigned_int_back :
      (n : ℕ) (rest : Bytes)
      → n < 2 ^ 32
      → s.read_unsigned_int (s.write_unsigned_int n ++ rest) ≡ ok (n, rest)

-- `tagged_type` and, where `type_is_empty`, `tagged_empty_type`: `V` holds the values of all types,
-- `initial` is the value that `emplace` makes.
pub record TaggedType (V : Type 0) : Type 0 where
  pub name : ℕ
  pub type_is_empty : Bool
  pub initial : V
  pub read : Bytes → Result (V × Bytes)
  pub write : V → Bytes

pub data TaggedVariantOptions : Type 0 where
  serialize_tag_as_name serialize_tag_as_index : TaggedVariantOptions

pub record TaggedVariant (V : Type 0) : Type 0 where
  pub index : ℕ
  pub value : V

module _ {V : Type 0} where
  unfoldable pub emplace : ℕ → TaggedType V → Bytes → Result (TaggedVariant V × Bytes)
  emplace i t ds =
      if t.type_is_empty
      then ok (record { index = i; value = t.initial }, ds)
      else (do x ← t.read ds; ok (record { index = i; value = x.0 }, x.1))

  -- The types from the one numbered `at` on.
  unfoldable pub deserialize_named_variant_impl :
      List (TaggedType V) → ℕ → ℕ → Bytes → Result (TaggedVariant V × Bytes)
  unfolding emplace
  deserialize_named_variant_impl [] at i ds = err "invalid variant index"
  deserialize_named_variant_impl (t ∷ types) at i ds =
      if i == at then emplace at t ds else deserialize_named_variant_impl types (at + 1) i ds

  -- The loop over `keys`, from the one numbered `at` on.
  unfoldable pub find_key : List (TaggedType V) → ℕ → ℕ → Option ℕ
  find_key [] at name = none
  find_key (t ∷ types) at name = if name == t.name then some at else find_key types (at + 1) name

  unfoldable pub read_at : List (TaggedType V) → Option ℕ → Bytes → Result (TaggedVariant V × Bytes)
  unfolding deserialize_named_variant_impl
  read_at types none ds = err "invalid variant index name"
  read_at types (some i) ds = deserialize_named_variant_impl types 0 i ds

  -- `operator>>`
  unfoldable pub deserialize :
      Stream → TaggedVariantOptions → List (TaggedType V) → Bytes → Result (TaggedVariant V × Bytes)
  unfolding find_key read_at
  deserialize s serialize_tag_as_name types ds = do
    name ← s.read_name ds
    read_at types (find_key types 0 name.0) name.1
  deserialize s serialize_tag_as_index types ds = do
    i ← s.read_unsigned_int ds
    deserialize_named_variant_impl types 0 i.0 i.1

  -- The tag, and the value of a type that is not empty.
  unfoldable pub write_tagged :
      Stream → TaggedVariantOptions → TaggedType V → TaggedVariant V → Bytes
  write_tagged s serialize_tag_as_name t v =
      s.write_name t.name ++ (if t.type_is_empty then [] else t.write v.value)
  write_tagged s serialize_tag_as_index t v =
      s.write_unsigned_int v.index ++ (if t.type_is_empty then [] else t.write v.value)

  -- `operator<<`. The index of a variant is that of one of its types.
  unfoldable pub serialize :
      Stream → TaggedVariantOptions → List (TaggedType V) → TaggedVariant V → Bytes
  unfolding write_tagged
  serialize s options types v = elim (get_elem? types v.index) [
    | none ↦ []
    | some t ↦ write_tagged s options t v
  ]

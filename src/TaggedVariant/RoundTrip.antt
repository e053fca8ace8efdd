-- ===== src/TaggedVariant/RoundTrip.antt =====
-- A tagged variant that `operator<<` writes is read back by `operator>>`.
use history_tools.Common.{
  ℕ, zero, suc, ◌+◌, ◌<◌, ◌^◌, ◌≡◌, refl, ap, ◌∙◌, sym, true, ◌++◌, List, [], ◌∷◌, if◌then◌else◌,
  Bytes, Option, none, some, ok, arith, ◌==◌, append_assoc, Bool-cases, inl, inr, get_elem?,
}
use history_tools.TaggedVariant.{
  Stream, IsStream, TaggedType, TaggedVariant, TaggedVariantOptions, emplace,
  deserialize_named_variant_impl, find_key, read_at, deserialize, write_tagged, serialize,
  serialize_tag_as_name, serialize_tag_as_index,
}

name_eq : (a b : ℕ) → (b == a) ≡ true → a ≡ b
name_eq a b h = ground arith

pred_eq : (j i : ℕ) → suc j ≡ suc i → j ≡ i
pred_eq j i e = omega arith

first_is_not_later : (i : ℕ) → 0 ≡ suc i → ⊥
first_is_not_later i e = omega arith

module _ {V : Type 0} where
  abbrev name_of : TaggedType V → Option (TaggedType V) → ℕ
  name_of t none = t.name
  name_of t (some u) = u.name

  -- No other type has the name of the one at an index.
  abbrev pub HasOwnName : List (TaggedType V) → ℕ → ℕ → Type 0
  HasOwnName types i name =
      (j : ℕ) (t : TaggedType V) → get_elem? types j ≡ some t → t.name ≡ name → j ≡ i

  -- A value that its type reads back, or the one value of an empty type.
  abbrev pub IsReadBack : TaggedType V → V → Type 0
  IsReadBack t x =
      if t.type_is_empty
      then x ≡ t.initial
      else ((rest : Bytes) → t.read (t.write x ++ rest) ≡ ok (x, rest))

  deserialize_named_variant_impl-at :
      (types : List (TaggedType V)) (at i k : ℕ) (t : TaggedType V) (ds : Bytes)
      → k ≡ at + i
      → get_elem? types i ≡ some t
      → deserialize_named_variant_impl types at k ds ≡ emplace k t ds
  unfolding deserialize_named_variant_impl
  deserialize_named_variant_impl-at [] at i k t ds e g = absurd (cc)
  deserialize_named_variant_impl-at (u ∷ types) at zero k t ds e g =
      let same : k ≡ at = omega arith in ground arith
  deserialize_named_variant_impl-at (u ∷ types) at (suc i) k t ds e g =
      ground (arith, deserialize_named_variant_impl-at types (at + 1) i k t ds (omega arith) g)

  find_key-at :
      (types : List (TaggedType V)) (at i : ℕ) (t : TaggedType V)
      → get_elem? types i ≡ some t
      → HasOwnName types i t.name
      → find_key types at t.name ≡ some (at + i)
  unfolding find_key
  find_key-at [] at i t g own = absurd (cc)
  find_key-at (u ∷ types) at zero t g own =
      let same : u.name ≡ t.name = ap (λ (z : Option (TaggedType V)). name_of t z) g in ground arith
  find_key-at (u ∷ types) at (suc i) t g own = elim (Bool-cases (t.name == u.name)) [
    | inl here ↦ absurd (first_is_not_later i (own 0 u refl (name_eq u.name t.name here)))
    | inr other ↦ rw other (
        find_key-at types (at + 1) i t g (λ j b h e. pred_eq j i (own (suc j) b h e))
        ∙ ap some (omega arith))
  ]

  abbrev body : TaggedType V → V → Bytes
  body t x = if t.type_is_empty then [] else t.write x

  emplace-write :
      (i : ℕ) (t : TaggedType V) (x : V) (rest : Bytes)
      → IsReadBack t x
      → emplace i t ((if t.type_is_empty then [] else t.write x) ++ rest)
        ≡ ok (record { index = i; value = x }, rest)
  unfolding emplace
  emplace-write i t x rest h = elim (Bool-cases t.type_is_empty) [
    | inl empty ↦
        let same : x ≡ t.initial = rw empty at h in
        rw empty (λ k. ok (record { index = i; value = sym same k }, rest))
    | inr full ↦
        let back : (rest : Bytes) → t.read (t.write x ++ rest) ≡ ok (x, rest) = rw full at h in
        rw (full, back rest) refl
  ]

  serialize-at :
      (s : Stream) (options : TaggedVariantOptions) (types : List (TaggedType V))
      (v : TaggedVariant V) (t : TaggedType V)
      → get_elem? types v.index ≡ some t
      → serialize s options types v ≡ write_tagged s options t v
  unfolding serialize
  serialize-at s options types v t g = rw (serialize, g) refl

  -- A variant that is written, with any bytes behind it, is read back, and the bytes are left: if the
  -- stream reads back names and indexes, no other type has the name of the variant's, there are fewer
  -- than 2 ^ 32 types, and the type reads back its value.
  pub deserialize-serialize :
      (s : Stream) (options : TaggedVariantOptions) (types : List (TaggedType V))
      (v : TaggedVariant V) (t : TaggedType V) (rest : Bytes)
      → IsStream s
      → get_elem? types v.index ≡ some t
      → HasOwnName types v.index t.name
      → v.index < 2 ^ 32
      → IsReadBack t v.value
      → deserialize s options types (serialize s options types v ++ rest) ≡ ok (v, rest)
  unfolding deserialize serialize write_tagged read_at
  deserialize-serialize s serialize_tag_as_name types v t rest laws g own small h =
      rw
        (
          serialize-at s serialize_tag_as_name types v t g,
          append_assoc (s.write_name t.name) (body t v.value) rest,
          laws.name_back t.name (body t v.value ++ rest),
          find_key-at types 0 v.index t g own,
          deserialize_named_variant_impl-at types 0 v.index (0 + v.index) t (body t v.value ++ rest)
              refl g,
        )
        (ap (λ k. emplace k t (body t v.value ++ rest)) (omega arith)
          ∙ emplace-write v.index t v.value rest h)
  deserialize-serialize s serialize_tag_as_index types v t rest laws g own small h =
      rw
        (
          serialize-at s serialize_tag_as_index types v t g,
          append_assoc (s.write_unsigned_int v.index) (body t v.value) rest,
          laws.unsigned_int_back v.index (body t v.value ++ rest) small,
          deserialize_named_variant_impl-at types 0 v.index v.index t (body t v.value ++ rest)
              (omega arith) g,
        )
        (emplace-write v.index t v.value rest h)

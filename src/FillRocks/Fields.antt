-- ===== src/FillRocks/Fields.antt =====
-- `fill_fields`, which makes the fields of a table of those of an ABI type, and `fill`, which reads
-- a row by them.
use history_tools.Common.{
  ℕ, zero, suc, ◌++◌, Bool, true, false, List, [], ◌∷◌, ◌||◌, if◌then◌else◌, Bytes, codes, Option,
  none, some, Result, ok, ◌>>=◌, ◌>>◌, throw_if, or_throw, ◌==◌,
}
use history_tools.Kv.Types.{KvType, bin_to_bin, abi_type_to_kv_type}
use history_tools.SqlConverter.Types.{AbiType, Fields, bytes_eq, type_name}
use history_tools.FillRocks.State.{RocksField, RocksFields, Serial}

abbrev pub field_name : RocksField → Bytes
field_name (RocksField.plain n t k) = n
field_name (RocksField.array_of n t fs) = n
field_name (RocksField.optional_of n t fs) = n

-- `field_map.find(name) != end()`
unfoldable pub has_field : Bytes → RocksFields → Bool
has_field n RocksFields.no_fields = false
has_field n (RocksFields.field f fs) = bytes_eq (field_name f) n || has_field n fs

unfoldable pub push_back : RocksFields → RocksField → RocksFields
push_back RocksFields.no_fields g = RocksFields.field g RocksFields.no_fields
push_back (RocksFields.field f fs) g = RocksFields.field f (push_back fs g)

unfoldable pub find_kv_type : Bytes → List (Bytes × KvType) → Option KvType
find_kv_type n [] = none
find_kv_type n ((m, t) ∷ types) = if bytes_eq m n then some t else find_kv_type n types

-- `raw_type`: below an optional type, and below an array.
abbrev pub below_array : AbiType → AbiType
below_array (AbiType.array_of n t) = t
below_array t = t

abbrev pub raw_type : AbiType → AbiType
raw_type (AbiType.optional_of n t) = below_array t
raw_type t = below_array t

-- A field that holds no struct.
unfoldable pub plain_field : Bytes → AbiType → RocksFields → Result RocksFields
unfolding has_field push_back find_kv_type
plain_field name type table = do
  throw_if (has_field name table) "duplicate field"
  k ←
      or_throw (find_kv_type (type_name (raw_type type)) abi_type_to_kv_type)
        "don't know rocksdb type for abi type"
  ok (push_back table (RocksField.plain name type k))

-- A field with a table of its own, which is filled behind the check of the field's name.
unfoldable pub nested_field :
    Bytes → (RocksFields → RocksField) → Result RocksFields → RocksFields → Result RocksFields
unfolding has_field push_back
nested_field name make nested table = do
  throw_if (has_field name table) "duplicate field"
  fs ← nested
  ok (push_back table (make fs))

unfoldable mutual
  pub fill_fields : Bytes → Bytes → AbiType → RocksFields → Result RocksFields
  fill_fields base name (AbiType.struct_ n fs) table =
      fill_all_fields (base ++ (name ++ codes "_")) fs table
  fill_fields base name (AbiType.variant n (Fields.field f (AbiType.struct_ m gs) Fields.no_fields))
        table =
      fill_all_fields (base ++ (name ++ codes "_")) gs table
  fill_fields base name (AbiType.array_of n (AbiType.struct_ m gs)) table =
      nested_field (base ++ name)
        (RocksField.array_of (base ++ name) (AbiType.array_of n (AbiType.struct_ m gs)))
        (fill_all_fields base gs RocksFields.no_fields) table
  fill_fields base name
        (AbiType.array_of n
          (AbiType.variant m (Fields.field f (AbiType.struct_ k gs) Fields.no_fields)))
        table =
      nested_field (base ++ name)
        (RocksField.array_of (base ++ name) (
          AbiType.array_of n
            (AbiType.variant m (Fields.field f (AbiType.struct_ k gs) Fields.no_fields))))
        (fill_all_fields base gs RocksFields.no_fields) table
  fill_fields base name (AbiType.optional_of n (AbiType.struct_ m gs)) table =
      nested_field (base ++ name)
        (RocksField.optional_of (base ++ name) (AbiType.optional_of n (AbiType.struct_ m gs)))
        (fill_all_fields base gs RocksFields.no_fields) table
  fill_fields base name type table = plain_field (base ++ name) type table

  pub fill_all_fields : Bytes → Fields → RocksFields → Result RocksFields
  fill_all_fields base Fields.no_fields table = ok table
  fill_all_fields base (Fields.field name t fs) table =
      fill_fields base name t table >>= λ table'. fill_all_fields base fs table'

-- `fields[0]` of a variant with one alternative, if that is a struct.
abbrev pub is_variant_of_struct : AbiType → Bool
is_variant_of_struct (AbiType.variant n (Fields.field f (AbiType.struct_ m gs) Fields.no_fields)) =
    true
is_variant_of_struct t = false

abbrev pub is_optional : AbiType → Bool
is_optional (AbiType.optional_of n t) = true
is_optional t = false

-- The index of a variant, where `fill` is called on a field of such a type.
unfoldable pub fill_index : Serial → Bytes → Result (Bytes × Bytes)
fill_index n src = do
  (v, rest) ← n.abieos.bin_to_varuint32 src
  throw_if (if v == 0 then false else true) "invalid variant in"
  ok (n.varuint32_to_bin v, rest)

-- A value of a kv type, behind the flag of an optional one. Every kv type has a `bin_to_bin`.
unfoldable pub fill_plain : Serial → AbiType → KvType → Bytes → Result (Bytes × Bytes)
fill_plain n type k src =
    if is_optional type
    then (n.abieos.bin_to_bool src >>= λ (exists, rest).
        (if exists
          then (bin_to_bin n.abieos k rest >>= λ (out, rest').
              ok (n.abieos.uint_to_bin 1 1 ++ out, rest'))
          else ok (n.abieos.uint_to_bin 1 0, rest)))
    else bin_to_bin n.abieos k src

-- The elements of an array, each read by `element`.
unfoldable pub fill_elements : (Bytes → Result (Bytes × Bytes)) → ℕ → Bytes → Result (Bytes × Bytes)
fill_elements element zero src = ok ([], src)
fill_elements element (suc n) src = do
  (out, rest) ← element src
  (more, rest') ← fill_elements element n rest
  ok (out ++ more, rest')

-- The calls of `fill` give what they append to `dest`, and the rest of `src`. The first test of
-- `fill`, for a variant of one struct, goes before the kind of the field.
unfoldable mutual
  unfolding fill_plain fill_index fill_elements

  pub fill : Serial → RocksField → Bytes → Result (Bytes × Bytes)
  fill n (RocksField.plain name type k) src =
      if is_variant_of_struct type then fill_index n src else fill_plain n type k src
  fill n (RocksField.optional_of name type fs) src =
      if is_variant_of_struct type
      then fill_index n src
      else n.abieos.bin_to_bool src >>= λ (b, rest).
          (if b
            then (fill_all n fs rest >>= λ (out, rest').
                ok (n.abieos.uint_to_bin 1 1 ++ out, rest'))
            else ok (n.abieos.uint_to_bin 1 0, rest))
  fill n (RocksField.array_of name type fs) src =
      if is_variant_of_struct type
      then fill_index n src
      else n.abieos.bin_to_varuint32 src >>= λ (size, rest).
          fill_elements (fill_all n fs) size rest >>= λ (out, rest').
          ok (n.varuint32_to_bin size ++ out, rest')

  pub fill_all : Serial → RocksFields → Bytes → Result (Bytes × Bytes)
  fill_all n RocksFields.no_fields src = ok ([], src)
  fill_all n (RocksFields.field f fs) src = do
    (out, rest) ← fill n f src
    (more, rest') ← fill_all n fs rest
    ok (out ++ more, rest')

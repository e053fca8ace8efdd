-- ===== src/Kv/Types.antt =====
-- The types of src/state_history_kv.hpp and their nine operations. A function template over `T` is
-- a function of the type's name; `if constexpr` is a test of it.
use history_tools.Common.{
  ℕ, Bool, true, false, ◌++◌, List, [], ◌∷◌, reverse, if◌then◌else◌, Bytes, codes, Result, ok, err,
  ◌>>=◌, ltb, length, drop, replicate,
}

-- The instances of `make_type_for`.
pub data KvType : Type 0 where
  bool varuint32 uint8 uint16 uint32 optional_uint32 uint64 uint128 : KvType
  int8 int16 int32 int64 int128 float64 float128 name string time_point : KvType
  time_point_sec block_timestamp checksum256 public_key bytes transaction_status : KvType

-- What the functions call of abieos. `transcode T` is `native_to_bin(bin_to_native<T>(bin))`: the
-- bytes that it writes, and the rest of the input. `uint_to_bin` and `bin_to_uint` are the same two
-- for an unsigned number of a size in bytes, and `name_value` is the literal `"…"_n`.
pub record Abieos : Type 0 where
  pub transcode : KvType → Bytes → Result (Bytes × Bytes)
  pub uint_to_bin : ℕ → ℕ → Bytes
  pub bin_to_uint : ℕ → Bytes → Result (ℕ × Bytes)
  pub bin_to_varuint32 : Bytes → Result (ℕ × Bytes)
  pub bin_to_bool : Bytes → Result (Bool × Bytes)
  pub name_value : Bytes → ℕ

-- `sizeof(T)`, for the types that it is asked of.
abbrev pub size_of : KvType → ℕ
size_of KvType.bool = 1
size_of KvType.uint8 = 1
size_of KvType.int8 = 1
size_of KvType.transaction_status = 1
size_of KvType.uint16 = 2
size_of KvType.int16 = 2
size_of KvType.uint32 = 4
size_of KvType.int32 = 4
size_of KvType.block_timestamp = 4
size_of KvType.uint64 = 8
size_of KvType.int64 = 8
size_of KvType.name = 8
size_of KvType.time_point = 8
size_of KvType.uint128 = 16
size_of KvType.checksum256 = 32
size_of t = 0

-- `std::is_unsigned_v<T>`, `name`, `uint128` and `checksum256`: the types that a key may hold.
abbrev pub is_key_type : KvType → Bool
is_key_type KvType.bool = true
is_key_type KvType.uint8 = true
is_key_type KvType.uint16 = true
is_key_type KvType.uint32 = true
is_key_type KvType.uint64 = true
is_key_type KvType.name = true
is_key_type KvType.uint128 = true
is_key_type KvType.checksum256 = true
is_key_type t = false

-- `std::is_integral_v<T>`, `name`, `uint128`, `checksum256`, `time_point` and `block_timestamp`.
abbrev pub has_zero : KvType → Bool
has_zero KvType.bool = true
has_zero KvType.uint8 = true
has_zero KvType.uint16 = true
has_zero KvType.uint32 = true
has_zero KvType.uint64 = true
has_zero KvType.int8 = true
has_zero KvType.int16 = true
has_zero KvType.int32 = true
has_zero KvType.int64 = true
has_zero KvType.name = true
has_zero KvType.uint128 = true
has_zero KvType.checksum256 = true
has_zero KvType.time_point = true
has_zero KvType.block_timestamp = true
has_zero t = false

-- The types whose values `skip_bin` and `skip_key` pass over by their size.
abbrev pub is_fixed : KvType → Bool
is_fixed KvType.transaction_status = true
is_fixed KvType.bool = true
is_fixed t = has_zero t

module _ (a : Abieos) where
  -- `bin_to_bin<T>`, with its three specialisations. What it appends to `dest`, and the rest.
  unfoldable pub bin_to_bin : KvType → Bytes → Result (Bytes × Bytes)
  bin_to_bin KvType.uint128 bin = do
    (low, bin') ← a.transcode KvType.uint64 bin
    (high, rest) ← a.transcode KvType.uint64 bin'
    ok (low ++ high, rest)
  bin_to_bin KvType.int128 bin = do
    (low, bin') ← a.transcode KvType.uint64 bin
    (high, rest) ← a.transcode KvType.uint64 bin'
    ok (low ++ high, rest)
  bin_to_bin KvType.transaction_status bin = a.transcode KvType.uint8 bin
  bin_to_bin t bin = a.transcode t bin

  -- `fixup_key<T>`: what the function appends is reversed.
  unfoldable pub fixup_key :
      KvType → (Bytes → Result (Bytes × Bytes)) → Bytes → Result (Bytes × Bytes)
  fixup_key t f bin =
      if is_key_type t
      then (do (out, rest) ← f bin; ok (reverse out, rest))
      else err "unsupported key type"

  unfoldable pub bin_to_key : KvType → Bytes → Result (Bytes × Bytes)
  unfolding fixup_key bin_to_bin
  bin_to_key KvType.varuint32 bin = do
    (value, rest) ← a.bin_to_varuint32 bin
    ok (reverse (a.uint_to_bin 4 value), rest)
  bin_to_key t bin = fixup_key t (bin_to_bin t) bin

  unfoldable pub key_to_key : KvType → Bytes → Result (Bytes × Bytes)
  unfolding bin_to_bin
  key_to_key KvType.varuint32 bin = bin_to_bin KvType.uint32 bin
  key_to_key t bin = bin_to_bin t bin

  unfoldable pub query_to_key : KvType → Bytes → Result (Bytes × Bytes)
  unfolding fixup_key bin_to_bin
  query_to_key KvType.varuint32 bin = fixup_key KvType.uint32 (bin_to_bin KvType.uint32) bin
  query_to_key t bin = fixup_key t (bin_to_bin t) bin

  -- Whether the value was passed over, and what follows it.
  unfoldable pub skip_bin : KvType → Bytes → Result (Bool × Bytes)
  skip_bin KvType.varuint32 bin = elim (a.bin_to_varuint32 bin) [
    | ok (dummy, rest) ↦ ok (true, rest)
    | err e ↦ err "skip past end"
  ]
  skip_bin t bin =
      if is_fixed t
      then (if ltb (length bin) (size_of t)
          then err "skip past end"
          else ok (true, drop (size_of t) bin))
      else ok (false, bin)

-- What `lower_bound_key<T>` and `upper_bound_key<T>` append.
unfoldable pub lower_bound_key : KvType → Result Bytes
lower_bound_key t =
    if is_key_type t then ok (replicate (size_of t) 0) else err "unsupported key type"

unfoldable pub upper_bound_key : KvType → Result Bytes
upper_bound_key t =
    if is_key_type t then ok (replicate (size_of t) 255) else err "unsupported key type"

-- `skip_key<T>`: a `varuint32` is a `uint32` in a key.
unfoldable pub skip_key : KvType → Bytes → Result (Bool × Bytes)
skip_key KvType.varuint32 bin =
    if ltb (length bin) 4 then err "skip past end" else ok (true, drop 4 bin)
skip_key t bin =
    if is_fixed t
    then (if ltb (length bin) (size_of t)
        then err "skip past end"
        else ok (true, drop (size_of t) bin))
    else ok (false, bin)

unfoldable pub fill_empty : KvType → Result Bytes
fill_empty KvType.bytes = ok (0 ∷ [])
fill_empty t =
    if has_zero t then ok (replicate (size_of t) 0) else err "unsupported fill_empty type"

-- `abi_type_to_kv_type`, in the order of the map's initialiser.
abbrev pub abi_type_to_kv_type : List (Bytes × KvType)
abi_type_to_kv_type =
    (codes "bool", KvType.bool)
    ∷ (codes "varuint32", KvType.varuint32)
    ∷ (codes "uint8", KvType.uint8)
    ∷ (codes "uint16", KvType.uint16)
    ∷ (codes "uint32", KvType.uint32)
    ∷ (codes "uint32?", KvType.optional_uint32)
    ∷ (codes "uint64", KvType.uint64)
    ∷ (codes "uint128", KvType.uint128)
    ∷ (codes "int8", KvType.int8)
    ∷ (codes "int16", KvType.int16)
    ∷ (codes "int32", KvType.int32)
    ∷ (codes "int64", KvType.int64)
    ∷ (codes "int128", KvType.int128)
    ∷ (codes "float64", KvType.float64)
    ∷ (codes "float128", KvType.float128)
    ∷ (codes "name", KvType.name)
    ∷ (codes "string", KvType.string)
    ∷ (codes "time_point", KvType.time_point)
    ∷ (codes "time_point_sec", KvType.time_point_sec)
    ∷ (codes "block_timestamp_type", KvType.block_timestamp)
    ∷ (codes "checksum256", KvType.checksum256)
    ∷ (codes "public_key", KvType.public_key)
    ∷ (codes "bytes", KvType.bytes)
    ∷ (codes "transaction_status", KvType.transaction_status)
    ∷ []

-- ===== src/Kv/Positions.antt =====
-- Where the fields of a row stand, and keys made of them: from `init_positions` to
-- `extract_pk_from_index` of src/state_history_kv.hpp. An `input_buffer` is what is left of a buffer,
-- with the offset of its `pos` from `begin`.
use history_tools.Common.{
  ℕ, ◌+◌, ◌-◌, Bool, true, false, ◌++◌, ◌||◌, List, [], ◌∷◌, if◌then◌else◌, Bytes, Option, none,
  some, Result, ok, ◌>>=◌, ◌>>◌, ltb, length, drop, replicate, set, get_elem?, or_throw, check,
}
use history_tools.Kv.Types.{KvType, Abieos, skip_bin, skip_key, bin_to_key, key_to_key}
use history_tools.Kv.Keys.{append_table_key, read_index_suffix}

-- `defs::field`; a key is the field that it points to.
pub record Field : Type 0 where
  pub type_obj : KvType
  pub begin_optional : Bool
  pub end_optional : Bool
  pub field_index : ℕ

-- The parts of `kv::table` that the functions read.
pub record Table : Type 0 where
  pub short_name : ℕ
  pub fields : List Field
  pub keys : List Field

abbrev pub Positions : Type 0
Positions = List (Option ℕ)

unfoldable pub init_positions : ℕ → Positions
init_positions size = replicate size none

-- `positions.at(field_index) = value`
unfoldable pub set_position : Field → ℕ → Positions → Result Positions
set_position f offset positions = do
  check (ltb f.field_index (length positions)) "vector::at"
  ok (set positions f.field_index (some offset))

-- The state of the loop of `fill_positions_impl`: `present`, the positions, and `src`.
pub record Scan : Type 0 where
  pub present : Bool
  pub positions : Positions
  pub offset : ℕ
  pub src : Bytes

abbrev pub advance_to : Bytes → Scan → Scan
advance_to rest s = record s { offset = s.offset + (length s.src - length rest); src = rest }

module _ (a : Abieos) where
  skip_field : Bool → KvType → Bytes → Result (Bool × Bytes)
  skip_field is_key t src = if is_key then skip_key t src else skip_bin a t src

  -- `field.begin_optional`: the flag in front of an optional field.
  unfoldable pub optional_step : Scan → Result (Bool × Scan)
  optional_step s = do
    (present, rest) ← a.bin_to_bool s.src
    ok (true, record (advance_to rest s) { present = present })

  -- A field whose value is there: it is passed over, or the loop ends.
  unfoldable pub skip_step : Bool → Field → Scan → Result (Bool × Scan)
  unfolding skip_field
  skip_step is_key f s = do
    (skipped, rest) ← skip_field is_key f.type_obj s.src
    ok (
      skipped,
      (if skipped then record (advance_to rest s) { present = s.present || f.end_optional } else s),
    )

  unfoldable pub mark_position : Field → Scan → Result Scan
  mark_position f s = do
    positions ← (if s.present then set_position f s.offset s.positions else ok s.positions)
    ok (record s { positions = positions })

  -- The lambda of `fill_positions_impl`: whether the loop goes on, and the state.
  unfoldable pub position_step : Bool → Field → Scan → Result (Bool × Scan)
  unfolding optional_step skip_step mark_position
  position_step is_key f s = do
    s1 ← mark_position f s
    (if f.begin_optional
        then optional_step s1
        else (if s.present
            then skip_step is_key f s1
            else ok (true, record s1 { present = f.end_optional })))

  unfoldable pub fill_positions_loop : Bool → List Field → Scan → Result Scan
  fill_positions_loop is_key [] s = ok s
  fill_positions_loop is_key (f ∷ fields) s = position_step is_key f s >>= λ (more, s').
      if more then fill_positions_loop is_key fields s' else ok s'

  -- `fill_positions_rw`, over the fields of a value or over the keys of an index.
  unfoldable pub fill_positions_rw :
      Bool → ℕ → Bytes → List Field → Positions → Result (Positions × ℕ × Bytes)
  fill_positions_rw is_key offset src fields positions = do
    s ←
        fill_positions_loop is_key fields
          (record { present = true; positions = positions; offset = offset; src = src })
    ok (s.positions, s.offset, s.src)

  -- `fill_positions`
  unfoldable pub fill_positions : Bool → Bytes → List Field → Positions → Result Positions
  fill_positions is_key src fields positions = do
    (positions', _, _) ← fill_positions_rw is_key 0 src fields positions
    ok positions'

  -- `positions.at(field_index)`
  unfoldable pub position_of : Field → Positions → Result (Option ℕ)
  position_of f positions = or_throw (get_elem? positions f.field_index) "vector::at"

  unfoldable pub keys_have_positions : List Field → Positions → Result Bool
  keys_have_positions [] positions = ok true
  keys_have_positions (k ∷ keys) positions = do
    p ← position_of k positions
    elim p [ none ↦ ok false | some _ ↦ keys_have_positions keys positions ]

  -- What `extract_keys` appends.
  unfoldable pub extract_keys : Bytes → List Field → Positions → Result Bytes
  extract_keys value [] positions = ok []
  extract_keys value (k ∷ keys) positions = do
    p ← position_of k positions
    offset ← or_throw p "key fields are missing"
    (out, _) ← bin_to_key a k.type_obj (drop offset value)
    more ← extract_keys value keys positions
    ok (out ++ more)

  -- The block and `present_k` of an index key, the positions, and the offset of the suffix.
  unfoldable pub fill_positions_from_index :
      Bytes → List Field → Positions → Result (ℕ × Bool × Positions × ℕ)
  fill_positions_from_index index index_keys positions = do
    (_, index1) ← skip_key KvType.uint8 index
    (_, index2) ← skip_key KvType.name index1
    (_, index3) ← skip_key KvType.name index2
    (positions', offset, src) ← fill_positions_rw true 17 index3 index_keys positions
    (block, present_k, _) ← read_index_suffix a src
    ok (block, present_k, positions', offset)

  unfoldable pub extract_pk_fields : Bytes → List Field → Positions → Result Bytes
  extract_pk_fields index [] positions = ok []
  extract_pk_fields index (k ∷ keys) positions = do
    p ← position_of k positions
    offset ← or_throw p "secondary index is missing pk fields"
    (out, _) ← key_to_key a k.type_obj (drop offset index)
    more ← extract_pk_fields index keys positions
    ok (out ++ more)

  unfoldable pub extract_pk : Bytes → Table → ℕ → Bool → Positions → Result Bytes
  unfolding extract_pk_fields
  extract_pk index table block present_k positions = do
    fields ← extract_pk_fields index table.keys positions
    ok (append_table_key a block present_k table.short_name ++ fields)

  unfoldable pub extract_pk_from_index : Bytes → Table → List Field → Result Bytes
  extract_pk_from_index index table index_keys = do
    (block, present_k, positions, _) ←
        fill_positions_from_index index index_keys (init_positions (length table.fields))
    extract_pk index table block present_k positions

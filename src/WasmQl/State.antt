-- ===== src/WasmQl/State.antt =====
-- What src/wasm_ql.cpp works on: `thread_state` of src/wasm_ql.hpp, the interfaces `query_session`
-- and `database_interface` of src/wasm_ql_plugin.hpp, and a call that changes the state and may throw.
use history_tools.Common.{
  ℕ, Bool, true, false, List, Bytes, Option, none, some, Result, ok, err, String,
}
use history_tools.History.{FillStatus}

-- A range of the program's memory: its two ends, and what stands between them.
pub record Range : Type 0 where
  pub begin : ℕ
  pub end : ℕ
  pub content : Bytes

-- A WebAssembly program, by the host functions that its `initialize` and `run_query` call in turn.
-- What a host function puts into memory goes to the rest of the program. `bad_alloc` is a callback
-- for memory that returns no 32-bit integer.
pub data Program : Type 0 where
  done abort bad_alloc : Program
  eosio_assert_message : Bool → Program → Program
  get_database_status get_input_data : (Bytes → Program) → Program
  set_output_data print_range : Range → Program → Program
  query_database : Range → (Bytes → Program) → Program

-- The databases behind the two interfaces, and the file system. `Shared` is all that other threads
-- and programs may change, so each call takes it and gives it back.
pub record Backend : Type 1 where
  pub Shared : Type 0
  pub QuerySession : Type 0
  pub console : Bool
  pub create_query_session : Shared → Result QuerySession × Shared
  pub get_fill_status : QuerySession → Shared → Result FillStatus × Shared
  pub get_block_id : QuerySession → ℕ → Shared → Result (Option ℕ) × Shared
  pub query : QuerySession → Bytes → ℕ → Shared → Result Bytes × Shared
  pub read_wasm : ℕ → Shared → Result Program × Shared

-- What is called of abieos.
pub record Serializer : Type 0 where
  pub uint32_to_bin : ℕ → Bytes
  pub checksum256_to_bin : ℕ → Bytes
  pub bytes_to_bin : Bytes → Bytes
  pub push_varuint32 : ℕ → Bytes
  pub bin_to_varuint32 : Bytes → Result (ℕ × Bytes)
  pub bin_to_input_buffer : Bytes → Result (Bytes × Bytes)
  pub bin_to_name : Bytes → Result (ℕ × Bytes)
  pub name_value : Bytes → ℕ

-- `thread_state`, with what is shared, and what has been written to `std::cerr`.
pub record ThreadState (b : Backend) : Type 0 where
  pub database_status : Bytes
  pub request : Bytes
  pub reply : Bytes
  pub query_session : Option (b.QuerySession)
  pub fill_status : FillStatus
  pub shared : b.Shared
  pub printed : List Bytes

-- A call on the thread's state: what was written stays when it throws.
abbrev pub Call {ℓ} : Backend → Type ℓ → Type ℓ
Call b A = ThreadState b → Result A × ThreadState b

module _ {b : Backend} where
  abbrev pub return {ℓ} : {A : Type ℓ} → A → Call b A
  return value st = (ok value, st)

  abbrev pub throw {ℓ} : {A : Type ℓ} → String → Call b A
  throw e st = (err e, st)

  abbrev pub throw_unless : Bool → String → Call b (Unit {0})
  throw_unless true e st = (ok tt, st)
  throw_unless false e st = (err e, st)

  abbrev pub pass {ℓ} : {A : Type ℓ} → Result A → Call b A
  pass r st = (r, st)

  abbrev pub after_call {ℓ ℓ'} :
      {A : Type ℓ} {B : Type ℓ'}
      → (A → Call b B)
      → Result A × ThreadState b
      → Result B × ThreadState b
  after_call rest (err e, st) = (err e, st)
  after_call rest (ok value, st) = rest value st

  infixl 5 ◌>>=◌
  abbrev pub ◌>>=◌ {ℓ ℓ'} : {A : Type ℓ} {B : Type ℓ'} → Call b A → (A → Call b B) → Call b B
  ◌>>=◌ call rest st = after_call rest (call st)

  infixl 5 ◌>>◌
  abbrev pub ◌>>◌ {ℓ} : {B : Type ℓ} → Call b (Unit {0}) → Call b B → Call b B
  ◌>>◌ call rest st = after_call (λ _. rest) (call st)

  -- A call of the thread's query session.
  abbrev pub on_some {ℓ} :
      {A : Type ℓ}
      → (b.QuerySession → b.Shared → Result A × b.Shared)
      → Option (b.QuerySession)
      → Call b A
  on_some f none st = (err "null query_session", st)
  on_some f (some session) st =
      ((f session st.shared).0, record st { shared = (f session st.shared).1 })

  abbrev pub on_session {ℓ} :
      {A : Type ℓ} → (b.QuerySession → b.Shared → Result A × b.Shared) → Call b A
  on_session f st = on_some f st.query_session st

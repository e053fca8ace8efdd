-- ===== src/WasmQl/Query.antt =====
-- src/wasm_ql.cpp: the host functions of a query's program, and a query's tries.
use history_tools.Common.{
  ℕ, zero, suc, Bool, true, not, ◌++◌, ◌∷◌, if◌then◌else◌, Bytes, codes, Option, none, some, Result,
  ok, err, ltb, ◌==◌, length,
}
use history_tools.History.{FillStatus}
use history_tools.WasmQl.State.{
  Range, Program, done, abort, bad_alloc, eosio_assert_message, get_database_status, get_input_data,
  set_output_data, print_range, query_database, Backend, Serializer, ThreadState, Call, return,
  throw, throw_unless, pass, ◌>>=◌, ◌>>◌, on_session,
}

module _ (b : Backend) (sr : Serializer) where
  -- `check_bounds`
  unfoldable pub check_bounds : Range → Call b (Unit {0})
  check_bounds r = throw_unless (not (ltb r.end r.begin)) "bad memory"

  unfoldable pub write_output : Range → Call b (Unit {0})
  unfolding check_bounds
  write_output r = do check_bounds r; λ st. (ok tt, record st { reply = r.content })

  unfoldable pub write_console : Range → Call b (Unit {0})
  unfolding check_bounds
  write_console r = do
    check_bounds r
    λ st. (ok tt, (if b.console then record st { printed = r.content ∷ st.printed } else st))

  unfoldable pub run_database_query : Range → Call b Bytes
  unfolding check_bounds
  run_database_query r = do
    check_bounds r
    λ st. on_session (λ session. b.query session r.content st.fill_status.head) st

  -- The program's calls of the host, `callbacks`.
  unfoldable pub run_program : Program → Call b (Unit {0})
  unfolding write_output write_console run_database_query
  run_program done = return tt
  run_program abort = throw "called abort"
  run_program bad_alloc = throw "cb_alloc returned incorrect type"
  run_program (eosio_assert_message test p) = do throw_unless test "assert failed"; run_program p
  run_program (get_database_status k) = λ st. run_program (k st.database_status) st
  run_program (get_input_data k) = λ st. run_program (k st.request) st
  run_program (set_output_data r p) = do write_output r; run_program p
  run_program (print_range r p) = do write_console r; run_program p
  run_program (query_database r k) = run_database_query r >>= λ data_. run_program (k data_)

  unfoldable pub read_wasm : ℕ → Call b Program
  read_wasm short_name st = (
    (b.read_wasm short_name st.shared).0,
    record st { shared = (b.read_wasm short_name st.shared).1 },
  )

  unfoldable pub run_query : ℕ → Call b (Unit {0})
  unfolding read_wasm run_program
  run_query short_name = do program ← read_wasm short_name; run_program program

  -- `fill_context_data`: the fill status as bytes.
  unfoldable pub status_to_bin : FillStatus → Bytes
  status_to_bin s =
      sr.uint32_to_bin s.head
      ++ (sr.checksum256_to_bin s.head_id
          ++ (sr.uint32_to_bin s.irreversible
              ++ (sr.checksum256_to_bin s.irreversible_id ++ sr.uint32_to_bin s.first)))

  unfoldable pub fill_context_data : Call b (Unit {0})
  unfolding status_to_bin
  fill_context_data st = (ok tt, record st { database_status = status_to_bin st.fill_status })

  -- Whether the head's id is still that of the fill status.
  unfoldable pub id_changed : ℕ → Option ℕ → Bool
  id_changed head_id none = true
  id_changed head_id (some id) = not (id == head_id)

  unfoldable pub did_fork : Call b Bool
  unfolding id_changed
  did_fork st =
      (on_session (λ session. b.get_block_id session st.fill_status.head) >>= λ id.
      return (id_changed st.fill_status.head_id id))
        st

  -- `make_scoped_exit`: the session is dropped however the round ends.
  unfoldable pub release {ℓ} : {A : Type ℓ} → Call b A → Call b A
  release call st = ((call st).0, record ((call st).1) { query_session = none })

  -- The thread's session becomes what the database interface gives.
  unfoldable pub set_session : Result (b.QuerySession) × b.Shared → Call b (Unit {0})
  set_session (err e, shared) st = (err e, record st { shared = shared })
  set_session (ok session, shared) st =
      (ok tt, record st { query_session = some session; shared = shared })

  unfoldable pub open_session : Call b (Unit {0})
  unfolding set_session
  open_session st = set_session (b.create_query_session st.shared) st

  unfoldable pub load_status : Call b (Unit {0})
  load_status =
      on_session b.get_fill_status >>= λ status st. (ok tt, record st { fill_status = status })

  -- A round up to the call of `f`.
  unfoldable pub start_round : Call b (Unit {0})
  unfolding open_session load_status fill_context_data
  start_round = do
    open_session
    load_status
    (λ st. throw_unless (not (st.fill_status.head == 0)) "database is empty" st)
    fill_context_data

  -- One round of `retry_loop`. `f` gives nothing where the source's returns false.
  unfoldable pub round {ℓ} : {A : Type ℓ} → Call b (Option A) → Call b (Option A)
  unfolding release start_round
  round f = release (start_round >> f)

  -- What follows a round: the value, the exception, or the rounds that are left.
  unfoldable pub after_round {ℓ} :
      {A : Type ℓ} → Call b A → Result (Option A) × ThreadState b → Result A × ThreadState b
  after_round again (err e, st) = (err e, st)
  after_round again (ok (some value), st) = (ok value, st)
  after_round again (ok none, st) = again st

  -- `retry_loop` with the number of rounds that are left.
  unfoldable pub retry_loop {ℓ} : {A : Type ℓ} → ℕ → Call b (Option A) → Call b A
  unfolding round after_round
  retry_loop zero f = throw "too many fork events during request"
  retry_loop (suc tries) f = λ st. after_round (retry_loop tries f) (round f st)

  unfoldable pub request_name : Call b ℕ
  request_name st = elim (sr.bin_to_name st.request) [
    | err e ↦ (err e, st)
    | ok (n, rest) ↦ (ok n, record st { request = rest })
  ]

  -- One request of a query: whether there was a fork.
  unfoldable pub run_request : Bytes → Call b Bool
  unfolding request_name run_query did_fork
  run_request request = do
    (λ st. (ok tt, record st { request = request }))
    ns_name ← request_name
    throw_unless (ns_name == sr.name_value (codes "local")) "unknown namespace: "
    short_name ← request_name
    run_query short_name
    did_fork

  -- A reply within the result.
  unfoldable pub pack : Bytes → Bytes
  pack reply = sr.push_varuint32 (length reply) ++ reply

  -- The loop over the requests, with the result so far.
  unfoldable pub run_requests : ℕ → Bytes → Bytes → Call b (Option Bytes)
  unfolding run_request pack
  run_requests zero request_bin result = return (some result)
  run_requests (suc n) request_bin result = do
    (request, rest) ← pass (sr.bin_to_input_buffer request_bin)
    forked ← run_request request
    λ st. (if forked then (ok none, st) else run_requests n rest (result ++ pack st.reply) st)

  unfoldable pub query_round : Bytes → Call b (Option Bytes)
  unfolding run_requests
  query_round request = do
    (num_requests, request_bin) ← pass (sr.bin_to_varuint32 request)
    run_requests num_requests request_bin (sr.push_varuint32 num_requests)

  unfoldable pub query : Bytes → Call b Bytes
  unfolding retry_loop query_round
  query request = retry_loop 4 (query_round request)

  unfoldable pub legacy_round : Call b (Option (Unit {0}))
  unfolding run_query did_fork
  legacy_round = do
    run_query (sr.name_value (codes "legacy"))
    forked ← did_fork
    return (if forked then none else some tt)

  unfoldable pub legacy_query : Bytes → Bytes → Call b Bytes
  unfolding retry_loop legacy_round
  legacy_query target request = do
    (λ st. (ok tt, record st { request = sr.bytes_to_bin target ++ sr.bytes_to_bin request }))
    retry_loop 4 legacy_round
    λ st. (ok st.reply, st)

-- ===== src/WasmQl/Frame.antt =====
-- What a query's program cannot change: the session that it queries, the fill status and its bytes.
use history_tools.Common.{
  ℕ, ◌≡◌, refl, ◌∙◌, Bool, true, false, not, ◌∷◌, if◌then◌else◌, Option, none, some, Result, ok,
  err, String, ltb, Result-cases, inl, inr,
}
use history_tools.WasmQl.State.{
  Range, Program, done, abort, bad_alloc, eosio_assert_message, get_database_status, get_input_data,
  set_output_data, print_range, query_database, Backend, Serializer, ThreadState, Call,
  throw_unless, after_call, on_some,
}
use history_tools.WasmQl.Query.{
  check_bounds, write_output, write_console, run_database_query, run_program, read_wasm, run_query,
  did_fork, id_changed, request_name,
}

pub record SameSession {b : Backend} (st st' : ThreadState b) : Type 0 where
  pub session : st'.query_session ≡ st.query_session
  pub status : st'.fill_status ≡ st.fill_status
  pub bin : st'.database_status ≡ st.database_status

pub SameSession-refl : {b : Backend} (st : ThreadState b) → SameSession st st
SameSession-refl st = record { session = refl; status = refl; bin = refl }

pub SameSession-trans :
    {b : Backend} {s t u : ThreadState b} → SameSession s t → SameSession t u → SameSession s u
SameSession-trans h k = record {
  session = k.session ∙ h.session;
  status = k.status ∙ h.status;
  bin = k.bin ∙ h.bin;
}

-- A call that keeps them on every outcome.
abbrev pub Kept {ℓ} : {b : Backend} {A : Type ℓ} → Call b A → Type 0
Kept call = (st : _) → SameSession st (call st).1

module _ {b : Backend} where
  pub after_call-SameSession {ℓ ℓ'} :
      {A : Type ℓ} {B : Type ℓ'} (rest : A → Call b B) (st : ThreadState b)
      (r : Result A × ThreadState b)
      → ((value : A) (st' : ThreadState b) → SameSession st' (rest value st').1)
      → SameSession st r.1
      → SameSession st (after_call rest r).1
  after_call-SameSession rest st (err e, st') h k = k
  after_call-SameSession rest st (ok value, st') h k = SameSession-trans k (h value st')

  pub throw_unless-SameSession :
      (c : Bool) (e : String) (st : ThreadState b) → SameSession st (throw_unless {b = b} c e st).1
  throw_unless-SameSession true e st = SameSession-refl st
  throw_unless-SameSession false e st = SameSession-refl st

  pub on_some-SameSession {ℓ} :
      {A : Type ℓ} (f : b.QuerySession → b.Shared → Result A × b.Shared)
      (o : Option (b.QuerySession)) (st : ThreadState b)
      → SameSession st (on_some f o st).1
  on_some-SameSession f none st = SameSession-refl st
  on_some-SameSession f (some session) st = record { session = refl; status = refl; bin = refl }

  if-SameSession :
      (c : Bool) (st st' : ThreadState b)
      → SameSession st st'
      → SameSession st (if c then st' else st)
  if-SameSession true st st' h = h
  if-SameSession false st st' h = SameSession-refl st

module _ (b : Backend) (sr : Serializer) where
  check_bounds-SameSession :
      (r : Range) (st : ThreadState b) → SameSession st (check_bounds b sr r st).1
  unfolding check_bounds
  check_bounds-SameSession r st = throw_unless-SameSession (not (ltb r.end r.begin)) "bad memory" st

  write_output-SameSession :
      (r : Range) (st : ThreadState b) → SameSession st (write_output b sr r st).1
  unfolding write_output
  write_output-SameSession r st =
      after_call-SameSession (λ done st'. (ok tt, record st' { reply = r.content })) st
        (check_bounds b sr r st) (λ done st'. record { session = refl; status = refl; bin = refl })
        (check_bounds-SameSession r st)

  write_console-SameSession :
      (r : Range) (st : ThreadState b) → SameSession st (write_console b sr r st).1
  unfolding write_console
  write_console-SameSession r st =
      after_call-SameSession _ st (check_bounds b sr r st)
        (λ done st'.
          if-SameSession b.console st' (record st' { printed = r.content ∷ st'.printed })
            (record { session = refl; status = refl; bin = refl }))
        (check_bounds-SameSession r st)

  run_database_query-SameSession :
      (r : Range) (st : ThreadState b) → SameSession st (run_database_query b sr r st).1
  unfolding run_database_query
  run_database_query-SameSession r st =
      after_call-SameSession _ st (check_bounds b sr r st)
        (λ done st'.
          on_some-SameSession (λ session. b.query session r.content st'.fill_status.head)
            st'.query_session st')
        (check_bounds-SameSession r st)

  run_program-SameSession :
      (p : Program) (st : ThreadState b) → SameSession st (run_program b sr p st).1
  unfolding run_program
  run_program-SameSession done st = SameSession-refl st
  run_program-SameSession abort st = SameSession-refl st
  run_program-SameSession bad_alloc st = SameSession-refl st
  run_program-SameSession (eosio_assert_message test p) st =
      after_call-SameSession _ st (throw_unless test "assert failed" st)
        (λ ok'. run_program-SameSession p) (throw_unless-SameSession test "assert failed" st)
  run_program-SameSession (get_database_status k) st =
      run_program-SameSession (k st.database_status) st
  run_program-SameSession (get_input_data k) st = run_program-SameSession (k st.request) st
  run_program-SameSession (set_output_data r p) st =
      after_call-SameSession _ st (write_output b sr r st) (λ _. run_program-SameSession p)
        (write_output-SameSession r st)
  run_program-SameSession (print_range r p) st =
      after_call-SameSession _ st (write_console b sr r st) (λ _. run_program-SameSession p)
        (write_console-SameSession r st)
  run_program-SameSession (query_database r k) st =
      after_call-SameSession _ st (run_database_query b sr r st)
        (λ data_. run_program-SameSession (k data_)) (run_database_query-SameSession r st)

  read_wasm-SameSession : (n : ℕ) (st : ThreadState b) → SameSession st (read_wasm b sr n st).1
  unfolding read_wasm
  read_wasm-SameSession n st = record { session = refl; status = refl; bin = refl }

  -- Running a program, on every outcome, leaves the session, the fill status and its bytes.
  pub run_query-SameSession : (n : ℕ) (st : ThreadState b) → SameSession st (run_query b sr n st).1
  unfolding run_query
  run_query-SameSession n st =
      after_call-SameSession _ st (read_wasm b sr n st) run_program-SameSession
        (read_wasm-SameSession n st)

  pub did_fork-SameSession : (st : ThreadState b) → SameSession st (did_fork b sr st).1
  unfolding did_fork
  did_fork-SameSession st =
      after_call-SameSession (λ id st'. (ok (id_changed b sr st.fill_status.head_id id), st')) st
        (on_some (λ session. b.get_block_id session st.fill_status.head) st.query_session st)
        (λ id st'. SameSession-refl st')
        (on_some-SameSession (λ session. b.get_block_id session st.fill_status.head)
          st.query_session st)

  pub request_name-SameSession : (st : ThreadState b) → SameSession st (request_name b sr st).1
  unfolding request_name
  request_name-SameSession st = elim (Result-cases (sr.bin_to_name st.request)) [
    | inl (v, e) ↦ rw (e, request_name) (record { session = refl; status = refl; bin = refl })
    | inr (m, e) ↦ rw (e, request_name) (SameSession-refl st)
  ]

-- ===== src/WasmQl/Tests.antt =====
-- A database whose first session sees a fork, and the witnesses of what is proved about queries.
use history_tools.Common.{
  ℕ, suc, ◌<◌, ◌≡◌, refl, false, ◌++◌, List, [], ◌∷◌, if◌then◌else◌, Bytes, none, some, Result, ok,
  err, ◌==◌, length, take, drop,
}
use history_tools.History.{FillStatus}
use history_tools.WasmQl.State.{
  Program, done, get_input_data, set_output_data, Backend, Serializer, ThreadState,
}
use history_tools.WasmQl.Query.{
  check_bounds, write_output, run_program, read_wasm, run_query, status_to_bin, fill_context_data,
  id_changed, did_fork, release, set_session, open_session, load_status, start_round, round,
  after_round, retry_loop, request_name, run_request, pack, run_requests, query_round, query,
}
use history_tools.WasmQl.Rounds.{Forked, query-release}
use history_tools.WasmQl.Reply.{Served, pack_all}
use history_tools.WasmQl.Consistent.{Ready, query-Served}

abbrev status : FillStatus
status = record { head = 10; head_id = 100; irreversible = 8; irreversible_id = 80; first = 1 }

-- The program replies with its input.
abbrev echo : Program
echo =
    get_input_data
      (λ data_. set_output_data (record { begin = 0; end = length data_; content = data_ }) done)

-- `Shared` counts the sessions; only the first one does not find the head.
abbrev backend : Backend
backend = record {
  Shared = ℕ;
  QuerySession = ℕ;
  console = false;
  create_query_session = λ n. (ok n, suc n);
  get_fill_status = λ session n. (ok status, n);
  get_block_id = λ session block n. (ok (if session == 0 then none else some 100), n);
  query = λ session q head n. (ok [], n);
  read_wasm = λ name n. (ok echo, n);
}

abbrev first_byte : Bytes → Result (ℕ × Bytes)
first_byte [] = err "end of stream"
first_byte (c ∷ s) = ok (c, s)

abbrev buffer : Bytes → Result (Bytes × Bytes)
buffer [] = err "end of stream"
buffer (c ∷ s) = ok (take c s, drop c s)

abbrev serializer : Serializer
serializer = record {
  uint32_to_bin = λ n. n ∷ [];
  checksum256_to_bin = λ n. n ∷ [];
  bytes_to_bin = λ s. length s ∷ s;
  push_varuint32 = λ n. n ∷ [];
  bin_to_varuint32 = first_byte;
  bin_to_input_buffer = buffer;
  bin_to_name = first_byte;
  name_value = λ s. length s;
}

abbrev thread : ThreadState backend
thread = record {
  database_status = [];
  request = [];
  reply = [];
  query_session = none;
  fill_status = status;
  shared = 0;
  printed = [];
}

-- One request, in the namespace `local`.
abbrev request : Bytes
request = 1 ∷ 3 ∷ 5 ∷ 7 ∷ 42 ∷ []

abbrev left_behind : ThreadState backend
left_behind = record {
  database_status = 10 ∷ 100 ∷ 8 ∷ 80 ∷ 1 ∷ [];
  request = 42 ∷ [];
  reply = 42 ∷ [];
  query_session = none;
  fill_status = status;
  shared = 2;
  printed = [];
}

replies : query backend serializer request thread ≡ (ok (1 ∷ 1 ∷ 42 ∷ []), left_behind)
unfolding check_bounds write_output run_program read_wasm run_query status_to_bin fill_context_data
    id_changed did_fork release set_session open_session load_status start_round round after_round
    retry_loop request_name run_request pack run_requests query_round query
replies = refl

query-Served_example :
    (forks : ℕ) × (st1 : ThreadState backend) × (session : ℕ) × (s0 : ThreadState backend)
    × (s1 : ThreadState backend) × (num_requests : ℕ) × (request_bin : Bytes) × (rs : List Bytes)
    × (forks < 4)
    × Forked backend serializer (query_round backend serializer request) forks thread st1
    × Ready backend serializer session s0
    × (first_byte request ≡ ok (num_requests, request_bin))
    × Served backend serializer session s0.fill_status num_requests request_bin s0 rs s1
    × (length rs ≡ num_requests)
    × (1 ∷ 1 ∷ 42 ∷ [] ≡ (num_requests ∷ []) ++ pack_all backend serializer rs)
query-Served_example = query-Served backend serializer request thread replies

query-release_example : (query backend serializer request thread).1.query_session ≡ none
query-release_example = query-release backend serializer request thread

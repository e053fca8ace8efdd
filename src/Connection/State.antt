-- ===== src/Connection/State.antt =====
-- The members of `connection` and its handlers. Sockets are left out: what they bring is a
-- completion, of a read or of a write, with an error code or without. `callbacks` is the client's
-- state with its three kinds of call, each of which may throw where the source's may.
use history_tools.Common.{
  ℕ, ◌-◌, ◌^◌, min, max, Bool, true, false, List, if◌then◌else◌, Bytes, codes, Option, none, some,
  Result, ok, err, ◌>>=◌, ◌>>◌, ltb, ◌==◌, take, check,
}
use history_tools.SqlConverter.Types.{bytes_eq}

-- `connection_callbacks`, and what is called of abieos.
pub record Callbacks : Type 1 where
  pub Client : Type 0
  pub AbiDef : Type 0
  pub Abi : Type 0
  pub Message : Type 0
  pub from_json : Bytes → Result AbiDef
  pub version : AbiDef → Bytes
  pub convert : AbiDef → Result Abi
  pub has_type : Abi → Bytes → Bool
  pub from_bin : Bytes → Result Message
  pub received_abi : Abi → Client → Result (Unit {0}) × Client
  pub received : Message → Client → Result Bool × Client
  pub closed : Bool → Client → Client

-- `has_callbacks` is whether the pointer to the callbacks is set.
pub record Connection (cb : Callbacks) : Type 0 where
  pub have_abi : Bool
  pub have_get_blocks_request_v1 : Bool
  pub has_callbacks : Bool
  pub reading : Bool
  pub client : cb.Client

-- `get_status_result_v0`, as far as it is read.
pub record Status : Type 0 where
  pub trace_begin_block : ℕ
  pub trace_end_block : ℕ
  pub chain_state_begin_block : ℕ
  pub chain_state_end_block : ℕ

-- `get_blocks_request_v0` and `_v1`: the first has no `fetch_block_header`.
pub record BlocksRequest : Type 0 where
  pub start_block_num : ℕ
  pub end_block_num : ℕ
  pub max_messages_in_flight : ℕ
  pub have_positions : List (ℕ × Bytes)
  pub irreversible_only : Bool
  pub fetch_block : Bool
  pub fetch_traces : Bool
  pub fetch_deltas : Bool
  pub fetch_block_header : Option Bool

abbrev pub no_block : ℕ
no_block = 2 ^ 32 - 1

-- The first `request_blocks`.
unfoldable pub make_request : Bool → ℕ → List (ℕ × Bytes) → BlocksRequest
make_request v1 start_block_num positions = record {
  start_block_num = start_block_num;
  end_block_num = no_block;
  max_messages_in_flight = no_block;
  have_positions = positions;
  irreversible_only = false;
  fetch_block = if v1 then false else true;
  fetch_traces = true;
  fetch_deltas = true;
  fetch_block_header = if v1 then some true else none;
}

-- `nodeos_start`: the first block that nodeos has.
unfoldable pub nodeos_start : Status → ℕ
nodeos_start s =
    let n0 = no_block in
    let n1 = if ltb s.trace_begin_block s.trace_end_block then min n0 s.trace_begin_block else n0 in
    let n2 =
      if ltb s.chain_state_begin_block s.chain_state_end_block
      then min n1 s.chain_state_begin_block
      else n1 in
    if n2 == no_block then 0 else n2

-- The second `request_blocks`.
unfoldable pub request_blocks : Bool → Status → ℕ → List (ℕ × Bytes) → BlocksRequest
unfolding make_request nodeos_start
request_blocks v1 status start_block_num positions =
    make_request v1 (max start_block_num (nodeos_start status)) positions

module _ (cb : Callbacks) where
  unfoldable pub close : Bool → Connection cb → Connection cb
  close retry c = record c {
    has_callbacks = false;
    reading = false;
    client = if c.has_callbacks then cb.closed retry c.client else c.client;
  }

  -- A call of the client that leaves its state even where it throws.
  unfoldable pub call_client {ℓ} :
      {A : Type ℓ} → Result A × cb.Client → Connection cb → Result A × Connection cb
  call_client (r, client) c = (r, record c { client = client })

  unfoldable pub parse_abi : Bytes → Result cb.Abi
  parse_abi p = do
    abi ← cb.from_json p
    check (bytes_eq (take 13 (cb.version abi)) (codes "eosio::abi/1.")) "unsupported abi version"
    cb.convert abi

  -- `receive_abi` from the parsed ABI on.
  unfoldable pub accept_abi : Result cb.Abi → Connection cb → Result (Unit {0}) × Connection cb
  unfolding call_client
  accept_abi (err e) c = (err e, c)
  accept_abi (ok abi) c =
      let c' : Connection cb = record c {
        have_abi = true;
        have_get_blocks_request_v1 =
            if cb.has_type abi (codes "get_blocks_request_v1")
            then true
            else c.have_get_blocks_request_v1;
      } in
      if c.has_callbacks then call_client (cb.received_abi abi c.client) c' else (ok tt, c')

  -- `receive_result`: whether to go on.
  unfoldable pub receive_result : Result cb.Message → Connection cb → Result Bool × Connection cb
  unfolding call_client
  receive_result (err e) c = (err e, c)
  receive_result (ok message) c =
      if c.has_callbacks then call_client (cb.received message c.client) c else (ok false, c)

  -- What `start_read` does with the outcome of its handler: it reads on, or the connection closes.
  unfoldable pub after_abi : Result (Unit {0}) × Connection cb → Connection cb
  unfolding close
  after_abi (err e, c) = close false c
  after_abi (ok done, c) = record c { reading = true }

  unfoldable pub after_result : Result Bool × Connection cb → Connection cb
  unfolding close
  after_result (err e, c) = close false c
  after_result (ok false, c) = close false c
  after_result (ok true, c) = record c { reading = true }

  -- A completion: a read that brought a message, a write that is done, or a failure of either.
  pub data Completion : Type 0 where
    read_done : Bytes → Completion
    write_done failed : Completion

  unfoldable pub complete : Completion → Connection cb → Connection cb
  unfolding parse_abi accept_abi receive_result after_abi after_result close
  complete (read_done data_) c =
      if c.have_abi
      then after_result (receive_result (cb.from_bin data_) c)
      else after_abi (accept_abi (parse_abi data_) c)
  complete write_done c = c
  complete failed c = close true c

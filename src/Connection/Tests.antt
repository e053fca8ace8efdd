-- ===== src/Connection/Tests.antt =====
-- A client that counts what it is told, and the witnesses for the connection.
use history_tools.Common.{
  ℕ, suc, ◌+◌, ◌≤◌, ◌≡◌, refl, inl, true, false, [], Bytes, codes, ok, arith,
}
use history_tools.SqlConverter.Types.{bytes_eq}
use history_tools.Connection.State.{
  Callbacks, Connection, Status, request_blocks, read_done, failed, complete, close, after_abi,
  after_result, accept_abi, receive_result, parse_abi, call_client,
}
use history_tools.Connection.Start.{request_blocks-start}
use history_tools.Connection.Closed.{finished, completed, Silent, Told, Run-Silent, Run-Told}

-- Its state counts the messages, and a hundred for a closing.
abbrev counting : Callbacks
counting = record {
  Client = ℕ;
  AbiDef = Bytes;
  Abi = Bytes;
  Message = Bytes;
  from_json = λ s. ok s;
  version = λ s. s;
  convert = λ s. ok s;
  has_type = λ abi n. true;
  from_bin = λ s. ok s;
  received_abi = λ abi n. (ok tt, suc n);
  received = λ message n. (ok true, suc n);
  closed = λ retry n. n + 100;
}

abbrev opened : Connection counting
opened = record {
  have_abi = false;
  have_get_blocks_request_v1 = false;
  has_callbacks = true;
  reading = true;
  client = 0;
}

abbrev dropped : Connection counting
dropped = record {
  have_abi = true;
  have_get_blocks_request_v1 = true;
  has_callbacks = false;
  reading = false;
  client = 102;
}

-- An ABI, a message, a failure, and what arrives behind it.
abbrev after_failure : Connection counting
after_failure = complete counting failed (
    complete counting (read_done [])
      (complete counting (read_done (codes "eosio::abi/1.1")) opened))

fails : after_failure ≡ dropped
unfolding complete close after_abi after_result accept_abi receive_result parse_abi call_client
    bytes_eq
fails = refl

Run-Told_example : Told counting after_failure
Run-Told_example =
    Run-Told counting
      (completed (read_done (codes "eosio::abi/1.1"))
        (completed (read_done []) (completed failed (finished _))))
      refl

Run-Silent_example : Silent counting dropped (complete counting (read_done []) dropped)
Run-Silent_example = Run-Silent counting (completed (read_done []) (finished _)) refl

abbrev status : Status
status = record {
  trace_begin_block = 20;
  trace_end_block = 50;
  chain_state_begin_block = 30;
  chain_state_end_block = 30;
}

request_blocks-start_example :
    let request = request_blocks true status 5 [] in
    (5 ≤ request.start_block_num) × (request.start_block_num ≤ 25)
request_blocks-start_example =
    request_blocks-start true status 5 25 [] (omega arith) (omega arith)
      (inl (omega arith, omega arith))

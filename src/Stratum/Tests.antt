-- ===== src/Stratum/Tests.antt =====
-- A client, trees of JSON with jsoncpp's accesses, and the theorems on them.
use quai_gpu_miner_archive.Stratum.{
  user_dot_worker, StratumClient, Connection, Session, Text, Solution,
}
use quai_gpu_miner_archive.EthashAux.{no_work, Solution}
use quai_gpu_miner_archive.Ethash.Epoch.{zero_hash}
use quai_gpu_miner_archive.Stratum.JsonTrees.{Tree, flag, tree_json}
use quai_gpu_miner_archive.Stratum.Texts.{hex_digits, codes, to_hex_number}
use quai_gpu_miner_archive.Stratum.Detection.{
  IsFresh, IsTrying, failed_rounds, failed_rounds-unrecoverable,
}
use quai_gpu_miner_archive.Stratum.Frames.{IsReturned}
use quai_gpu_miner_archive.Stratum.Sessions.{IsConsistent}
use quai_gpu_miner_archive.Stratum.Sessions.Reachable.{
  Reachable-IsConsistent, begins, then_step, connects, starts_connect,
}
use quai_gpu_miner_archive.Stratum.Connecting.{connect, start_connect, new_session}
use quai_gpu_miner_archive.Stratum.Lines.{on_recv_socket_data_completed-append, buffered}
use quai_gpu_miner_archive.Stratum.Receiving.{on_recv_socket_data_completed}
use quai_gpu_miner_archive.Stratum.Delivery.{
  IsFlushed, send_all, on_send_socket_data_completed-send_all,
}
use quai_gpu_miner_archive.Stratum.Sending.{on_send_socket_data_completed}
use quai_gpu_miner_archive.Stratum.Timer.{noop_request, workloop_timer_elapsed}
use quai_gpu_miner_archive.Stratum.Timeouts.{
  workloop_timer_elapsed-start_connect, dequeue_response_plea-second, at_time,
}
use quai_gpu_miner_archive.Stratum.Pleas.{enqueue_response_plea, dequeue_response_plea}
use quai_gpu_miner_archive.Stratum.Messages.{Message}
use quai_gpu_miner_archive.Stratum.Submitting.{hex, solution_request}
use quai_gpu_miner_archive.Ethash.Hash.{Hash}
use quai_gpu_miner_archive.CommonData.{add}
use quai_gpu_miner_archive.Stratum.{Line, Request, texts, version_answer, null_value, returned}
use quai_gpu_miner_archive.Stratum.Notices.{process_extranonce}
use quai_gpu_miner_archive.Stratum.Extranonces.{
  own_request, with_extranonce, process_extranonce-own_digits,
}
use quai_gpu_miner_archive.Prelude.{
  ◌≡◌, refl, true, false, Option, none, some, [], ◌∷◌, ◌++◌, arith,
}

abbrev pool : Connection
pool = record {
  host = codes "pool";
  port = 3333;
  named = true;
  secure = false;
  version = 999;
  user = codes "user";
  pass = codes "X";
  worker = [];
  path = [];
  stratum_mode = 999;
  stratum_mode_confirmed = false;
  unrecoverable = false;
  responds = false;
  total_duration = 0;
}

abbrev idle : StratumClient
idle = record {
  agent = codes "miner";
  worktimeout = 180;
  responsetimeout = 2;
  now = 5000;
  connected = false;
  connecting = false;
  disconnecting = false;
  auth_pending = false;
  current = no_work;
  current_timestamp = 0;
  message = [];
  new_job_processed = false;
  socket = none;
  endpoints = 7 ∷ [];
  response_pleas_count = 0;
  response_plea_older = 0;
  response_plea_times = [];
  tx_pending = false;
  tx_queue = [];
  send_buffer = [];
  solution_submitted_max_id = 0;
  session = none;
  connection = pool;
  calls = [];
}

-- A parser that knows no text, and a trim that removes nothing.
abbrev no_parse : Text → Option Tree
no_parse s = none

abbrev no_trim : Text → Text
no_trim s = s

abbrev no_difficulty : Option Tree → Option Hash
no_difficulty t = none

idle-IsFresh : IsFresh idle
idle-IsFresh = (refl, refl, (λ e. cc e), (refl, refl, refl))

-- An answer to the first request that is an error.
abbrev refusal : Message Tree
refusal = record {
  field = λ key. none;
  rpc_ver = 1;
  id = 1;
  is_success = false;
  err_reason = codes "no";
  method = [];
  is_notification = false;
  result = tree_json.null;
}

failed_rounds-unrecoverable_example :
    IsReturned (IsTrying 2) (failed_rounds tree_json (λ k. refusal) 2 idle)
    × IsReturned
        (λ c'. c'.connection.unrecoverable ≡ true)
        (failed_rounds tree_json (λ k. refusal) 4 idle)
failed_rounds-unrecoverable_example =
    failed_rounds-unrecoverable tree_json (λ k. refusal) (λ k. (refl, refl)) idle 2 idle-IsFresh
      refl (omega arith)

Reachable-IsConsistent_example : IsConsistent (start_connect (connect 1 idle))
Reachable-IsConsistent_example =
    Reachable-IsConsistent tree_json no_difficulty no_parse no_trim refl refl refl
      (then_step (then_step begins (connects 1)) starts_connect)

-- A line that is cut within its word.
on_recv_socket_data_completed-append_example :
    (on_recv_socket_data_completed tree_json no_difficulty no_parse no_trim (some (codes "a")) idle
      ≡ returned (buffered tree_json no_difficulty no_parse no_trim (codes "a") idle))
    × (on_recv_socket_data_completed tree_json no_difficulty no_parse no_trim
          (some (codes "b\nc"))
          (buffered tree_json no_difficulty no_parse no_trim (codes "a") idle)
        ≡ on_recv_socket_data_completed tree_json no_difficulty no_parse no_trim
            (some (codes "a" ++ codes "b\nc"))
            idle)
unfolding codes
on_recv_socket_data_completed-append_example =
    on_recv_socket_data_completed-append tree_json no_difficulty no_parse no_trim (codes "a")
      (codes "b\nc") idle ((λ e. absurd (omega arith)), tt)

abbrev ping : Line
ping = version_answer 2 1 (codes "miner")

-- A client that is writing, with a line that waits.
abbrev writing : StratumClient
writing = record idle { connected = true; tx_pending = true; tx_queue = null_value ∷ [] }

on_send_socket_data_completed-send_all_example :
    IsFlushed
      (null_value ∷ ping ∷ noop_request ∷ [])
      writing
      (on_send_socket_data_completed none (send_all (ping ∷ noop_request ∷ []) writing))
on_send_socket_data_completed-send_all_example =
    on_send_socket_data_completed-send_all ping (noop_request ∷ []) writing refl refl

-- Half a second of two.
workloop_timer_elapsed-start_connect_example :
    workloop_timer_elapsed false (at_time 5500 (start_connect idle))
    ≡ returned (record (at_time 5500 (start_connect idle)) { socket = some false })
workloop_timer_elapsed-start_connect_example =
    workloop_timer_elapsed-start_connect idle 500 7 [] refl refl refl

dequeue_response_plea-second_example :
    (dequeue_response_plea (
      at_time 900
        (dequeue_response_plea (
          at_time 700
            (enqueue_response_plea (at_time 600 (enqueue_response_plea (at_time 100 idle)))))).1)).0
    ≡ 800
dequeue_response_plea-second_example =
    (dequeue_response_plea-second idle 100 600 700 900 refl refl).1

-- An answer `true` to the request 43.
abbrev answer_43 : Message Tree
answer_43 = record {
  field = λ key. none;
  rpc_ver = 1;
  id = 43;
  is_success = true;
  err_reason = [];
  method = [];
  is_notification = false;
  result = flag true;
}

abbrev working_session : Session
working_session = record (new_session 0) { subscribed = true; authorized = true }

abbrev working : StratumClient
working = record idle {
  connected = true;
  solution_submitted_max_id = 45;
  session = some working_session;
  connection = record pool { stratum_mode = 1; stratum_mode_confirmed = true };
}

abbrev found : Solution
found = record { nonce = 7; mix_hash = zero_hash; work = no_work; midx = 3 }

abbrev found_request : Request
found_request = record {
  id = 43;
  jsonrpc = false;
  method = codes "eth_submitWork";
  params = texts (to_hex_number 7 add 16 ∷ hex zero_hash ∷ hex zero_hash ∷ []);
  worker = none;
}

-- The extranonce af4c, and a nonce that starts with it.
abbrev prefixed : Solution
prefixed = record found { nonce = 0xaf4c000000000012; work = record no_work { ex_size_bytes = 4 } }

process_extranonce-own_digits_example :
    (process_extranonce (hex_digits 4 0xaf4c) working
      ≡ returned (record working {
        session = some (with_extranonce 0xaf4c000000000000 4 working_session);
      }))
    × (solution_request (record pool { stratum_mode = 2 }) [] prefixed
        ≡ some (own_request 3 (user_dot_worker pool ∷ [] ∷ hex_digits 12 0x12 ∷ [])))
    × (solution_request (record pool { stratum_mode = 3 }) [] prefixed
        ≡ some (own_request 3 ([] ∷ hex_digits 12 0x12 ∷ [] ∷ [])))
    × (hex_digits 4 0xaf4c ++ hex_digits 12 0x12 ≡ hex_digits 16 0xaf4c000000000012)
process_extranonce-own_digits_example =
    process_extranonce-own_digits 4 12 0xaf4c 0x12 working working_session prefixed pool refl refl
      (omega arith) (omega arith) refl refl

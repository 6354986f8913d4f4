-- ===== src/Stratum/Submitting.antt =====
-- What the farm sends to the pool: `submitHashrate` and `submitSolution` of
-- libpoolprotocols/stratum/EthStratumClient.cpp.
use quai_gpu_miner_archive.Stratum.{
  StratumClient, Connection, Solution, Text, Outcome, Request, is_authorized, is_connected, texts,
  returned, user_dot_worker, with_session, attempt, request,
}
use quai_gpu_miner_archive.Stratum.Pleas.{enqueue_response_plea}
use quai_gpu_miner_archive.Stratum.Sending.{send}
use quai_gpu_miner_archive.Stratum.Connecting.{optional}
use quai_gpu_miner_archive.Stratum.Texts.{codes, to_hex_number, to_compact_hex}
use quai_gpu_miner_archive.CommonData.{to_hex, add, dont_add}
use quai_gpu_miner_archive.Ethash.Hash.{Hash, bytes}
use quai_gpu_miner_archive.Prelude.{
  ℕ, ◌+◌, ◌%◌, ◌^◌, true, false, not, Option, none, some, [], ◌∷◌, ltb, ◌==◌, if◌then◌else◌, ◌>>=◌,
  length, drop,
}

abbrev pub hex : Hash → Text
hex hash = to_hex (bytes hash) 2 add

-- `rate` is what the farm reports, and `id` the name of the rig, in hexadecimal.
unfoldable pub submit_hashrate : ℕ → Text → StratumClient → Outcome
unfolding send to_hex_number
submit_hashrate rate id c =
    let uri = c.connection in
    if not (is_connected c)
    then returned c
    else if uri.stratum_mode == 3
    then with_session c (λ session. returned (
        send
          (request (record {
            id = 9;
            jsonrpc = false;
            method = codes "mining.hashrate";
            params = texts (to_compact_hex rate ∷ session.worker_id ∷ []);
            worker = none;
          }))
          c))
    else returned (
        send
          (request (record {
            id = 9;
            jsonrpc = true;
            method = codes "eth_submitHashrate";
            params = texts (to_hex_number rate add 32 ∷ id ∷ []);
            worker = optional uri.worker;
          }))
          c)

-- The nonce without the digits that the pool has set. `none` is the exception of `substr`.
unfoldable pub own_digits : Solution → Option Text
unfolding to_hex_number
own_digits solution =
    let digits : Text = to_hex_number solution.nonce dont_add 16 in
    if ltb (length digits) solution.work.ex_size_bytes
    then none
    else some (drop solution.work.ex_size_bytes digits)

-- The request of each mode, with the session's worker.
unfoldable pub solution_request : Connection → Text → Solution → Option Request
unfolding own_digits
solution_request uri worker_id solution =
    let id = (40 + solution.midx) % 2 ^ 32 in
    let mode = uri.stratum_mode in
    let proof =
      to_hex_number solution.nonce add 16 ∷ hex solution.work.header ∷ hex solution.mix_hash ∷ [] in
    if mode == 0
    then some (record {
      id = id;
      jsonrpc = true;
      method = codes "mining.submit";
      params = texts (uri.user ∷ solution.work.job ∷ proof);
      worker = optional uri.worker;
    })
    else if mode == 1
    then some (record {
      id = id;
      jsonrpc = false;
      method = codes "eth_submitWork";
      params = texts proof;
      worker = optional uri.worker;
    })
    else if mode == 2
    then (do
      digits ← own_digits solution
      some (record {
        id = id;
        jsonrpc = false;
        method = codes "mining.submit";
        params = texts (user_dot_worker uri ∷ solution.work.job ∷ digits ∷ []);
        worker = none;
      }))
    else if mode == 3
    then (do
      digits ← own_digits solution
      some (record {
        id = id;
        jsonrpc = false;
        method = codes "mining.submit";
        params = texts (solution.work.job ∷ digits ∷ worker_id ∷ []);
        worker = none;
      }))
    else some (record {
      id = id;
      jsonrpc = false;
      method = codes "mining.submit";
      params = texts [];
      worker = none;
    })

unfoldable pub submit_solution : Solution → StratumClient → Outcome
unfolding solution_request send
submit_solution solution c =
    let id = (40 + solution.midx) % 2 ^ 32 in
    let counted = record c {
      solution_submitted_max_id =
          if ltb c.solution_submitted_max_id id then id else c.solution_submitted_max_id;
    } in
    if not (is_authorized c)
    then returned c
    else with_session c (λ session.
      attempt (solution_request c.connection session.worker_id solution) counted
        (λ r. returned (send (request r) (enqueue_response_plea counted))))

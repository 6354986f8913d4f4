-- ===== src/Stratum/Logins.antt =====
-- The answer to the client's first request, in `processResponse` of
-- libpoolprotocols/stratum/EthStratumClient.cpp, in each mode.
use quai_gpu_miner_archive.Stratum.{
  Json, StratumClient, set_stratum_mode, Outcome, Session, Text, Line, request, returned, Params,
  attempt, mark_unrecoverable, call, no_params, texts, user_dot_worker, post_disconnect, null_value,
}
use quai_gpu_miner_archive.Stratum.Messages.{Message}
use quai_gpu_miner_archive.Stratum.Pleas.{enqueue_response_plea}
use quai_gpu_miner_archive.Stratum.Sending.{send}
use quai_gpu_miner_archive.Stratum.Connecting.{start_session}
use quai_gpu_miner_archive.Stratum.Texts.{codes, same_text}
use quai_gpu_miner_archive.Prelude.{
  ℕ, Bool, true, false, not, ◌&&◌, Option, none, some, [], ◌∷◌, ◌++◌, ◌==◌, if◌then◌else◌, ◌>>=◌,
  length, get_or,
}

abbrev pub quit : StratumClient → Outcome
quit c = returned (call post_disconnect c)

-- The end of a connection that can not be used again.
abbrev pub abandon : StratumClient → Outcome
abandon c = quit (mark_unrecoverable c)

-- A negotiation that failed, in a mode that is confirmed or one of those that are tried.
abbrev pub refuse : StratumClient → Outcome
refuse c = if c.connection.stratum_mode_confirmed then abandon c else quit c

abbrev pub authorize_request : Bool → StratumClient → Line
authorize_request jsonrpc c =
    let uri = c.connection in
    request (record {
      id = 3;
      jsonrpc = jsonrpc;
      method = codes "mining.authorize";
      params = texts ((user_dot_worker uri ++ uri.path) ∷ uri.pass ∷ []);
      worker = none;
    })

abbrev pub subscribe_request : Text → Params → Line
subscribe_request method params =
    request (record { id = 2; jsonrpc = false; method = method; params = params; worker = none })

-- The session of a mode that is confirmed now.
abbrev pub confirm : ℕ → (Session → Session) → StratumClient → StratumClient
confirm mode setup c = start_session setup (set_stratum_mode mode true c)

abbrev pub subscribed_session : Session → Session
subscribed_session s = record s { subscribed = true }

abbrev pub authorized_session : Session → Session
authorized_session s = record s { subscribed = true; authorized = true }

-- `m_authpending` is set, an answer is awaited and the request for authorization is sent.
unfoldable pub ask_authorization : Bool → StratumClient → StratumClient
unfolding send
ask_authorization jsonrpc c =
    let asking = enqueue_response_plea (record c { auth_pending = true }) in
    send (authorize_request jsonrpc c) asking

module _ {Value : Type 0} (json : Json Value) where
  abbrev pub has : (Text → Option Value) → Text → Bool
  has field key = elim (field key) [ none ↦ false | some value ↦ true ]

  -- The answer to `mining.hello` that EthereumStratum/2.0.0 asks for. `none` is an exception.
  unfoldable pub is_hello_answer : Value → Option Bool
  is_hello_answer result = if not (json.converts_to_object result) then some false else (do
    field ← json.object result
    elim (field (codes "proto")) [
      | none ↦ some false
      | some value ↦ do
        proto ← json.as_string value
        some (
            same_text proto (codes "EthereumStratum/2.0.0")
            && has field (codes "encoding")
            && has field (codes "resume")
            && has field (codes "timeout")
            && has field (codes "maxerrors")
            && has field (codes "node"))
    ])

  -- The answer to `mining.subscribe` that EthereumStratum/1.0.0 asks for.
  unfoldable pub is_nicehash_answer : Value → Option Bool
  is_nicehash_answer result =
      let first = get_or (json.elements result) 0 json.null in
      if json.is_array result && json.is_array first && (length (json.elements first) == 3)
      then (do
        proto ← json.as_string (get_or (json.elements first) 2 json.null)
        some (same_text proto (codes "EthereumStratum/1.0.0")))
      else some false

  -- The answer to the first request, in the mode of the connection.
  unfoldable pub login_answer : Message Value → StratumClient → Outcome
  unfolding is_hello_answer is_nicehash_answer ask_authorization
  login_answer m c =
      let mode = c.connection.stratum_mode in
      if not m.is_success && not c.connection.stratum_mode_confirmed
      then quit c
      else if mode == 3
      then attempt (is_hello_answer m.result) c (λ ok.
        if ok
        then returned (
            send (subscribe_request (codes "mining.subscribe") no_params)
              (enqueue_response_plea (confirm 3 (λ s. s) c)))
        else refuse c)
      else if mode == 2
      then attempt (is_nicehash_answer m.result) c (λ ok.
        if ok
        then returned (
            ask_authorization false (
              send (subscribe_request (codes "mining.extranonce.subscribe") (texts []))
                (confirm 2 subscribed_session c)))
        else refuse c)
      else if mode == 1
      then (if m.is_success
          then returned (
              send
                (request (record {
                  id = 5;
                  jsonrpc = false;
                  method = codes "eth_getWork";
                  params = texts [];
                  worker = none;
                }))
                (confirm 1 authorized_session c))
          else refuse c)
      else if mode == 0
      then (if m.is_success
          then returned (ask_authorization true (confirm 0 subscribed_session c))
          else refuse c)
      else returned (send null_value c)

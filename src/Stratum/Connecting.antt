-- ===== src/Stratum/Connecting.antt =====
-- Connecting and disconnecting of libpoolprotocols/stratum/EthStratumClient.cpp: `connect`,
-- `resolve_handler`, `start_connect`, `connect_handler`, `startSession`, `disconnect`,
-- `disconnect_finalize` and `onSSLShutdownCompleted`. What boost::asio reports is an argument. An
-- asynchronous connect opens the socket.
use quai_gpu_miner_archive.Stratum.{
  StratumClient, call, Connection, Outcome, Session, Text, set_stratum_mode, async_connect, Request,
  crashed, timer_start, tell_connected, async_shutdown, post_disconnect_finalize, tell_disconnected,
  post_start_connect, async_resolve, returned, mark_unrecoverable, texts, timer_sleep,
  post_disconnect, hello, request,
}
use quai_gpu_miner_archive.Stratum.Pleas.{enqueue_response_plea, clear_response_pleas}
use quai_gpu_miner_archive.Stratum.Sending.{send, recv_socket_data}
use quai_gpu_miner_archive.Stratum.Texts.{codes, to_compact_hex}
use quai_gpu_miner_archive.Prelude.{
  ℕ, ◌+◌, ◌-◌, ◌/◌, Bool, true, false, not, ◌&&◌, ◌||◌, Option, none, some, List, [], ◌∷◌, ◌++◌,
  ltb, ◌==◌, if◌then◌else◌,
}

-- `if (!m_socket) init_socket()`.
abbrev pub init_socket : StratumClient → StratumClient
init_socket c = record c {
  socket = elim c.socket [ none ↦ some false | some opened ↦ some opened ];
}

-- A host that is an address is the endpoint `address`.
unfoldable pub connect : ℕ → StratumClient → StratumClient
connect address c =
    let ready =
      init_socket (record (call timer_start c) { auth_pending = false; endpoints = [] }) in
    if c.connecting
    then c
    else if c.connection.named
    then call async_resolve ready
    else call post_start_connect (record ready { endpoints = address ∷ [] })

-- `m_session->duration()`, in minutes.
abbrev pub session_duration : StratumClient → ℕ
session_duration c = elim c.session [ none ↦ 0 | some session ↦ (c.now - session.start) / 60000 ]

-- The first part of `disconnect_finalize`, up to the release of the flags.
abbrev pub release : StratumClient → StratumClient
release c = record c {
  socket = none;
  connection = record c.connection {
    total_duration = c.connection.total_duration + session_duration c;
  };
  session = none;
  auth_pending = false;
  disconnecting = false;
  tx_pending = false;
}

-- Its end, when no other mode is tried.
abbrev pub put_to_sleep : StratumClient → StratumClient
put_to_sleep c =
    call tell_disconnected
      (call timer_sleep (record (clear_response_pleas c) { solution_submitted_max_id = 0 }))

-- Whether the next mode of the autodetection is due.
abbrev pub detecting : Connection → Bool
detecting uri = not uri.unrecoverable && not uri.stratum_mode_confirmed && uri.responds

unfoldable pub disconnect_finalize : StratumClient → StratumClient
disconnect_finalize c =
    let mode = c.connection.stratum_mode in
    let released = release c in
    if not (detecting c.connection)
    then put_to_sleep released
    else if ltb 0 mode
    then call post_start_connect
        (record released { connection = record released.connection { stratum_mode = mode - 1 } })
    else put_to_sleep (mark_unrecoverable released)

unfoldable pub disconnect : StratumClient → StratumClient
unfolding disconnect_finalize
disconnect c =
    let going = record c { disconnecting = true; connected = false } in
    if c.disconnecting then c else elim c.socket [
      | none ↦ disconnect_finalize going
      | some opened ↦
          if opened
          then (if c.connection.secure
              then enqueue_response_plea (call async_shutdown going)
              else disconnect_finalize (record going { socket = some false }))
          else disconnect_finalize going
    ]

abbrev pub on_ssl_shutdown_completed : StratumClient → StratumClient
on_ssl_shutdown_completed c = call post_disconnect_finalize (clear_response_pleas c)

-- `none` is an error of the resolver.
unfoldable pub resolve_handler : Option (List ℕ) → StratumClient → StratumClient
unfolding disconnect_finalize
resolve_handler (some found) c =
    call post_start_connect (record c { endpoints = c.endpoints ++ found })
resolve_handler none c = disconnect_finalize (record c { connecting = false })

unfoldable pub start_connect : StratumClient → StratumClient
unfolding disconnect_finalize
start_connect c = if c.connecting then c else elim c.endpoints [
  | [] ↦ disconnect_finalize (record c { connecting = false })
  | endpoint ∷ rest ↦
      call (async_connect endpoint)
        (record (enqueue_response_plea (clear_response_pleas (record c { connecting = true }))) {
          solution_submitted_max_id = 0;
          socket = some true;
        })
]

-- The mode that an established connection uses.
abbrev pub choose_mode : StratumClient → StratumClient
choose_mode c =
    if ltb c.connection.version 999
    then set_stratum_mode c.connection.version true c
    else if not c.connection.stratum_mode_confirmed && (c.connection.stratum_mode == 999)
    then set_stratum_mode 3 false c
    else c

abbrev pub optional : Text → Option Text
optional [] = none
optional (a ∷ rest) = some (a ∷ rest)

-- The first request, of each mode.
unfoldable pub login_request : Text → Connection → Request
login_request agent uri =
    if uri.stratum_mode == 0
    then record {
      id = 1;
      jsonrpc = true;
      method = codes "mining.subscribe";
      params = texts [];
      worker = none;
    }
    else if uri.stratum_mode == 1
    then record {
      id = 1;
      jsonrpc = false;
      method = codes "eth_submitLogin";
      params =
          texts ((uri.user ++ uri.path) ∷ (elim uri.pass [ [] ↦ [] | a ∷ rest ↦ (a ∷ rest) ∷ [] ]));
      worker = optional uri.worker;
    }
    else if uri.stratum_mode == 2
    then record {
      id = 1;
      jsonrpc = false;
      method = codes "mining.subscribe";
      params = texts (agent ∷ codes "EthereumStratum/1.0.0" ∷ []);
      worker = none;
    }
    else if uri.stratum_mode == 3
    then record {
      id = 1;
      jsonrpc = false;
      method = codes "mining.hello";
      params = hello agent uri.host (to_compact_hex uri.port) (codes "EthereumStratum/2.0.0");
      worker = none;
    }
    else record {
      id = 1;
      jsonrpc = false;
      method = codes "mining.subscribe";
      params = texts [];
      worker = none;
    }

-- An established connection that needs no handshake, or has made it.
unfoldable pub log_in : StratumClient → StratumClient
unfolding login_request send
log_in c =
    let chosen = choose_mode (clear_response_pleas (record c { send_buffer = [] })) in
    let login = login_request chosen.agent chosen.connection in
    send (request login) (enqueue_response_plea (recv_socket_data chosen))

-- `error` is the error of the connect, and `refused` that of the handshake.
unfoldable pub connect_handler : Bool → Bool → StratumClient → Outcome
unfolding log_in
connect_handler error refused c = elim c.socket [
  | none ↦ crashed
  | some opened ↦
      let established : StratumClient = record c {
        connecting = false;
        connected = true;
        connection = record c.connection { responds = true };
        message = [];
        tx_queue = [];
      } in
      if error || not opened
      then elim c.endpoints [
        | [] ↦ crashed
        | endpoint ∷ rest ↦ returned (
            call post_start_connect
              (record c { connecting = false; socket = some false; endpoints = rest }))
      ]
      else if c.connection.secure && refused
      then returned (call post_disconnect (mark_unrecoverable established))
      else returned (log_in established)
]

abbrev pub new_session : ℕ → Session
new_session now = record {
  start = now;
  subscribed = false;
  authorized = false;
  extra_nonce = 0;
  extra_nonce_size_bytes = 0;
  next_work_boundary = 0 ∷ 65535 ∷ 0 ∷ 0 ∷ 0 ∷ 0 ∷ 0 ∷ 0 ∷ [];
  first_mining_set = false;
  timeout = 30;
  session_id = [];
  worker_id = [];
  algo = codes "ethash";
  epoch = 0;
  last_tx_stamp = now;
}

-- `startSession`, with what the code changes in the new session at once.
abbrev pub start_session : (Session → Session) → StratumClient → StratumClient
start_session setup c =
    call tell_connected
      (record c { session = some (setup (new_session c.now)); current_timestamp = c.now })

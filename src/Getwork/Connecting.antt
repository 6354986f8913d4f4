-- ===== src/Getwork/Connecting.antt =====
-- The exchange of requests of libpoolprotocols/getwork/EthGetworkClient.cpp: `connect`, `disconnect`,
-- `begin_connect`, `send` and the handlers that boost::asio calls, but for `handle_read`. jsoncpp's
-- reader gives whether it has read a text, and the value that it leaves; its writer is `write`.
use quai_gpu_miner_archive.Getwork.{
  GetworkClient, call, Outcome, returned, crashed, and_then, Text, Connection, Request, no_params,
  ErrorCode, no_error, operation_aborted, other_error, timer_cancel, async_resolve, async_connect,
  async_write, async_read, tell_connected, tell_disconnected,
}
use quai_gpu_miner_archive.Stratum.Connecting.{new_session}
use quai_gpu_miner_archive.Stratum.Texts.{codes}
use quai_gpu_miner_archive.Prelude.{
  ℕ, zero, suc, ◌+◌, ◌-◌, ◌/◌, ◌%◌, Bool, true, false, Option, none, some, List, [], ◌∷◌, ◌++◌, ltb,
  if◌then◌else◌, length, drop,
}

-- The request for work, which the constructor writes.
abbrev pub get_work : Request
get_work = record {
  id = 1;
  jsonrpc = true;
  method = codes "eth_getWork";
  params = no_params;
  worker = none;
}

-- The decimal digits of a number, with fuel for its digits.
unfoldable pub decimal : ℕ → ℕ → Text
decimal zero n = []
decimal (suc fuel) n =
    let rest = decimal fuel (n / 10) in
    if ltb n 10 then (48 + n) ∷ [] else rest ++ (48 + n % 10) ∷ []

abbrev crlf : Text
crlf = 13 ∷ 10 ∷ []

-- The path, which begins with "/" when there is none.
abbrev path_of : Connection → Text
path_of uri = elim uri.path [ [] ↦ 47 ∷ [] | a ∷ rest ↦ a ∷ rest ]

-- What is written to the pool for a line.
unfoldable pub post : Connection → Text → Text
unfolding decimal
post uri line =
    codes "POST "
    ++ path_of uri
    ++ codes " HTTP/1.0"
    ++ crlf
    ++ codes "Host: "
    ++ uri.host
    ++ crlf
    ++ codes "Content-Type: application/json"
    ++ crlf
    ++ codes "Content-Length: "
    ++ decimal (suc (length line)) (length line)
    ++ crlf
    ++ codes "Connection: close"
    ++ crlf
    ++ crlf
    ++ line

-- The first line that is not empty, and what is behind it.
unfoldable pub next_line : List Text → Option (Text × List Text)
next_line [] = none
next_line ([] ∷ lines) = next_line lines
next_line ((a ∷ line) ∷ lines) = some (a ∷ line, lines)

module _ {Value : Type 0} where
  -- The session is used before anything tells whether there is one.
  unfoldable pub disconnect : GetworkClient Value → Outcome (GetworkClient Value)
  disconnect c = elim c.session [
    | none ↦ crashed
    | some session ↦ returned (
        call tell_disconnected (
          call timer_cancel (record c {
            connected = false;
            connection = record c.connection {
              total_duration = c.connection.total_duration + (c.now - session.start) / 60000;
            };
            session = none;
            connecting = false;
            tx_pending = false;
            tx_queue = [];
            request = [];
          })))
  ]

  unfoldable pub begin_connect : GetworkClient Value → Outcome (GetworkClient Value)
  unfolding disconnect
  begin_connect c = elim c.endpoints [
    | [] ↦ disconnect c
    | endpoint ∷ rest ↦ returned (call (async_connect endpoint) c)
  ]

  -- `m_endpoints.pop()`.
  abbrev pub pop_endpoint : GetworkClient Value → Outcome (GetworkClient Value)
  pop_endpoint c = elim c.endpoints [
    | [] ↦ crashed
    | endpoint ∷ rest ↦ returned (record c { endpoints = rest })
  ]

  -- `send` of a text.
  unfoldable pub send : Text → GetworkClient Value → Outcome (GetworkClient Value)
  unfolding begin_connect
  send line c =
      let queued = record c { tx_queue = c.tx_queue ++ line ∷ [] } in
      if c.tx_pending then returned queued else begin_connect (record queued { tx_pending = true })

  -- The first connection of a session.
  unfoldable pub establish : GetworkClient Value → GetworkClient Value
  establish c =
      if c.connecting
      then record (call tell_connected c) {
        connected = true;
        session = some (record (new_session c.now) { subscribed = true; authorized = true });
        connecting = false;
        current_tstamp = c.now;
      }
      else c

  module _ (parse : Text → Bool × Value) where
    -- The next request is written, behind what `m_request` holds.
    unfoldable pub write_line : GetworkClient Value → GetworkClient Value
    unfolding next_line post
    write_line c = elim c.tx_queue [
      | [] ↦ record c { tx_pending = false }
      | first ∷ lines ↦ elim (next_line (first ∷ lines)) [
        | none ↦ record c { tx_queue = [] }
        | some r ↦
            let text : Text = c.request ++ post c.connection r.0 in
            call (async_write text) (record c {
              tx_queue = r.1;
              request = text;
              pending = (parse r.0).1;
              pending_tstamp = c.now;
            })
      ]
    ]

    -- `opened` tells whether the socket is open.
    unfoldable pub handle_connect :
        ErrorCode → Bool → GetworkClient Value → Outcome (GetworkClient Value)
    unfolding begin_connect write_line establish
    handle_connect no_error true c =
        returned (write_line (establish (record c { socket_open = true })))
    handle_connect no_error false c =
        and_then (pop_endpoint (record c { socket_open = false })) begin_connect
    handle_connect operation_aborted opened c = returned (record c { socket_open = opened })
    handle_connect other_error opened c =
        and_then (pop_endpoint (record c { socket_open = opened })) begin_connect

  -- `written` bytes of the request have left.
  unfoldable pub handle_write : ErrorCode → ℕ → GetworkClient Value → Outcome (GetworkClient Value)
  unfolding begin_connect
  handle_write error written c =
      let left = record c { request = drop written c.request } in
      elim error [
        | no_error ↦ returned (call async_read left)
        | operation_aborted ↦ returned left
        | other_error ↦ and_then (pop_endpoint left) begin_connect
      ]

  module _ (write : Request → Text) where
    -- A host that is an address is the endpoint `address`.
    unfoldable pub connect : ℕ → GetworkClient Value → Outcome (GetworkClient Value)
    unfolding send
    connect address c =
        let ready = record (call timer_cancel c) { connecting = true; endpoints = [] } in
        let sent = send (write get_work) (record ready { endpoints = address ∷ [] }) in
        if c.connecting
        then returned c
        else if c.connection.named
        then returned (call async_resolve ready)
        else sent

    -- `none` is an error of the resolver.
    unfoldable pub handle_resolve :
        Option (List ℕ) → GetworkClient Value → Outcome (GetworkClient Value)
    unfolding disconnect send
    handle_resolve none c = disconnect c
    handle_resolve (some found) c =
        send (write get_work) (record c { endpoints = c.endpoints ++ found })

    unfoldable pub getwork_timer_elapsed :
        Bool → GetworkClient Value → Outcome (GetworkClient Value)
    unfolding disconnect send
    getwork_timer_elapsed error c =
        let sent = send (write get_work) c in
        if error
        then returned c
        else if ltb c.worktimeout ((c.now - c.current_tstamp) / 1000)
        then and_then (pop_endpoint c) disconnect
        else sent

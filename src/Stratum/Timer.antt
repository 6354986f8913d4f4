-- ===== src/Stratum/Timer.antt =====
-- `workloop_timer_elapsed` of libpoolprotocols/stratum/EthStratumClient.cpp.
use quai_gpu_miner_archive.Stratum.{
  StratumClient, Outcome, Line, returned, request, call, crashed, timer_start, post_disconnect,
  post_failed_login, no_params, is_pending_state, is_connected,
}
use quai_gpu_miner_archive.Stratum.Pleas.{clear_response_pleas}
use quai_gpu_miner_archive.Stratum.Sending.{send}
use quai_gpu_miner_archive.Stratum.Texts.{codes}
use quai_gpu_miner_archive.Prelude.{
  ◌+◌, ◌-◌, ◌*◌, ◌/◌, ◌^◌, Bool, false, not, ◌&&◌, ◌||◌, none, some, [], ◌∷◌, ltb, leb, ◌==◌,
  if◌then◌else◌,
}

-- The message that keeps a session of EthereumStratum/2.0.0 alive.
abbrev pub noop_request : Line
noop_request = request (record {
  id = 7;
  jsonrpc = false;
  method = codes "mining.noop";
  params = no_params;
  worker = none;
})

-- Five seconds before the session expires. A timeout of 2 ^ 31 or more is negative as an `int`.
unfoldable pub keep_alive : StratumClient → StratumClient
keep_alive c = elim c.session [
  | none ↦ c
  | some session ↦
      let seconds = (c.now - session.last_tx_stamp) / 1000 in
      if (c.connection.stratum_mode == 3)
        && (leb (2 ^ 31) session.timeout || ltb session.timeout (seconds + 5))
      then send noop_request c
      else c
]

abbrev pub rearm : StratumClient → Outcome
rearm c = returned (call timer_start c)

-- `m_endpoints.pop()` and what follows it. The use of an empty queue has no defined behaviour.
abbrev pub give_up : StratumClient → Outcome
give_up c = elim c.endpoints [
  | [] ↦ crashed
  | endpoint ∷ rest ↦
      rearm (call post_disconnect (clear_response_pleas (record c { endpoints = rest })))
]

-- Answers that are due while connected.
unfoldable pub check_connected : StratumClient → Outcome
check_connected c =
    let delay = c.now - c.response_plea_older in
    if leb (c.responsetimeout * 1000) delay
    then (if not c.connection.stratum_mode_confirmed && not c.connection.unrecoverable
        then rearm (call post_failed_login (clear_response_pleas c))
        else give_up c)
    else elim c.session [
      | none ↦ rearm c
      | some session ↦
          if ltb c.worktimeout ((c.now - c.current_timestamp) / 1000) then give_up c else rearm c
    ]

-- `aborted` is the error that a cancelled timer reports.
unfoldable pub workloop_timer_elapsed : Bool → StratumClient → Outcome
unfolding keep_alive check_connected
workloop_timer_elapsed aborted first =
    let c = keep_alive first in
    let delay = c.now - c.response_plea_older in
    if aborted
    then returned first
    else if c.response_pleas_count == 0
    then rearm c
    else if is_pending_state c && leb delay (c.responsetimeout * 1000)
    then (if c.connecting
        then elim c.socket [
          | none ↦ crashed
          | some opened ↦ returned (record c { socket = some false })
        ]
        else if c.disconnecting && c.connection.secure
        then elim c.socket [
          | none ↦ crashed
          | some opened ↦ if opened then returned (record c { socket = some false }) else rearm c
        ]
        else rearm c)
    else if is_connected c
    then check_connected c
    else rearm c

-- ===== src/Stratum/Sending.antt =====
-- What the client sends: `send`, `sendSocketData`, `onSendSocketDataCompleted` and `recvSocketData` of
-- libpoolprotocols/stratum/EthStratumClient.cpp. The buffer is the list of its lines; boost::asio
-- removes from it what it has written.
use quai_gpu_miner_archive.Stratum.{
  StratumClient, Line, async_write, async_read, post_disconnect, call, is_connected,
}
use quai_gpu_miner_archive.Prelude.{
  Bool, true, false, not, ◌||◌, Option, none, some, List, [], ◌∷◌, ◌++◌, ◌==◌, if◌then◌else◌,
}

abbrev pub recv_socket_data : StratumClient → StratumClient
recv_socket_data c = call async_read c

-- The buffers are emptied and no write is under way.
abbrev pub drop_output : StratumClient → StratumClient
drop_output c = record c { send_buffer = []; tx_queue = []; tx_pending = false }

unfoldable pub send_socket_data : StratumClient → StratumClient
send_socket_data c =
    let lines = c.send_buffer ++ c.tx_queue in
    if not (is_connected c) || is_empty c.tx_queue
    then drop_output c
    else call (async_write lines) (record c { send_buffer = lines; tx_queue = [] })
  where
    is_empty : List Line → Bool
    is_empty [] = true
    is_empty (line ∷ lines) = false

unfoldable pub send : Line → StratumClient → StratumClient
unfolding send_socket_data
send line c =
    let queued = record c { tx_queue = c.tx_queue ++ line ∷ [] } in
    if c.tx_pending then queued else send_socket_data (record queued { tx_pending = true })

-- What a write that failed met: a protocol that was shut down, or something else.
pub data WriteError : Type 0 where
  protocol_is_shutdown : WriteError
  other_error : WriteError

unfoldable pub on_send_socket_data_completed : Option WriteError → StratumClient → StratumClient
unfolding send_socket_data
on_send_socket_data_completed (some error) c =
    let dropped = drop_output c in
    let told : StratumClient = elim error [
      | protocol_is_shutdown ↦ call post_disconnect dropped
      | other_error ↦ dropped
    ] in
    if is_connected c then call post_disconnect told else told
on_send_socket_data_completed none c =
    let written = record c {
      send_buffer = [];
      session = elim c.session [
        | none ↦ none
        | some session ↦
            if c.connection.stratum_mode == 3
            then some (record session { last_tx_stamp = c.now })
            else some session
      ];
    } in
    let next = send_socket_data written in
    elim c.tx_queue [ [] ↦ record written { tx_pending = false } | line ∷ lines ↦ next ]

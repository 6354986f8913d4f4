-- ===== src/PoolManager/Rotation.antt =====
-- `PoolManager::rotateConnect` and `PoolManager::start` of libpoolprotocols/PoolManager.cpp.
pub mod Outcomes
use quai_gpu_miner_archive.PoolManager.{
  Uri, FarmView, Manager, Outcome, call, call_if, is_connected, count_switch, erase_at, text_equal,
  exit_host, raise_sigterm, client_connect, at_out_of_range, post_rotate_connect, client_new,
  farm_stop,
}
use quai_gpu_miner_archive.Prelude.{
  ◌+◌, true, false, none, some, leb, ◌==◌, if◌then◌else◌, length, get_elem?, u32,
}

-- Check we're within bounds.
abbrev pub check_bounds : Manager → Manager
check_bounds m =
    if leb (length m.connections) m.active_connection_idx
    then record m { active_connection_idx = 0 }
    else m

abbrev pub erase_active : Manager → Manager
erase_active m = record m { connections = erase_at m.active_connection_idx m.connections }

-- An unrecoverable connection is discarded; one whose attempts are used up is left, and discarded if
-- it is the only one.
unfoldable pub discard_or_rotate : Uri → Manager → Manager
discard_or_rotate uri m =
    if uri.is_unrecoverable
    then count_switch (check_bounds (record (erase_active m) { connection_attempt = 0 }))
    else if leb m.connection_max_retries m.connection_attempt
    then (if length m.connections == 1
        then erase_active m
        else count_switch (
            check_bounds (record m {
              connection_attempt = 0;
              active_connection_idx = u32 (m.active_connection_idx + 1);
            })))
    else m

-- A client for the connection replaces the one there was, and is told to connect.
unfoldable pub launch : Uri → Manager → Manager
launch uri m = call client_connect (
    call (client_new uri.family)
      (record m { client = some (record { connected = false; connection = some uri }) }))

unfoldable pub exit : FarmView → Manager → Manager
exit farm m = call raise_sigterm (record (call_if farm.is_mining farm_stop m) { running = false })

unfoldable pub select_connection : FarmView → Manager → Outcome
select_connection farm m =
    if length m.connections == 0
    then (none, exit farm m)
    else elim (get_elem? m.connections m.active_connection_idx) [
      | none ↦ (some at_out_of_range, m)
      | some uri ↦
          if text_equal uri.host exit_host then (none, exit farm m) else (none, launch uri m)
    ]

unfoldable pub rotate_connect : FarmView → Manager → Outcome
rotate_connect farm m =
    let within = check_bounds m in
    if is_connected m
    then (none, m)
    else elim (get_elem? within.connections within.active_connection_idx) [
      | none ↦ (some at_out_of_range, within)
      | some uri ↦ select_connection farm (discard_or_rotate uri within)
    ]

unfoldable pub start : Manager → Manager
start m =
    call post_rotate_connect (count_switch (record m { running = true; async_pending = true }))

-- ===== src/PoolManager/Handlers.antt =====
-- The handlers that the manager gives its client, its timers' handlers, and `stop`, of
-- libpoolprotocols/PoolManager.cpp.
pub mod Work
use quai_gpu_miner_archive.Ethash.Epoch.{zero_hash, find_epoch_number}
use quai_gpu_miner_archive.PoolManager.{
  Client, FarmView, Manager, Outcome, WorkPackage, call, call_if, is_connected, count_switch,
  text_equal, disconnect, show_mining_at, farm_resume, hashrate_timer_start, null_client,
  hashrate_timer_cancel, failover_timer_cancel, farm_account_accepted, farm_shuffle, farm_stop,
  farm_set_work, farm_start, client_disconnect, failover_timer_start, client_submit_hashrate,
  post_rotate_connect, farm_pause,
}
use quai_gpu_miner_archive.Prelude.{
  ℕ, ◌+◌, ◌/◌, Bool, true, false, not, ◌||◌, Option, none, some, [], ◌==◌, if◌then◌else◌, u32,
}

abbrev pub clear_header : Manager → Manager
clear_header m = record m { current_wp = record m.current_wp { header = zero_hash } }

-- Return to the primary pool after the time that is set.
abbrev pub arm_failover : Manager → Manager
arm_failover m =
    if m.active_connection_idx == 0 || m.pool_failover_timeout == 0
    then call failover_timer_cancel m
    else call (failover_timer_start m.pool_failover_timeout) m

abbrev pub start_or_resume : FarmView → Manager → Manager
start_or_resume farm m =
    if farm.is_mining then call_if farm.paused farm_resume m else call farm_start m

unfoldable pub on_connected : FarmView → Manager → Manager
on_connected farm m =
    let cleared = record m { current_wp = record m.current_wp { job = []; header = zero_hash } } in
    let shuffled = call_if (farm.ergodicity == 1) farm_shuffle cleared in
    let mining = start_or_resume farm (arm_failover shuffled) in
    record (call_if m.report_hashrate (hashrate_timer_start m.hash_rate_interval) mining) {
      async_pending = false;
    }

-- `p_client->unsetConnection()`.
abbrev pub unset_connection : Option Client → Option Client
unset_connection (some client) = some (record client { connection = none })
unset_connection none = none

unfoldable pub on_disconnected : FarmView → Manager → Manager
on_disconnected farm m =
    let cleared = clear_header (record m { client = unset_connection m.client }) in
    let quiet = call hashrate_timer_cancel (call failover_timer_cancel cleared) in
    if m.stopping
    then record (call_if farm.is_mining farm_stop quiet) { running = false }
    else call post_rotate_connect (call farm_pause (record quiet { async_pending = true }))

abbrev pub option_equal : Option ℕ → Option ℕ → Bool
option_equal none none = true
option_equal (some a) (some b) = a == b
option_equal _ _ = false

-- `p_client->getConnection()->StratumMode()`; `none` where one of the pointers is null.
abbrev pub active_stratum_mode : Manager → Option ℕ
active_stratum_mode m = elim m.client [
  | none ↦ none
  | some client ↦ elim client.connection [ none ↦ none | some uri ↦ some uri.stratum_mode ]
]

-- Whether the work is of another epoch than the current one.
unfoldable pub is_new_epoch : ℕ → WorkPackage → WorkPackage → Bool
is_new_epoch mode wp current =
    if mode == 3
    then not (option_equal wp.epoch current.epoch)
    else not (text_equal wp.seed current.seed)

-- The epoch of a new epoch's work that does not give it, with the cache of the search for its seed.
unfoldable pub epoch_of : WorkPackage → Manager → Manager
epoch_of wp m =
    let (found, cache) = find_epoch_number wp.seed m.seed_cache in
    let by_seed = record m { current_wp = record wp { epoch = found }; seed_cache = cache } in
    elim wp.epoch [
      | some e ↦ record m { current_wp = wp }
      | none ↦ elim wp.block [
        | none ↦ by_seed
        | some block ↦
            if block == 0
            then by_seed
            else record m { current_wp = record wp { epoch = some (block / 2147483647) } }
      ]
    ]

unfoldable pub accept_work : Bool → WorkPackage → Manager → Manager
accept_work new_epoch wp m =
    let new_diff = not (text_equal wp.boundary m.current_wp.boundary) in
    let taken =
      if new_epoch
      then record (epoch_of wp m) { epoch_changes = u32 (m.epoch_changes + 1) }
      else record m { current_wp = record wp { epoch = m.current_wp.epoch } } in
    let shown = call_if (new_diff || new_epoch) show_mining_at taken in
    call (farm_set_work shown.current_wp) shown

unfoldable pub on_work_received : WorkPackage → Manager → Outcome
on_work_received wp m =
    if text_equal wp.header zero_hash then (none, m) else elim m.current_wp.epoch [
      | none ↦ (none, accept_work true wp m)
      | some e ↦ elim (active_stratum_mode m) [
        | none ↦ (some null_client, m)
        | some mode ↦ (none, accept_work (is_new_epoch mode wp m.current_wp) wp m)
      ]
    ]

unfoldable pub on_solution_accepted : ℕ → Manager → Manager
on_solution_accepted miner_idx m = call (farm_account_accepted miner_idx) m

-- `stop` up to its wait for the disconnection, which ends when `m_running` is false.
unfoldable pub stop : FarmView → Manager → Manager
stop farm m =
    let stopping = record m { async_pending = true; stopping = true } in
    let quiet = call hashrate_timer_cancel (call failover_timer_cancel stopping) in
    if m.running
    then if is_connected m
      then call client_disconnect stopping
      else call_if farm.is_mining farm_stop quiet
    else m

-- What `stop` does after its wait.
unfoldable pub stop_waited : Manager → Manager
stop_waited m = record m { client = none }

-- `ec` is whether the timer was cancelled.
unfoldable pub failovertimer_elapsed : Bool → Manager → Outcome
failovertimer_elapsed ec m =
    if ec || not m.running || (m.active_connection_idx == 0)
    then (none, m)
    else disconnect (count_switch (record m { active_connection_idx = 0; connection_attempt = 0 }))

unfoldable pub submithrtimer_elapsed : Bool → Manager → Manager
submithrtimer_elapsed ec m =
    if ec || not m.running
    then m
    else call (hashrate_timer_start m.hash_rate_interval)
        (call_if (is_connected m) client_submit_hashrate m)

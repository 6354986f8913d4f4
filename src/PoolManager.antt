-- ===== src/PoolManager.antt =====
-- The state of `PoolManager` (libpoolprotocols/PoolManager.h) and what it is made of. The calls that
-- the manager makes of the farm, of the pool client, of its timers and of the event loop are written
-- down in their order in `calls`, the last one first; what they lead to is later calls of the
-- manager's handlers. `m_selectedHost`, which only log lines show, is left out.
mod Tests
pub mod Rotation
pub mod Connections
pub mod Handlers
pub mod Steps
pub mod Safety
pub mod Retries
pub use quai_gpu_miner_archive.EthashAux.{Text, WorkPackage, no_work}
use quai_gpu_miner_archive.Ethash.Epoch.{SeedCache, initial_cache}
use quai_gpu_miner_archive.Prelude.{
  ℕ, suc, ◌+◌, Bool, true, false, ◌&&◌, Option, none, some, List, [], ◌∷◌, ◌++◌, ◌==◌, take, drop,
  u32,
}

pub data ProtocolFamily : Type 0 where
  getwork : ProtocolFamily
  stratum : ProtocolFamily
  simulation : ProtocolFamily

pub text_equal : Text → Text → Bool
text_equal [] [] = true
text_equal (a ∷ xs) (b ∷ ys) = (a == b) && text_equal xs ys
text_equal _ _ = false

-- `"exit"`.
abbrev pub exit_host : Text
exit_host = 101 ∷ 120 ∷ 105 ∷ 116 ∷ []

-- `URI`: what the manager reads of it.
pub record Uri : Type 0 where
  pub str : Text
  pub host : Text
  pub family : ProtocolFamily
  pub is_unrecoverable : Bool
  pub stratum_mode : ℕ

-- `PoolClient`: its socket's flag and the connection it was given.
pub record Client : Type 0 where
  pub connected : Bool
  pub connection : Option Uri

pub data Call : Type 0 where
  farm_start : Call
  farm_stop : Call
  farm_pause : Call
  farm_resume : Call
  farm_shuffle : Call
  farm_set_work : WorkPackage → Call
  farm_account_accepted : ℕ → Call
  client_new : ProtocolFamily → Call
  client_connect : Call
  client_disconnect : Call
  client_submit_hashrate : Call
  failover_timer_start : ℕ → Call
  failover_timer_cancel : Call
  hashrate_timer_start : ℕ → Call
  hashrate_timer_cancel : Call
  post_rotate_connect : Call
  show_mining_at : Call
  raise_sigterm : Call

-- What the manager asks the farm.
pub record FarmView : Type 0 where
  pub is_mining : Bool
  pub paused : Bool
  pub ergodicity : ℕ

-- The exceptions, and the use of a null client, which has no defined behaviour.
pub data Error : Type 0 where
  outstanding_operations : Error
  index_out_of_bounds : Error
  cant_remove_active : Error
  not_found : Error
  at_out_of_range : Error
  null_client : Error

pub record Manager : Type 0 where
  pub connections : List Uri
  pub pool_failover_timeout : ℕ
  pub report_hashrate : Bool
  pub hash_rate_interval : ℕ
  pub connection_max_retries : ℕ
  pub running : Bool
  pub stopping : Bool
  pub async_pending : Bool
  pub connection_attempt : ℕ
  pub connection_switches : ℕ
  pub active_connection_idx : ℕ
  pub current_wp : WorkPackage
  pub client : Option Client
  pub epoch_changes : ℕ
  pub seed_cache : SeedCache
  pub calls : List Call

-- The settings of the constructor; all else has its initial value.
abbrev pub initial : List Uri → ℕ → Bool → ℕ → ℕ → Manager
initial connections pool_failover_timeout report_hashrate hash_rate_interval max_retries = record {
  connections = connections;
  pool_failover_timeout = pool_failover_timeout;
  report_hashrate = report_hashrate;
  hash_rate_interval = hash_rate_interval;
  connection_max_retries = max_retries;
  running = false;
  stopping = false;
  async_pending = false;
  connection_attempt = 0;
  connection_switches = 0;
  active_connection_idx = 0;
  current_wp = no_work;
  client = none;
  epoch_changes = 0;
  seed_cache = initial_cache;
  calls = [];
}

-- A call of the manager, with the exception it ends with, if any, and the state it leaves.
abbrev pub Outcome : Type 0
Outcome = Option Error × Manager

abbrev pub call : Call → Manager → Manager
call c m = record m { calls = c ∷ m.calls }

abbrev pub call_if : Bool → Call → Manager → Manager
call_if true c m = call c m
call_if false c m = m

-- `p_client && p_client->isConnected()`.
abbrev pub is_connected : Manager → Bool
is_connected m = elim m.client [ some client ↦ client.connected | none ↦ false ]

-- `p_client->disconnect()`.
abbrev pub disconnect : Manager → Outcome
disconnect m = elim m.client [
  | some client ↦ (none, call client_disconnect m)
  | none ↦ (some null_client, m)
]

-- `m_connectionSwitches.fetch_add(1)`, of an `unsigned`.
abbrev pub count_switch : Manager → Manager
count_switch m = record m { connection_switches = u32 (m.connection_switches + 1) }

-- `connections.erase(connections.begin() + idx)`.
abbrev pub erase_at : ℕ → List Uri → List Uri
erase_at idx uris = take idx uris ++ drop (suc idx) uris

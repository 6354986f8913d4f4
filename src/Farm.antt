-- ===== src/Farm.antt =====
-- `Farm` of libethcore/Farm.h and libethcore/Farm.cpp: the miners, their accounts and the operations
-- that start, stop and pause them. The contexts of libethash/managed.cpp and the static members of
-- Miner are part of the state. The calls of the handler of solutions are in `found`, the last one
-- first. Locks make every operation a whole step; the timers, rates and times are left out.
pub mod Work
pub mod Proofs
pub mod Collecting
pub mod Accounts
pub mod Places
pub mod Collected
pub mod Sound
pub mod Working
pub mod Steps
pub mod Segments
pub mod Safety
pub mod Restarts
pub mod Submitting
pub mod Temperature
mod Tests
use quai_gpu_miner_archive.EthashAux.{Text, WorkPackage, no_work, EpochContext, Solution}
use quai_gpu_miner_archive.Managed.{Managed}
use quai_gpu_miner_archive.Miner.{
  Miner, DagLoad, new_miner, call, start_working, set_dag_load_info, pause as pause_miner,
  resume as resume_miner, pause_due_to_farm_paused,
}
use quai_gpu_miner_archive.Prelude.{
  ℕ, ◌+◌, Bool, true, false, Option, none, some, List, [], ◌∷◌, ◌++◌, map, ◌==◌, if◌then◌else◌,
  length, get_elem?, set, u32,
}

pub data DeviceSubscriptionTypeEnum : Type 0 where
  unsubscribed : DeviceSubscriptionTypeEnum
  open_cl : DeviceSubscriptionTypeEnum
  cuda : DeviceSubscriptionTypeEnum
  cpu : DeviceSubscriptionTypeEnum

pub data SolutionAccountingEnum : Type 0 where
  accepted : SolutionAccountingEnum
  rejected : SolutionAccountingEnum
  wasted : SolutionAccountingEnum
  failed : SolutionAccountingEnum

pub record SolutionAccount : Type 0 where
  pub accepted_count : ℕ
  pub rejected_count : ℕ
  pub wasted_count : ℕ
  pub failed_count : ℕ

abbrev pub no_solutions : SolutionAccount
no_solutions = record { accepted_count = 0; rejected_count = 0; wasted_count = 0; failed_count = 0 }

-- What the monitors of a device tell, the power in watts.
pub record HwSensors : Type 0 where
  pub temp_c : ℕ
  pub fan_p : ℕ
  pub power_w : ℕ

pub record TelemetryAccount : Type 0 where
  pub prefix : Text
  pub paused : Bool
  pub sensors : HwSensors
  pub solutions : SolutionAccount

pub record FarmSettings : Type 0 where
  pub dag_load_mode : ℕ
  pub no_eval : Bool
  pub hw_mon : ℕ
  pub ergodicity : ℕ
  pub temp_start : ℕ
  pub temp_stop : ℕ

pub record Farm : Type 0 where
  pub miners : List Miner
  pub current_wp : WorkPackage
  pub current_ec : Option EpochContext
  pub is_mining : Bool
  pub paused : Bool
  pub solutions : SolutionAccount
  pub telemetry_miners : List TelemetryAccount
  pub settings : FarmSettings
  pub nonce_scrambler : ℕ
  pub nonce_segment_width : ℕ
  pub devices : List DeviceSubscriptionTypeEnum
  pub dag_load : DagLoad
  pub managed : Managed
  pub found : List Solution

-- The constructor, with the random number that `shuffle` draws.
abbrev pub new_farm : List DeviceSubscriptionTypeEnum → FarmSettings → ℕ → Managed → Farm
new_farm devices settings random managed = record {
  miners = [];
  current_wp = no_work;
  current_ec = none;
  is_mining = false;
  paused = false;
  solutions = no_solutions;
  telemetry_miners = [];
  settings = settings;
  nonce_scrambler = random;
  nonce_segment_width = 32;
  devices = devices;
  dag_load = record { dag_load_mode = 0; dag_load_index = 0; miners_count = 0 };
  managed = managed;
  found = [];
}

pub data Error : Type 0 where
  at_out_of_range : Error

-- An operation leaves its exception, if any, and the state.
abbrev pub Outcome : Type 0
Outcome = Option Error × Farm

-- `"cl"`, `"cu"` and `"cp"`.
abbrev pub prefix_of : DeviceSubscriptionTypeEnum → Text
prefix_of unsubscribed = []
prefix_of open_cl = 99 ∷ 108 ∷ []
prefix_of cuda = 99 ∷ 117 ∷ []
prefix_of cpu = 99 ∷ 112 ∷ []

abbrev pub new_telemetry : Text → TelemetryAccount
new_telemetry prefix = record {
  prefix = prefix;
  paused = false;
  sensors = record { temp_c = 0; fan_p = 0; power_w = 0 };
  solutions = no_solutions;
}

-- The kinds of miner that the build has, ETH_ETHASHCUDA and the like.
module _ (built : DeviceSubscriptionTypeEnum → Bool) where
  abbrev pub minered : DeviceSubscriptionTypeEnum → Bool
  minered unsubscribed = false
  minered device = built device

  -- The loop of `start` over the devices.
  unfoldable pub start_devices :
      List DeviceSubscriptionTypeEnum
      → List Miner × List TelemetryAccount
      → List Miner × List TelemetryAccount
  start_devices [] (miners, telemetry) = (miners, telemetry)
  start_devices (device ∷ devices) (miners, telemetry) =
      let started : List Miner × List TelemetryAccount = (
        miners ++ call start_working (new_miner (length miners)) ∷ [],
        telemetry ++ new_telemetry (prefix_of device) ∷ [],
      ) in
      start_devices devices (if minered device then started else (miners, telemetry))

  unfoldable pub start : Farm → Farm
  unfolding start_devices
  start farm =
      let (miners, telemetry_miners) = start_devices farm.devices ([], farm.telemetry_miners) in
      let first = record farm {
        miners = miners;
        telemetry_miners = telemetry_miners;
        dag_load = set_dag_load_info farm.settings.dag_load_mode (length miners);
        is_mining = true;
      } in
      let again = record farm { miners = map (call start_working) farm.miners; is_mining = true } in
      if farm.is_mining then farm else if length farm.miners == 0 then first else again

-- The miners are told to stop before they are dropped.
unfoldable pub stop : Farm → Farm
stop farm = if farm.is_mining then record farm { miners = []; is_mining = false } else farm

-- The handler that the manager gives `onMinerRestart`.
unfoldable pub restart : (DeviceSubscriptionTypeEnum → Bool) → Farm → Farm
unfolding start stop
restart built farm = start built (stop farm)

unfoldable pub pause : Farm → Farm
pause farm = record farm {
  paused = true;
  miners = map (pause_miner pause_due_to_farm_paused) farm.miners;
}

unfoldable pub resume : Farm → Farm
resume farm = record farm {
  paused = false;
  miners = map (resume_miner pause_due_to_farm_paused) farm.miners;
}

-- `++` of the `unsigned` that the accounting names.
unfoldable pub count : SolutionAccountingEnum → SolutionAccount → SolutionAccount
count accepted s = record s { accepted_count = u32 (s.accepted_count + 1) }
count rejected s = record s { rejected_count = u32 (s.rejected_count + 1) }
count wasted s = record s { wasted_count = u32 (s.wasted_count + 1) }
count failed s = record s { failed_count = u32 (s.failed_count + 1) }

unfoldable pub account_solution : ℕ → SolutionAccountingEnum → Farm → Outcome
unfolding count
account_solution miner_idx accounting farm =
    let farm = record farm { solutions = count accounting farm.solutions } in
    elim (get_elem? farm.telemetry_miners miner_idx) [
      | none ↦ (some at_out_of_range, farm)
      | some t ↦
          (let t = record t { solutions = count accounting t.solutions } in
            (none, record farm { telemetry_miners = set farm.telemetry_miners miner_idx t }))
    ]

-- `getSolutions` of a miner.
unfoldable pub get_solutions : ℕ → Farm → SolutionAccount
get_solutions miner_idx farm = elim (get_elem? farm.telemetry_miners miner_idx) [
  | none ↦ no_solutions
  | some t ↦ t.solutions
]

unfoldable pub set_t_start_t_stop : ℕ → ℕ → Farm → Farm
set_t_start_t_stop tstart tstop farm = record farm {
  settings = record farm.settings { temp_start = tstart; temp_stop = tstop };
}

unfoldable pub set_nonce_segment_width : ℕ → Farm → Farm
set_nonce_segment_width n farm =
    if farm.current_wp.ex_size_bytes == 0 then record farm { nonce_segment_width = n } else farm

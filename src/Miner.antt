-- ===== src/Miner.antt =====
-- `Miner` of libethcore/Miner.h and libethcore/Miner.cpp: its work, its reasons to pause, its epoch. A
-- kick of the device's thread and the start of its worker are written down in `calls`, the last one
-- first. The rate of hashes and the device's description, which are output only, are left out.
pub mod Pauses
pub mod Loading
use quai_gpu_miner_archive.Ethash.Epoch.{zero_hash}
use quai_gpu_miner_archive.EthashAux.{WorkPackage, no_work, EpochContext}
use quai_gpu_miner_archive.Prelude.{
  ℕ, ◌+◌, Bool, true, false, not, ◌&&◌, ◌||◌, Option, none, some, List, [], ◌∷◌, ltb, ◌==◌,
  if◌then◌else◌, get_or, set, replicate,
}

pub data MinerPauseEnum : Type 0 where
  pause_due_to_over_heating : MinerPauseEnum
  pause_due_to_api_request : MinerPauseEnum
  pause_due_to_farm_paused : MinerPauseEnum
  pause_due_to_insufficient_memory : MinerPauseEnum
  pause_due_to_init_epoch_error : MinerPauseEnum

-- The bit of a reason.
abbrev pub bit_of : MinerPauseEnum → ℕ
bit_of pause_due_to_over_heating = 0
bit_of pause_due_to_api_request = 1
bit_of pause_due_to_farm_paused = 2
bit_of pause_due_to_insufficient_memory = 3
bit_of pause_due_to_init_epoch_error = 4

pub data Call : Type 0 where
  kick_miner : Call
  start_working : Call

-- `m_pauseFlags` is the list of its bits.
pub record Miner : Type 0 where
  pub index : ℕ
  pub pause_flags : List Bool
  pub work : WorkPackage
  pub epoch_context : Option EpochContext
  pub calls : List Call

abbrev pub new_miner : ℕ → Miner
new_miner index = record {
  index = index;
  pause_flags = replicate 5 false;
  work = no_work;
  epoch_context = none;
  calls = [];
}

abbrev pub call : Call → Miner → Miner
call c m = record m { calls = c ∷ m.calls }

-- `bitset::any`.
abbrev pub any : List Bool → Bool
any [] = false
any (b ∷ bs) = b || any bs

unfoldable pub paused : Miner → Bool
paused m = any m.pause_flags

unfoldable pub pause_test : MinerPauseEnum → Miner → Bool
pause_test what m = get_or m.pause_flags (bit_of what) false

-- `m_work.header = h256()`.
abbrev pub void_work : Miner → Miner
void_work m = record m { work = record m.work { header = zero_hash } }

-- What `setWork` does after its test of `paused()`, which is under another lock.
unfoldable pub write_work : Bool → WorkPackage → Miner → Miner
write_work was_paused work m =
    call kick_miner (if was_paused then void_work m else record m { work = work })

-- `setWork` with nothing between its test and its write.
unfoldable pub set_work : WorkPackage → Miner → Miner
unfolding paused write_work
set_work work m = write_work (paused m) work m

unfoldable pub pause : MinerPauseEnum → Miner → Miner
pause what m =
    call kick_miner (void_work (record m { pause_flags = set m.pause_flags (bit_of what) true }))

unfoldable pub resume : MinerPauseEnum → Miner → Miner
resume fromwhat m = record m { pause_flags = set m.pause_flags (bit_of fromwhat) false }

unfoldable pub set_epoch : EpochContext → Miner → Miner
set_epoch ec m = record m { epoch_context = some ec }

-- The static members that put the loading of the datasets in order.
pub record DagLoad : Type 0 where
  pub dag_load_mode : ℕ
  pub dag_load_index : ℕ
  pub miners_count : ℕ

abbrev pub dag_load_mode_sequential : ℕ
dag_load_mode_sequential = 1

unfoldable pub set_dag_load_info : ℕ → ℕ → DagLoad
set_dag_load_info mode devicecount = record {
  dag_load_mode = mode;
  dag_load_index = 0;
  miners_count = devicecount;
}

-- Whether `initEpoch` of the miner of this index leaves its wait.
unfoldable pub may_load : ℕ → DagLoad → Bool
may_load index s =
    not (s.dag_load_mode == dag_load_mode_sequential) || not (ltb s.dag_load_index index)

-- What `initEpoch` does after the miner's own initialization: the turn goes on.
unfoldable pub advance : ℕ → DagLoad → DagLoad
advance index s =
    if s.dag_load_mode == dag_load_mode_sequential
    then record s { dag_load_index = if s.miners_count == index + 1 then 0 else index + 1 }
    else s

-- What `initEpoch` leaves of these members once it has left its wait: a miner that should stop returns
-- before its initialization, and without the turn going on.
unfoldable pub init_epoch : Bool → ℕ → DagLoad → DagLoad
unfolding advance
init_epoch should_stop index s =
    if (s.dag_load_mode == dag_load_mode_sequential) && should_stop then s else advance index s

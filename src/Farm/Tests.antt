-- ===== src/Farm/Tests.antt =====
-- A farm with three devices, one of which nothing subscribes to, and the theorems on it.
use quai_gpu_miner_archive.Ethash.Epoch.{zero_hash}
use quai_gpu_miner_archive.Ethash.Context.{FullContext}
use quai_gpu_miner_archive.Ethash.Kernel.{HashResult}
use quai_gpu_miner_archive.EthashAux.{WorkPackage, Solution, no_work, h256_greater}
use quai_gpu_miner_archive.Managed.{Managed, empty}
use quai_gpu_miner_archive.Managed.Laws.{IsContextOf}
use quai_gpu_miner_archive.Managed.Refinement.{Reachable as ManagedReachable, begins as none_yet}
use quai_gpu_miner_archive.Miner.{
  set_work as set_miner_work, Miner, paused as miner_paused, new_miner, set_dag_load_info, may_load,
  init_epoch, kick_miner,
}
use quai_gpu_miner_archive.Miner.Loading.{set_up, loads, Loads_lem}
use quai_gpu_miner_archive.Progpow.Kernel.{hash}
use quai_gpu_miner_archive.Farm.{
  Farm, FarmSettings, DeviceSubscriptionTypeEnum, new_farm, new_telemetry, start, pause, restart,
  accepted, account_solution, start_devices, open_cl, unsubscribed, cpu,
}
use quai_gpu_miner_archive.Farm.Work.{set_work, deal, hand_out}
use quai_gpu_miner_archive.Farm.Proofs.{submit_proof_async}
use quai_gpu_miner_archive.Farm.Steps.{begins, then_step, starts, pauses, accounts}
use quai_gpu_miner_archive.Farm.Sound.{IsSound}
use quai_gpu_miner_archive.Farm.Safety.{new_farm-IsSound}
use quai_gpu_miner_archive.Farm.Segments.{set_work-disjoint}
use quai_gpu_miner_archive.Farm.Restarts.{
  minered_devices, started_miners, fresh_accounts, restart_lem,
}
use quai_gpu_miner_archive.Farm.Submitting.{failed_proof, handed_on, submit_proof_async_lem}
use quai_gpu_miner_archive.Prelude.{
  ℕ, ◌+◌, ◌^◌, ◌<◌, ◌≡◌, refl, ◌⊎◌, Bool, true, false, ◌||◌, none, some, [], ◌∷◌, ◌++◌, arith, ◌==◌,
  length, replicate, u64,
}

abbrev all_built : DeviceSubscriptionTypeEnum → Bool
all_built device = true

abbrev thirty_two : ℕ → ℕ → ℕ
thirty_two ex_size_bytes size = 32

abbrev settings : FarmSettings
settings = record {
  dag_load_mode = 1;
  no_eval = false;
  hw_mon = 1;
  ergodicity = 0;
  temp_start = 40;
  temp_stop = 80;
}

abbrev idle_farm : Farm
idle_farm = new_farm (open_cl ∷ unsubscribed ∷ cpu ∷ []) settings 1000 empty

abbrev started : Farm
started = start all_built idle_farm

started-two_miners : length started.miners ≡ 2
unfolding start start_devices
started-two_miners = refl

new_farm-IsSound_example : IsSound (account_solution 1 accepted (pause started)).1
unfolding start start_devices pause
new_farm-IsSound_example =
    new_farm-IsSound all_built thirty_two (open_cl ∷ unsubscribed ∷ cpu ∷ []) settings 1000 empty
      (account_solution 1 accepted (pause started)).1
      (then_step (then_step (then_step begins (starts idle_farm)) (pauses started))
        (accounts 1 accepted (pause started) (omega arith)))

-- Two miners at work, as the loop over the devices makes them.
abbrev two_miners : Farm
two_miners = record idle_farm {
  miners = new_miner 0 ∷ new_miner 1 ∷ [];
  telemetry_miners = new_telemetry [] ∷ new_telemetry [] ∷ [];
  is_mining = true;
}

abbrev job : WorkPackage
job = record no_work { header = replicate 8 1; start_nonce = 5; ex_size_bytes = 2 }

abbrev first_miner : Miner
first_miner = record (new_miner 0) { work = job; calls = kick_miner ∷ [] }

abbrev second_miner : Miner
second_miner = record (new_miner 1) {
  work = record job { start_nonce = 5 + 2 ^ 32 };
  calls = kick_miner ∷ [];
}

abbrev working : Farm
working = record two_miners {
  miners = first_miner ∷ second_miner ∷ [];
  current_wp = second_miner.work;
}

handed_out : set_work thirty_two 7 (λ n. true) 0 job two_miners ≡ some working
unfolding set_work deal hand_out set_miner_work
handed_out = refl

running : miner_paused first_miner ≡ false
unfolding miner_paused
running = refl

running' : miner_paused second_miner ≡ false
unfolding miner_paused
running' = refl

set_work-disjoint_example :
    ¬ (u64 (first_miner.work.start_nonce + 70000) ≡ u64 (second_miner.work.start_nonce + 3))
set_work-disjoint_example =
    set_work-disjoint thirty_two 7 (λ n. true) 0 job two_miners working handed_out (omega arith) 0 1
      first_miner second_miner (omega arith) refl refl running running' 70000 3 (omega arith)
      (omega arith)

restart_lem_example :
    ((restart all_built two_miners).is_mining ≡ true)
    × ((restart all_built two_miners).miners
        ≡ started_miners 0 (minered_devices all_built two_miners.devices))
    × ((restart all_built two_miners).telemetry_miners
        ≡ two_miners.telemetry_miners
          ++ fresh_accounts (minered_devices all_built two_miners.devices))
restart_lem_example = restart_lem all_built two_miners refl

abbrev proof : Solution
proof = record {
  nonce = 99;
  mix_hash = zero_hash;
  work = record job { epoch = some 0; block = some 30000 };
  midx = 1;
}

submit_proof_async_lem_example :
    (c : FullContext) × (r : HashResult) × (managed : Managed) × IsContextOf false 0 c
    × (hash c.context 30000 (replicate 8 1) 99 ≡ some r)
    × ManagedReachable false managed
    × (((h256_greater r.final_hash zero_hash ≡ true)
          × (submit_proof_async (λ n. true) 0 proof two_miners
              ≡ some (none, failed_proof proof (new_telemetry []) managed two_miners)))
        ⊎ ((h256_greater r.final_hash zero_hash ≡ false)
            × (submit_proof_async (λ n. true) 0 proof two_miners
                ≡ some (none, handed_on proof r managed two_miners))))
submit_proof_async_lem_example =
    submit_proof_async_lem proof two_miners refl none_yet (new_telemetry []) refl 0 refl
      (omega arith) (λ n. true) 0 (λ n. refl)

first_may : may_load 0 (set_dag_load_info 1 2) ≡ true
unfolding may_load set_dag_load_info
first_may = refl

Loads_lem_example :
    ((1 < 2)
      × (may_load 1 (init_epoch false 0 (set_dag_load_info 1 2)) ≡ true)
      × (((1 == 0) || false) ≡ false)
      × ((i : ℕ)
          → i < 2
          → ((i == 0) || false) ≡ false
          → may_load i (init_epoch false 0 (set_dag_load_info 1 2)) ≡ true
          → i ≡ 1)
      × ((i : ℕ)
          → 1 < i
          → may_load i (init_epoch true 1 (init_epoch false 0 (set_dag_load_info 1 2))) ≡ false))
    ⊎ ((◌≡◌ {A = ℕ} 1 2)
        × ((i : ℕ) → i < 2 → ((i == 0) || false) ≡ true)
        × ((init_epoch false 0 (set_dag_load_info 1 2)).dag_load_index ≡ 0))
Loads_lem_example =
    Loads_lem 2 1 (λ j. (j == 0) || false) (init_epoch false 0 (set_dag_load_info 1 2))
      (loads 0 set_up (omega arith) refl first_may)

-- ===== src/Farm/Steps.antt =====
-- What can happen to the farm of libethcore/Farm.cpp: its operations, and what its miners and the API
-- do with a miner's reasons to pause.
use quai_gpu_miner_archive.EthashAux.{WorkPackage, Solution}
use quai_gpu_miner_archive.Miner.{
  Miner, MinerPauseEnum, pause as pause_miner, resume as resume_miner, write_work,
}
use quai_gpu_miner_archive.Farm.{
  Farm, DeviceSubscriptionTypeEnum, HwSensors, SolutionAccountingEnum, start, stop, restart, pause,
  resume, account_solution, set_t_start_t_stop, set_nonce_segment_width, Outcome,
}
use quai_gpu_miner_archive.Farm.Work.{shuffle, set_work}
use quai_gpu_miner_archive.Farm.Proofs.{submit_proof_async}
use quai_gpu_miner_archive.Farm.Collecting.{collect_data}
use quai_gpu_miner_archive.Prelude.{ℕ, zero, suc, ◌<◌, ◌≡◌, Bool, some, List, [], ◌∷◌, length}

-- A call of a method of the miner at `i`.
abbrev pub at_miner : (Miner → Miner) → ℕ → List Miner → List Miner
at_miner f i [] = []
at_miner f zero (m ∷ ms) = f m ∷ ms
at_miner f (suc i) (m ∷ ms) = m ∷ at_miner f i ms

-- Solutions are accounted to miners that have an account. `writes_late` is the write of a miner's
-- `setWork` whose test was made before other steps: what a pause between the two meets.
module _ (built : DeviceSubscriptionTypeEnum → Bool) (segment_width : ℕ → ℕ → ℕ) where
  pub data Step : Farm → Farm → Type 0 where
    starts : (f : Farm) → Step f (start built f)
    stops : (f : Farm) → Step f (stop f)
    restarts : (f : Farm) → Step f (restart built f)
    pauses : (f : Farm) → Step f (pause f)
    resumes : (f : Farm) → Step f (resume f)
    shuffles : (random : ℕ) (f : Farm) → Step f (shuffle random f)
    works :
        (random : ℕ) (calloc : ℕ → Bool) (thread : ℕ) (wp : WorkPackage) (f f' : Farm)
        → set_work segment_width random calloc thread wp f ≡ some f'
        → Step f f'
    accounts :
        (miner_idx : ℕ) (accounting : SolutionAccountingEnum) (f : Farm)
        → miner_idx < length f.telemetry_miners
        → Step f (account_solution miner_idx accounting f).1
    proves :
        (calloc : ℕ → Bool) (thread : ℕ) (s : Solution) (f : Farm) (o : Outcome)
        → s.midx < length f.telemetry_miners
        → submit_proof_async calloc thread s f ≡ some o
        → Step f o.1
    collects :
        (sensors : ℕ → HwSensors) (ec : Bool) (f : Farm) → Step f (collect_data sensors ec f).1
    thresholds : (tstart tstop : ℕ) (f : Farm) → Step f (set_t_start_t_stop tstart tstop f)
    widens : (n : ℕ) (f : Farm) → Step f (set_nonce_segment_width n f)
    pauses_miner :
        (what : MinerPauseEnum) (i : ℕ) (f : Farm)
        → Step f (record f { miners = at_miner (pause_miner what) i f.miners })
    writes_late :
        (was_paused : Bool) (wp : WorkPackage) (i : ℕ) (f : Farm)
        → Step f (record f { miners = at_miner (write_work was_paused wp) i f.miners })
    resumes_miner :
        (what : MinerPauseEnum) (i : ℕ) (f : Farm)
        → Step f (record f { miners = at_miner (resume_miner what) i f.miners })

  pub data Reachable (first : Farm) : Farm → Type 0 where
    begins : Reachable first first
    then_step : {f f' : Farm} → Reachable first f → Step f f' → Reachable first f'

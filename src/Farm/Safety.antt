-- ===== src/Farm/Safety.antt =====
-- What holds of every state that the farm of libethcore/Farm.cpp comes to.
use quai_gpu_miner_archive.Miner.{pause as pause_miner, resume as resume_miner, write_work}
use quai_gpu_miner_archive.Miner.Pauses.{pause-IsPlaced, resume-IsPlaced, write_work-IsPlaced}
use quai_gpu_miner_archive.Farm.{
  Farm, Outcome, FarmSettings, DeviceSubscriptionTypeEnum, stop, restart, set_t_start_t_stop,
  set_nonce_segment_width, SolutionAccountingEnum, Managed, new_farm, no_solutions,
}
use quai_gpu_miner_archive.Farm.Work.{shuffle}
use quai_gpu_miner_archive.Farm.Accounts.{total, tally}
use quai_gpu_miner_archive.Farm.Steps.{
  Step, Reachable, starts, stops, restarts, pauses, resumes, shuffles, works, accounts, proves,
  collects, thresholds, widens, pauses_miner, resumes_miner, writes_late, begins, then_step,
}
use quai_gpu_miner_archive.Prelude.{
  ℕ, ◌≡◌, refl, Bool, List, [], arith, ◌==◌, if-both, Ensures-at, u32,
}
use quai_gpu_miner_archive.Farm.Sound.{
  IsSound, at_miner-IsSound, start-IsSound, stop-IsSound, pause-IsSound, resume-IsSound,
  account_solution-IsSound, collect_data-IsSound,
}
use quai_gpu_miner_archive.Farm.Working.{set_work-IsSound, submit_proof_async-IsSound}

Step-IsSound :
    (built : DeviceSubscriptionTypeEnum → Bool) (segment_width : ℕ → ℕ → ℕ) (f f' : Farm)
    → Step built segment_width f f'
    → IsSound f
    → IsSound f'
unfolding restart shuffle set_t_start_t_stop set_nonce_segment_width
Step-IsSound built segment_width f _ (starts _) s = start-IsSound f s built
Step-IsSound built segment_width f _ (stops _) s = stop-IsSound f s
Step-IsSound built segment_width f _ (restarts _) s =
    start-IsSound (stop f) (stop-IsSound f s) built
Step-IsSound built segment_width f _ (pauses _) s = pause-IsSound f s
Step-IsSound built segment_width f _ (resumes _) s = resume-IsSound f s
Step-IsSound built segment_width f _ (shuffles random _) s = record {
  places = s.places;
  accounts = s.accounts;
  balanced = s.balanced;
}
Step-IsSound built segment_width f _ (works random calloc thread wp _ f' h) s =
    Ensures-at IsSound _ f' (set_work-IsSound calloc thread segment_width random wp f s) h
Step-IsSound built segment_width f _ (accounts i a _ lt) s = account_solution-IsSound f s i a lt
Step-IsSound built segment_width f _ (proves calloc thread p _ o lt h) s =
    Ensures-at (λ (o : Outcome). IsSound o.1) _ o
      (submit_proof_async-IsSound calloc thread p f lt s) h
Step-IsSound built segment_width f _ (collects sensors ec _) s = collect_data-IsSound f s sensors ec
Step-IsSound built segment_width f _ (thresholds tstart tstop _) s = record {
  places = s.places;
  accounts = s.accounts;
  balanced = s.balanced;
}
Step-IsSound built segment_width f _ (widens n _) s =
    if-both IsSound (f.current_wp.ex_size_bytes == 0) _ f
      (record { places = s.places; accounts = s.accounts; balanced = s.balanced }) s
Step-IsSound built segment_width f _ (pauses_miner what i _) s =
    at_miner-IsSound f s (pause_miner what) i (λ i m p. pause-IsPlaced i m p what)
Step-IsSound built segment_width f _ (writes_late was_paused wp i _) s =
    at_miner-IsSound f s (write_work was_paused wp) i
      (λ i m p. write_work-IsPlaced i m p was_paused wp)
Step-IsSound built segment_width f _ (resumes_miner what i _) s =
    at_miner-IsSound f s (resume_miner what) i (λ i m p. resume-IsPlaced i m p what)

empty-IsBalanced : (b : SolutionAccountingEnum) → tally b no_solutions ≡ u32 (total b [])
unfolding total
empty-IsBalanced SolutionAccountingEnum.accepted = refl
empty-IsBalanced SolutionAccountingEnum.rejected = refl
empty-IsBalanced SolutionAccountingEnum.wasted = refl
empty-IsBalanced SolutionAccountingEnum.failed = refl

-- In every state that a new farm comes to, by any order of starts, stops, restarts, pauses, new work,
-- proofs, accounts, looks at its monitors, changes of a miner's reasons to pause and writes of a
-- miner's work that come late: each miner stands at the place of its index and has the five bits of its
-- reasons; there are at least as many accounts as miners; and under each heading the farm's number of solutions
-- is the sum of the miners' numbers, in 32 bits. Solutions are accounted to miners that have an account.
pub new_farm-IsSound :
    (built : DeviceSubscriptionTypeEnum → Bool) (segment_width : ℕ → ℕ → ℕ)
    (devices : List DeviceSubscriptionTypeEnum) (settings : FarmSettings) (random : ℕ)
    (managed : Managed) (f : Farm)
    → Reachable built segment_width (new_farm devices settings random managed) f
    → IsSound f
new_farm-IsSound built segment_width devices settings random managed _ begins = record {
  places = tt;
  accounts = omega arith;
  balanced = empty-IsBalanced;
}
new_farm-IsSound built segment_width devices settings random managed _ (then_step {f} {f'} r h) =
    Step-IsSound built segment_width f f' h
      (new_farm-IsSound built segment_width devices settings random managed f r)

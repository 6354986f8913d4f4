-- ===== src/Farm/Proofs.antt =====
-- `submitProofAsync` of libethcore/Farm.cpp, of a build that is not a DEV_BUILD.
use quai_gpu_miner_archive.EthashAux.{Solution, h256_greater, eval}
use quai_gpu_miner_archive.Farm.{Farm, Outcome, account_solution, failed}
use quai_gpu_miner_archive.Prelude.{ℕ, Bool, Option, none, some, ◌∷◌, if◌then◌else◌, ◌>>=◌}

-- `m_onSolutionFound(s)`.
abbrev pub on_solution_found : Solution → Farm → Farm
on_solution_found s farm = record farm { found = s ∷ farm.found }

-- `none` is the use of a null pointer, or the context of epoch −1.
unfoldable pub submit_proof_async : (ℕ → Bool) → ℕ → Solution → Farm → Option Outcome
submit_proof_async calloc thread s farm =
    let evaluated = (do
      epoch ← s.work.epoch
      (r, managed) ← eval calloc thread epoch s.work.block s.work.header s.nonce farm.managed
      let farm = record farm { managed = managed }
      let rejected = account_solution s.midx failed farm
      let proven : Outcome = (none, on_solution_found (record s { mix_hash = r.mix_hash }) farm)
      some (if h256_greater r.final_hash s.work.boundary then rejected else proven)) in
    if farm.settings.no_eval then some (none, on_solution_found s farm) else evaluated

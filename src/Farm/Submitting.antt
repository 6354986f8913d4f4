-- ===== src/Farm/Submitting.antt =====
-- What `submitProofAsync` of libethcore/Farm.cpp does with a solution.
use quai_gpu_miner_archive.Ethash.Context.{FullContext}
use quai_gpu_miner_archive.Ethash.Kernel.{HashResult}
use quai_gpu_miner_archive.EthashAux.{Solution, h256_greater, block_number}
use quai_gpu_miner_archive.EthashAux.Eval.{eval-hash}
use quai_gpu_miner_archive.Managed.{Managed}
use quai_gpu_miner_archive.Managed.Laws.{IsContextOf}
use quai_gpu_miner_archive.Managed.Refinement.{Reachable}
use quai_gpu_miner_archive.Progpow.Kernel.{hash}
use quai_gpu_miner_archive.Farm.{Farm, TelemetryAccount, count, failed}
use quai_gpu_miner_archive.Farm.Accounts.{account_solution-some}
use quai_gpu_miner_archive.Farm.Proofs.{submit_proof_async, on_solution_found}
use quai_gpu_miner_archive.Prelude.{
  ℕ, ◌<◌, ◌≡◌, ap, ◌⊎◌, inl, inr, Bool, true, false, none, some, Bool-cases, get_elem?, set,
}

-- The state in which the hash is above the boundary: one failure more for the farm and the miner.
abbrev pub failed_proof : Solution → TelemetryAccount → Managed → Farm → Farm
failed_proof p t managed f = record f {
  managed = managed;
  solutions = count failed f.solutions;
  telemetry_miners =
      set f.telemetry_miners p.midx (record t { solutions = count failed t.solutions });
}

-- The state in which it is not: the handler has the solution, with the mix hash of the evaluation.
abbrev pub handed_on : Solution → HashResult → Managed → Farm → Farm
handed_on p r managed f =
    on_solution_found (record p { mix_hash = r.mix_hash }) (record f { managed = managed })

-- A solution that a miner of the farm gives for one of the first 32640 epochs, with memory at hand and
-- evaluation asked for, is hashed with the context of its epoch, whatever contexts were kept before. If
-- the hash is above the boundary of its work the handler is not called and one more failure is counted
-- for the farm and for the miner; if not, the handler gets the solution with the mix hash of that
-- evaluation, whatever the miner gave, and nothing is counted. No exception ends the call.
pub submit_proof_async_lem :
    (p : Solution) (f : Farm)
    → f.settings.no_eval ≡ false
    → Reachable false f.managed
    → (t : TelemetryAccount) → get_elem? f.telemetry_miners p.midx ≡ some t
    → (e : ℕ) → p.work.epoch ≡ some e
    → e < 32640
    → (calloc : ℕ → Bool) (thread : ℕ) → ((n : ℕ) → calloc n ≡ true)
    → (c : FullContext) × (r : HashResult) × (managed : Managed) × IsContextOf false e c
      × (hash c.context (block_number p.work.block) p.work.header p.nonce ≡ some r)
      × Reachable false managed
      × (((h256_greater r.final_hash p.work.boundary ≡ true)
            × (submit_proof_async calloc thread p f ≡ some (none, failed_proof p t managed f)))
          ⊎ ((h256_greater r.final_hash p.work.boundary ≡ false)
              × (submit_proof_async calloc thread p f ≡ some (none, handed_on p r managed f))))
unfolding submit_proof_async
submit_proof_async_lem p f evaluates reachable t found e at_epoch lt calloc thread memory =
    let (c, r, managed, got, is_context, hashed, reachable') =
      eval-hash f.managed reachable calloc thread e lt memory p.work.block p.work.header p.nonce in
    let counted = account_solution-some p.midx failed (record f { managed = managed }) t found in
    (
      c,
      r,
      managed,
      is_context,
      hashed,
      reachable',
      elim (Bool-cases (h256_greater r.final_hash p.work.boundary)) [
        | inl above ↦
            inl
              (above, simp (submit_proof_async, evaluates, at_epoch, got, above) (ap some counted))
        | inr within ↦ inr (within, simp (submit_proof_async, evaluates, at_epoch, got, within))
      ],
    )

-- ===== src/Managed/Tests.antt =====
-- A first call for epoch 0, and the contexts of the start.
use quai_gpu_miner_archive.Ethash.Context.{FullContext}
use quai_gpu_miner_archive.Managed.{Managed, empty, get_global_epoch_context}
use quai_gpu_miner_archive.Managed.Laws.{IsContextOf}
use quai_gpu_miner_archive.Managed.Refinement.{
  Reachable, get_global_epoch_context-IsContextOf, begins,
}
use quai_gpu_miner_archive.Prelude.{ℕ, ◌≡◌, refl, Bool, true, false, some, arith}

get_global_epoch_context-IsContextOf_example :
    (f : FullContext) × (s' : Managed) × (get_global_epoch_context (λ n. true) false 3 1 empty
      ≡ some (some f, s'))
    × IsContextOf false 1 f
    × Reachable false s'
    × ((calloc' : ℕ → Bool) → get_global_epoch_context calloc' false 3 1 s' ≡ some (some f, s'))
get_global_epoch_context-IsContextOf_example =
    get_global_epoch_context-IsContextOf false empty begins (λ n. true) 3 1 (omega arith)
      (λ n. refl)

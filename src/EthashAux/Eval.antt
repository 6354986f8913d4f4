-- ===== src/EthashAux/Eval.antt =====
-- `EthashAux::eval` of libethcore/EthashAux.cpp.
use quai_gpu_miner_archive.Ethash.Hash.{Hash}
use quai_gpu_miner_archive.Ethash.Context.{FullContext}
use quai_gpu_miner_archive.Ethash.Context.Laws.{IsCreated, create_epoch_context-IsCreated}
use quai_gpu_miner_archive.Ethash.Kernel.{HashResult}
use quai_gpu_miner_archive.Managed.{Managed}
use quai_gpu_miner_archive.Managed.Laws.{IsContextOf}
use quai_gpu_miner_archive.Managed.Refinement.{Reachable, get_global_epoch_context-IsContextOf}
use quai_gpu_miner_archive.Progpow.Kernel.{hash, light_lookup}
use quai_gpu_miner_archive.Progpow.Kernel.Agreement.{
  IsProgpowContext, light_lookup-Agrees, hash_with-Agrees,
}
use quai_gpu_miner_archive.Progpow.Kernel.Created.{created-IsProgpowContext}
use quai_gpu_miner_archive.EthashAux.{block_number, eval}
use quai_gpu_miner_archive.Prelude.{
  ℕ, ◌<◌, ◌≡◌, refl, sym, ◌∙◌, subst, Bool, true, false, Option, some, some-injective,
}

-- The context of one of the first 32640 epochs is one that ProgPoW can work with.
pub IsContextOf-IsCreated :
    (full : Bool) (e : ℕ) (f : FullContext) → e < 32640 → IsContextOf full e f → IsCreated e full f
IsContextOf-IsCreated full e f lt c =
    let (g, created, h) = create_epoch_context-IsCreated (λ n. true) e full lt (λ n. refl) in
    subst (IsCreated e full) (some-injective (some-injective (sym created ∙ c.0))) h

pub progpow_hash-some :
    (f : FullContext) (block : ℕ) (header_hash : Hash) (nonce : ℕ)
    → IsProgpowContext f.context
    → (r : HashResult) × (hash f.context block header_hash nonce ≡ some r)
progpow_hash-some f block header_hash nonce p =
    let (r, d, e, e', h) =
      hash_with-Agrees f.context p (λ d. Unit {0}) (light_lookup f.context)
        (light_lookup-Agrees f.context p) block header_hash nonce tt tt in
    (r, e')

-- The result is that of ProgPoW's hash with the context of the epoch, whatever was kept before.
pub eval-hash :
    (s : Managed)
    → Reachable false s
    → (calloc : ℕ → Bool) (thread e : ℕ) → e < 32640
    → ((n : ℕ) → calloc n ≡ true)
    → (block : Option ℕ) (header_hash : Hash) (nonce : ℕ)
    → (f : FullContext) × (r : HashResult) × (s' : Managed) × (eval calloc thread e block
          header_hash nonce s
        ≡ some (r, s'))
      × IsContextOf false e f
      × (hash f.context (block_number block) header_hash nonce ≡ some r)
      × Reachable false s'
unfolding eval
eval-hash s reachable calloc thread e lt memory block header_hash nonce =
    let (f, s', got, c, reachable', _) =
      get_global_epoch_context-IsContextOf false s reachable calloc thread e lt memory in
    let p = created-IsProgpowContext e false f lt (IsContextOf-IsCreated false e f lt c) in
    let (r, hashed) = progpow_hash-some f (block_number block) header_hash nonce p in
    (f, r, s', rw (got, hashed) refl, c, hashed, reachable')

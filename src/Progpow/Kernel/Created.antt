-- ===== src/Progpow/Kernel/Created.antt =====
-- ProgPoW of libethash/progpow.cpp with the contexts of generic::create_epoch_context of
-- libethash/ethash.cpp.
use quai_gpu_miner_archive.Ethash.Hash.{Hash}
use quai_gpu_miner_archive.Ethash.Context.{FullContext, create_epoch_context}
use quai_gpu_miner_archive.Ethash.Context.Laws.{IsCreated, create_epoch_context-IsCreated}
use quai_gpu_miner_archive.Ethash.Kernel.{SearchResult}
use quai_gpu_miner_archive.Ethash.Kernel.Nonces.{IsFirst}
use quai_gpu_miner_archive.Progpow.Kernel.{hash, search}
use quai_gpu_miner_archive.Progpow.Kernel.Agreement.{IsProgpowContext}
use quai_gpu_miner_archive.Progpow.Kernel.Search.{progpow_search-IsFirst}
use quai_gpu_miner_archive.Prelude.{ℕ, ◌+◌, ◌<◌, ◌≡◌, refl, Bool, true, some, List, arith, u64}

pub created-IsProgpowContext :
    (e : ℕ) (full : Bool) (f : FullContext)
    → e < 32640
    → IsCreated e full f
    → IsProgpowContext f.context
created-IsProgpowContext e full f lt c = record {
  fit = c.fit;
  l1 = c.l1;
  two = omega (arith, c.full_items.0.0);
  fits = omega (arith, c.full_items.1);
}

-- For each of the first 32640 epochs, with memory at hand, a full context is created, and every search
-- with it from its fresh dataset returns the first nonce from `start_nonce` on, below the end of the
-- range as 64 bits hold it, whose ProgPoW hash is within the boundary, or no solution if there is no
-- such nonce, without an access outside an array.
pub create_epoch_context-search :
    (calloc : ℕ → Bool) (e : ℕ)
    → e < 32640
    → ((n : ℕ) → calloc n ≡ true)
    → (block_number : ℕ) (header_hash boundary : Hash) (start_nonce iterations : ℕ)
    → (f : FullContext) × (create_epoch_context calloc e true ≡ some (some f))
      × (s : SearchResult) × (full_dataset : List Hash) × (search f.context block_number header_hash
            boundary start_nonce iterations f.full_dataset
          ≡ some (s, full_dataset))
      × IsFirst
          (hash f.context block_number header_hash)
          boundary
          start_nonce
          (u64 (start_nonce + iterations))
          s
create_epoch_context-search calloc e lt memory block_number header_hash boundary start_nonce
      iterations =
    let (f, created, c) = create_epoch_context-IsCreated calloc e true lt memory in
    let (s, full_dataset, found, light, is_first, d) =
      progpow_search-IsFirst f.context (created-IsProgpowContext e true f lt c) block_number
        header_hash boundary start_nonce iterations f.full_dataset (c.paired refl) in
    (f, created, s, full_dataset, found, is_first)

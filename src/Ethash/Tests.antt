-- ===== src/Ethash/Tests.antt =====
-- The theorems on libethash/ethash.cpp for a context with two items in its light cache and two in its
-- dataset.
use quai_gpu_miner_archive.Ethash.Hash.{Hash, bytes, is_less_or_equal}
use quai_gpu_miner_archive.Ethash.Dataset.{Context}
use quai_gpu_miner_archive.Ethash.Dataset.Sizes.{IsContext}
use quai_gpu_miner_archive.Ethash.Kernel.{
  HashResult, SearchResult, hash, hash_full, verify, search_light, search,
}
use quai_gpu_miner_archive.Ethash.Kernel.Lazy.{IsDataset, hash_full-hash}
use quai_gpu_miner_archive.Ethash.Kernel.Verify.{verify_iff}
use quai_gpu_miner_archive.Ethash.Kernel.Search.{search_light-IsFirst, search-search_light}
use quai_gpu_miner_archive.Ethash.Context.Filling.{fresh-IsFilled}
use quai_gpu_miner_archive.Ethash.Kernel.Nonces.{IsFirst}
use quai_gpu_miner_archive.Ethash.Epoch.{
  zero_hash, initial_cache, calculate_light_cache_num_items, calculate_full_dataset_num_items,
  get_light_cache_size, get_full_dataset_size,
}
use quai_gpu_miner_archive.Ethash.Epoch.Seeds.{IsCoherent, epoch_seed_zero}
use quai_gpu_miner_archive.Ethash.Epoch.Sizes.{epoch_sizes}
use quai_gpu_miner_archive.Ethash.Context.{FullContext, create_epoch_context}
use quai_gpu_miner_archive.Ethash.Context.Laws.{IsCreated, create_epoch_context-IsCreated}
use quai_gpu_miner_archive.Primes.Laws.{IsLargestPrime}
use quai_gpu_miner_archive.Bits.Laws.{IsU32}
use quai_gpu_miner_archive.Prelude.{
  ℕ, zero, suc, ◌+◌, ◌*◌, ◌^◌, ◌<◌, ◌≡◌, refl, ◌↔◌, Bool, true, some, List, [], ◌∷◌, arith,
  replicate, All, u64,
}

abbrev small_context : Context
small_context = record {
  epoch_number = 0;
  light_cache_num_items = 2;
  light_cache = replicate 16 0 ∷ replicate 16 7 ∷ [];
  l1_cache = [];
  full_dataset_num_items = 2;
}

small_context-IsContext : IsContext small_context
small_context-IsContext = record {
  some_items = omega arith;
  is_cache = record { size = refl; items = (refl, (refl, tt)) };
}

abbrev small_dataset : List Hash
small_dataset = replicate 2 (replicate 32 0)

abbrev high_boundary : Hash
high_boundary = replicate 8 0xffffffff

abbrev one_hash : Hash
one_hash = replicate 8 1

replicate-IsU32 : (n w : ℕ) → IsU32 w → All IsU32 (replicate n w)
replicate-IsU32 zero w small = tt
replicate-IsU32 (suc n) w small = (small, replicate-IsU32 n w small)

hash_full-hash_example :
    (r : HashResult) × (full_dataset' : List Hash) × (hash_full small_context zero_hash 5
        small_dataset
      ≡ some (r, full_dataset'))
    × (hash small_context zero_hash 5 ≡ some r)
    × IsDataset small_context full_dataset'
hash_full-hash_example =
    hash_full-hash small_context small_context-IsContext (omega arith) (omega arith) zero_hash 5
      small_dataset (fresh-IsFilled small_context 2)

hash_fifth : (r : HashResult) × (hash small_context zero_hash 5 ≡ some r)
hash_fifth =
    let (r, stored, filled, light, right) =
      hash_full-hash small_context small_context-IsContext (omega arith) (omega arith) zero_hash 5
        small_dataset (fresh-IsFilled small_context 2) in
    (r, light)

verify_iff_example :
    (answer : Bool) × (verify small_context zero_hash zero_hash 5 high_boundary ≡ some answer)
    × ((answer ≡ true) ↔ (
        (bytes hash_fifth.0.mix_hash ≡ bytes zero_hash)
        × (is_less_or_equal hash_fifth.0.final_hash high_boundary ≡ true)))
verify_iff_example =
    verify_iff small_context zero_hash zero_hash high_boundary 5 hash_fifth.0 hash_fifth.1

search_light-IsFirst_example :
    (s : SearchResult) × (search_light small_context zero_hash one_hash 3 4 ≡ some s)
    × IsFirst (hash small_context zero_hash) one_hash 3 (u64 (3 + 4)) s
search_light-IsFirst_example =
    search_light-IsFirst small_context zero_hash one_hash small_context-IsContext 3 4

search-search_light_example :
    (s : SearchResult) × (full_dataset' : List Hash) × (search small_context zero_hash one_hash 3 4
        small_dataset
      ≡ some (s, full_dataset'))
    × (search_light small_context zero_hash one_hash 3 4 ≡ some s)
    × IsDataset small_context full_dataset'
search-search_light_example =
    search-search_light small_context zero_hash one_hash small_context-IsContext (omega arith)
      (omega arith) 3 4 small_dataset (fresh-IsFilled small_context 2)

initial-IsCoherent : IsCoherent initial_cache
initial-IsCoherent = epoch_seed_zero

epoch_sizes_example :
    (light full : ℕ) × (calculate_light_cache_num_items 171 ≡ some light)
    × (calculate_full_dataset_num_items 171 ≡ some full)
    × IsLargestPrime (262144 + 171 * 2048) light
    × IsLargestPrime (8388608 + 171 * 65536) full
    × (8388608 + 171 * 65536 < 2 ^ 31)
    × (get_light_cache_size light ≡ light * 64)
    × (get_full_dataset_size full ≡ full * 128)
epoch_sizes_example = epoch_sizes 171 (omega arith)

-- Memory without end.
abbrev calloc : ℕ → Bool
calloc size = true

create_epoch_context-IsCreated_example :
    (f : FullContext) × (create_epoch_context calloc 171 true ≡ some (some f))
    × IsCreated 171 true f
create_epoch_context-IsCreated_example =
    create_epoch_context-IsCreated calloc 171 true (omega arith) (λ size. refl)

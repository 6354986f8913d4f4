-- ===== src/Progpow/Tests.antt =====
-- The generator's first numbers from its default state, and the theorems on ProgPoW for a context with
-- two items in its light cache and two in its dataset.
use quai_gpu_miner_archive.Bits.{rotl32}
use quai_gpu_miner_archive.Ethash.Hash.{Hash}
use quai_gpu_miner_archive.Ethash.Dataset.{Context}
use quai_gpu_miner_archive.Ethash.Context.{FullContext, create_epoch_context}
use quai_gpu_miner_archive.Ethash.Context.Pairs.{IsPaired, fresh-IsPairs}
use quai_gpu_miner_archive.Ethash.Epoch.{zero_hash}
use quai_gpu_miner_archive.Ethash.Kernel.{HashResult, SearchResult}
use quai_gpu_miner_archive.Ethash.Kernel.Nonces.{IsFirst}
use quai_gpu_miner_archive.Progpow.{kiss99_next, Kiss99, mix_rng_state}
use quai_gpu_miner_archive.Progpow.Shuffle.{IsOrder, mix_rng_state-IsOrder}
use quai_gpu_miner_archive.Progpow.Merge.{random_merge}
use quai_gpu_miner_archive.Progpow.Kernel.{hash, hash_full, search_light, search}
use quai_gpu_miner_archive.Progpow.Kernel.Agreement.{IsProgpowContext}
use quai_gpu_miner_archive.Progpow.Kernel.Lazy.{progpow_hash_full-hash}
use quai_gpu_miner_archive.Progpow.Kernel.Search.{progpow_search-IsFirst}
use quai_gpu_miner_archive.Progpow.Kernel.Created.{create_epoch_context-search}
use quai_gpu_miner_archive.Prelude.{
  ℕ, ◌+◌, ◌≡◌, refl, Bool, true, some, List, [], ◌∷◌, arith, replicate, length-replicate, u64,
}

abbrev default_state : Kiss99
default_state = record { z = 362436069; w = 521288629; jsr = 123456789; jcong = 380116160 }

first_number : (kiss99_next default_state).0 ≡ 769445856
unfolding kiss99_next
first_number = refl

second_number : (kiss99_next (kiss99_next default_state).1).0 ≡ 742012328
unfolding kiss99_next
second_number = refl

mix_rng_state-IsOrder_example :
    IsOrder (mix_rng_state 0xee304846ddd0a47b).dst_seq
    × IsOrder (mix_rng_state 0xee304846ddd0a47b).src_seq
mix_rng_state-IsOrder_example = mix_rng_state-IsOrder 0xee304846ddd0a47b

random_merge_rotates : random_merge 1000000 101 0x10002 ≡ 4000101
unfolding random_merge rotl32
random_merge_rotates = refl

abbrev small_context : Context
small_context = record {
  epoch_number = 0;
  light_cache_num_items = 2;
  light_cache = replicate 16 0 ∷ replicate 16 7 ∷ [];
  l1_cache = replicate 4096 5;
  full_dataset_num_items = 2;
}

small_context-IsProgpowContext : IsProgpowContext small_context
small_context-IsProgpowContext = record {
  fit = record {
    some_items = omega arith;
    is_cache = record { size = refl; items = (refl, (refl, tt)) };
  };
  l1 = length-replicate {A = ℕ} 4096 5;
  two = omega arith;
  fits = omega arith;
}

abbrev small_dataset : List Hash
small_dataset = replicate 2 (replicate 32 0)

progpow_hash_full-hash_example :
    (r : HashResult) × (full_dataset' : List Hash) × (hash_full small_context 30000 zero_hash 5
        small_dataset
      ≡ some (r, full_dataset'))
    × (hash small_context 30000 zero_hash 5 ≡ some r)
    × IsPaired small_context full_dataset'
progpow_hash_full-hash_example =
    progpow_hash_full-hash small_context small_context-IsProgpowContext 30000 zero_hash 5
      small_dataset (fresh-IsPairs small_context 2)

progpow_search-IsFirst_example :
    (s : SearchResult) × (full_dataset' : List Hash) × (search small_context 30000 zero_hash
        (replicate 8 1)
        3
        4
        small_dataset
      ≡ some (s, full_dataset'))
    × (search_light small_context 30000 zero_hash (replicate 8 1) 3 4 ≡ some s)
    × IsFirst (hash small_context 30000 zero_hash) (replicate 8 1) 3 (u64 (3 + 4)) s
    × IsPaired small_context full_dataset'
progpow_search-IsFirst_example =
    progpow_search-IsFirst small_context small_context-IsProgpowContext 30000 zero_hash
      (replicate 8 1) 3 4 small_dataset (fresh-IsPairs small_context 2)

abbrev calloc : ℕ → Bool
calloc size = true

create_epoch_context-search_example :
    (f : FullContext) × (create_epoch_context calloc 0 true ≡ some (some f))
    × (s : SearchResult) × (full_dataset : List Hash) × (search f.context 30000 zero_hash
          (replicate 8 1)
          3
          4
          f.full_dataset
        ≡ some (s, full_dataset))
    × IsFirst (hash f.context 30000 zero_hash) (replicate 8 1) 3 (u64 (3 + 4)) s
create_epoch_context-search_example =
    create_epoch_context-search calloc 0 (omega arith) (λ size. refl) 30000 zero_hash
      (replicate 8 1) 3 4

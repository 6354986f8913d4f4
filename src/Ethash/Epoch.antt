-- ===== src/Ethash/Epoch.antt =====
-- Epochs in libethash/ethash.cpp and libethash/ethash/ethash.hpp: seeds, sizes, the search for an
-- epoch's number by its seed, and the creation of an epoch's context. Epoch numbers are not negative
-- here; the `-1` of `find_epoch_number` is `none`.
pub mod Seeds
pub mod Sizes
use quai_gpu_miner_archive.Primes.{find_largest_prime}
use quai_gpu_miner_archive.Ethash.Hash.{Hash, bytes, keccak256}
use quai_gpu_miner_archive.Prelude.{
  ℕ, zero, suc, ◌+◌, ◌*◌, ◌/◌, ◌^◌, true, false, Option, none, some, ◌==◌, if◌then◌else◌, get_or,
  replicate, u64,
}

abbrev pub epoch_length : ℕ
epoch_length = 2147483647

pub get_epoch_number : ℕ → ℕ
get_epoch_number block_number = block_number / epoch_length

abbrev pub zero_hash : Hash
zero_hash = replicate 8 0

-- The loop of `ethash_calculate_epoch_seed`.
pub hash_times : ℕ → Hash → Hash
hash_times zero seed = seed
hash_times (suc n) seed = hash_times n (keccak256 (bytes seed))

unfoldable pub calculate_epoch_seed : ℕ → Hash
calculate_epoch_seed epoch_number = hash_times epoch_number zero_hash

-- `none` stands for a search for a prime that does not end.
unfoldable pub calculate_light_cache_num_items : ℕ → Option ℕ
calculate_light_cache_num_items epoch_number =
    find_largest_prime (2 ^ 24 / 64 + epoch_number * (2 ^ 17 / 64))

unfoldable pub calculate_full_dataset_num_items : ℕ → Option ℕ
calculate_full_dataset_num_items epoch_number =
    find_largest_prime (2 ^ 30 / 128 + epoch_number * (2 ^ 23 / 128))

pub get_light_cache_size : ℕ → ℕ
get_light_cache_size num_items = u64 (num_items * 64)

pub get_full_dataset_size : ℕ → ℕ
get_full_dataset_size num_items = u64 (num_items * 128)

-- The thread's cache of the last search.
pub record SeedCache : Type 0 where
  pub cached_epoch_number : ℕ
  pub cached_seed : Hash

abbrev pub initial_cache : SeedCache
initial_cache = record { cached_epoch_number = 0; cached_seed = zero_hash }

abbrev pub num_tries : ℕ
num_tries = 30000

abbrev pub first_word : Hash → ℕ
first_word h = get_or h 0 0

-- The loop from epoch `i` on, with `n` tries left.
pub find_from : ℕ → ℕ → ℕ → Hash → SeedCache → Option ℕ × SeedCache
find_from zero i seed_part s cache = (none, cache)
find_from (suc n) i seed_part s cache = elim (first_word s == seed_part) [
  | true ↦ (some i, record { cached_epoch_number = i; cached_seed = s })
  | false ↦ find_from n (i + 1) seed_part (keccak256 (bytes s)) cache
]

unfoldable pub find_epoch_number : Hash → SeedCache → Option ℕ × SeedCache
find_epoch_number seed cache =
    let seed_part = first_word seed in
    let e = cache.cached_epoch_number in
    let s = keccak256 (bytes cache.cached_seed) in
    let search = find_from num_tries 0 seed_part zero_hash cache in
    if first_word cache.cached_seed == seed_part
    then (some e, cache)
    else if first_word s == seed_part
    then (some (e + 1), record { cached_epoch_number = e + 1; cached_seed = s })
    else search

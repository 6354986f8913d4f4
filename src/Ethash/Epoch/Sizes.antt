-- ===== src/Ethash/Epoch/Sizes.antt =====
-- The sizes of an epoch's tables, of libethash/ethash.cpp.
use quai_gpu_miner_archive.Primes.Laws.{IsLargestPrime, find_largest_prime-IsLargestPrime}
use quai_gpu_miner_archive.Ethash.Epoch.{
  calculate_light_cache_num_items, calculate_full_dataset_num_items, get_light_cache_size,
  get_full_dataset_size,
}
use quai_gpu_miner_archive.Prelude.{ℕ, ◌+◌, ◌*◌, ◌^◌, ◌<◌, ◌≡◌, some, arith}

pub calculate_light_cache_num_items-IsLargestPrime :
    (e : ℕ)
    → (n : ℕ) × (calculate_light_cache_num_items e ≡ some n) × IsLargestPrime (262144 + e * 2048) n
unfolding calculate_light_cache_num_items
calculate_light_cache_num_items-IsLargestPrime e =
    find_largest_prime-IsLargestPrime (262144 + e * 2048) (omega arith)

pub calculate_full_dataset_num_items-IsLargestPrime :
    (e : ℕ)
    → (n : ℕ) × (calculate_full_dataset_num_items e ≡ some n)
      × IsLargestPrime (8388608 + e * 65536) n
unfolding calculate_full_dataset_num_items
calculate_full_dataset_num_items-IsLargestPrime e =
    find_largest_prime-IsLargestPrime (8388608 + e * 65536) (omega arith)

-- For the first 32640 epochs both tables have a size: the counts of items are the largest primes up
-- to the bounds of the epoch, the bounds fit a signed 32-bit `int`, and the sizes in bytes do not wrap.
pub epoch_sizes :
    (e : ℕ)
    → e < 32640
    → (light full : ℕ) × (calculate_light_cache_num_items e ≡ some light)
      × (calculate_full_dataset_num_items e ≡ some full)
      × IsLargestPrime (262144 + e * 2048) light
      × IsLargestPrime (8388608 + e * 65536) full
      × (8388608 + e * 65536 < 2 ^ 31)
      × (get_light_cache_size light ≡ light * 64)
      × (get_full_dataset_size full ≡ full * 128)
unfolding get_light_cache_size get_full_dataset_size
epoch_sizes e lt =
    let (light, found, prime) = calculate_light_cache_num_items-IsLargestPrime e in
    let (full, found', prime') = calculate_full_dataset_num_items-IsLargestPrime e in
    (
      light,
      full,
      found,
      found',
      prime,
      prime',
      omega arith,
      omega (arith, prime.1),
      omega (arith, prime'.1),
    )

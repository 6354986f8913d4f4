-- ===== src/Primes/Tests.antt =====
-- The theorem on primes.c at concrete numbers.
use quai_gpu_miner_archive.Primes.{find_largest_prime}
use quai_gpu_miner_archive.Primes.Laws.{IsLargestPrime, find_largest_prime-IsLargestPrime}
use quai_gpu_miner_archive.Prelude.{ℕ, ◌≡◌, refl, some, arith}

find_largest_prime_ends : find_largest_prime 1 ≡ some 0
unfolding find_largest_prime
find_largest_prime_ends = refl

find_largest_prime-IsLargestPrime_example :
    (p : ℕ) × (find_largest_prime 8388608 ≡ some p) × IsLargestPrime 8388608 p
find_largest_prime-IsLargestPrime_example = find_largest_prime-IsLargestPrime 8388608 (omega arith)

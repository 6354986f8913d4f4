-- ===== src/Primes.antt =====
-- libethash/primes.c.
mod Tests
pub mod Laws
use quai_gpu_miner_archive.Prelude.{
  ℕ, zero, suc, ◌+◌, ◌-◌, ◌*◌, ◌%◌, Bool, true, false, Option, none, some, ltb, leb, ◌==◌,
  if◌then◌else◌, ◌>>=◌,
}

-- The loop of `is_odd_prime`, on fuel; `none` means that the fuel ran out. The source takes the
-- square in 64 bits, so it does not wrap.
pub try_divisors : ℕ → ℕ → ℕ → Option Bool
try_divisors zero d number = none
try_divisors (suc fuel) d number = elim (leb (d * d) number) [
  | false ↦ some true
  | true ↦ elim (number % d == 0) [ true ↦ some false | false ↦ try_divisors fuel (d + 2) number ]
]

pub is_odd_prime : ℕ → Option Bool
unfolding try_divisors
is_odd_prime number = try_divisors number 3 number

-- `while (!is_odd_prime(n)) n -= 2;`
pub descend : ℕ → ℕ → Option ℕ
descend zero n = none
descend (suc fuel) n = is_odd_prime n >>= elim [ true ↦ some n | false ↦ descend fuel (n - 2) ]

unfoldable pub find_largest_prime : ℕ → Option ℕ
unfolding is_odd_prime descend
find_largest_prime upper_bound =
    if ltb upper_bound 2
    then some 0
    else if upper_bound == 2
    then some 2
    else let n = if upper_bound % 2 == 0 then upper_bound - 1 else upper_bound in descend n n

-- ===== src/Primes/Laws.antt =====
-- Trial division and the descending search of libethash/primes.c.
use quai_gpu_miner_archive.Primes.{try_divisors, is_odd_prime, descend, find_largest_prime}
use native.Mathlib.Nat.{div-add-mod, mul-mod_left, mul-le-mul, le_refl}
use native.Mathlib.Decide.{dec_lt, ℕ_discrete}
use quai_gpu_miner_archive.Prelude.{
  ℕ, zero, suc, ◌+◌, ◌-◌, ◌*◌, ◌/◌, ◌%◌, ◌≤◌, ◌<◌, ◌≡◌, refl, sym, ap, ◌∙◌, subst, ◌≢◌, ◌↔◌, inl,
  inr, Bool, true, false, some, arith, leb, leb→le, leb_false→lt, Bool-cases,
}

-- No number from 2 up to `d` (excluded) divides `n`.
abbrev pub NoDivisorBelow : ℕ → ℕ → Type 0
NoDivisorBelow d n = (k : ℕ) → 2 ≤ k → k < d → n % k ≢ 0

abbrev pub IsPrime : ℕ → Type 0
IsPrime n = (2 ≤ n) × NoDivisorBelow n n

-- An even number does not divide an odd one.
odd-mod_even : (n e : ℕ) → n % 2 ≡ 1 → e % 2 ≡ 0 → n % e ≢ 0
odd-mod_even n e odd even divides =
    omega (arith, div-add-mod n e, ap (λ (t : ℕ). t * (n / e)) (half e even))
  where
    half : (e : ℕ) → e % 2 ≡ 0 → e ≡ 2 * (e / 2)
    half e even = omega arith

NoDivisorBelow-add_two :
    (d n : ℕ) → n % 2 ≡ 1 → d % 2 ≡ 1 → n % d ≢ 0 → NoDivisorBelow d n → NoDivisorBelow (d + 2) n
NoDivisorBelow-add_two d n odd d_odd ne below k two lt divides =
    ground (arith, below k, odd-mod_even n k odd)

cofactor-lt : (d k q : ℕ) → d ≤ k → k * q < d * d → q < d
cofactor-lt d k q le lt = elim (dec_lt q d) [
  | yes h ↦ h
  | no h ↦ absurd (omega (arith, mul-le-mul le (not_lt h)))
]
  where
    not_lt : ¬ (q < d) → d ≤ q
    not_lt h = omega arith

two-le-cofactor : (n k q : ℕ) → 2 ≤ n → k < n → k * q ≡ n → 2 ≤ q
two-le-cofactor n k zero two lt e = omega arith
two-le-cofactor n k (suc zero) two lt e = omega arith
two-le-cofactor n k (suc (suc q)) two lt e = omega arith

-- A divisor at or above the square root has its cofactor below it.
NoDivisorBelow-sqrt : (d n : ℕ) → 2 ≤ n → n < d * d → NoDivisorBelow d n → NoDivisorBelow n n
NoDivisorBelow-sqrt d n two small below k k_two k_lt divides = elim (dec_lt k d) [
  | yes lt ↦ below k k_two lt divides
  | no ge ↦
      below (n / k) (two-le-cofactor n k (n / k) two k_lt product)
        (cofactor-lt d k (n / k) (omega arith) (rw product small)) cofactor
]
  where
    product : k * (n / k) ≡ n
    product = omega (arith, div-add-mod n k)

    cofactor : n % (n / k) ≡ 0
    cofactor = rw product at (mul-mod_left k (n / k))

module _ (fuel d n : ℕ) where
  try_divisors-past : leb (d * d) n ≡ false → try_divisors (suc fuel) d n ≡ some true
  unfolding try_divisors
  try_divisors-past h = ground arith

  try_divisors-divides : leb (d * d) n ≡ true → n % d ≡ 0 → try_divisors (suc fuel) d n ≡ some false
  unfolding try_divisors
  try_divisors-divides h e = ground arith

  try_divisors-next :
      leb (d * d) n ≡ true → n % d ≢ 0 → try_divisors (suc fuel) d n ≡ try_divisors fuel (d + 2) n
  unfolding try_divisors
  try_divisors-next h e = ground arith

three_times-le : (d n : ℕ) → 3 ≤ d → d * d ≤ n → 3 * d ≤ n
three_times-le d n three le = omega (arith, mul-le-mul three (le_refl d))

-- Trial division from `d` on answers, and answers right, when the fuel covers the numbers left.
try_divisors_lem :
    (fuel d n : ℕ)
    → n % 2 ≡ 1
    → d % 2 ≡ 1
    → 3 ≤ d
    → 2 ≤ n
    → d ≤ n + 1
    → n + 1 < fuel + d
    → NoDivisorBelow d n
    → (b : Bool) × (try_divisors fuel d n ≡ some b) × (b ≡ true ↔ IsPrime n)
try_divisors_lem zero d n odd d_odd three two le enough below = absurd (omega arith)
try_divisors_lem (suc fuel) d n odd d_odd three two le enough below =
    elim (Bool-cases (leb (d * d) n)) [
      | inr past ↦ (
        true,
        try_divisors-past fuel d n past,
        ((λ _. (two, NoDivisorBelow-sqrt d n two (leb_false→lt (d * d) n past) below)), λ _. refl),
      )
      | inl more ↦
          let room = three_times-le d n three (leb→le (d * d) n more) in
          elim (ℕ_discrete (n % d) 0) [
            | yes divides ↦ (
              false,
              try_divisors-divides fuel d n more divides,
              ((λ h. cc), λ prime. absurd (prime.1 d (omega arith) (omega arith) divides)),
            )
            | no not_divides ↦ rw (try_divisors-next fuel d n more not_divides) (
                try_divisors_lem fuel (d + 2) n odd (omega arith) (omega arith) two (omega arith)
                  (omega arith) (NoDivisorBelow-add_two d n odd d_odd not_divides below))
          ]
    ]

NoDivisorBelow-three : (n : ℕ) → n % 2 ≡ 1 → NoDivisorBelow 3 n
NoDivisorBelow-three n odd k two lt divides = ground (arith, odd-mod_even n k odd)

-- On an odd number from 3 on, `is_odd_prime` ends and decides primality.
pub is_odd_prime_lem :
    (n : ℕ) → n % 2 ≡ 1 → 3 ≤ n → (b : Bool) × (is_odd_prime n ≡ some b) × (b ≡ true ↔ IsPrime n)
unfolding is_odd_prime
is_odd_prime_lem n odd three =
    try_divisors_lem n 3 n odd refl (omega arith) (omega arith) (omega arith) (omega arith)
      (NoDivisorBelow-three n odd)

-- What the descending search returns: the largest prime up to `n`.
abbrev pub IsLargestPrime : ℕ → ℕ → Type 0
IsLargestPrime n p = IsPrime p × (p ≤ n) × ((k : ℕ) → p < k → k ≤ n → ¬ IsPrime k)

even-not-IsPrime : (n : ℕ) → n % 2 ≡ 0 → 2 < n → ¬ IsPrime n
even-not-IsPrime n even lt prime = prime.1 2 (omega arith) lt even

three-IsPrime : IsPrime 3
three-IsPrime = (omega arith, NoDivisorBelow-three 3 refl)

module _ (fuel n : ℕ) where
  descend-found : is_odd_prime n ≡ some true → descend (suc fuel) n ≡ some n
  unfolding descend
  descend-found e = rw e

  descend-next : is_odd_prime n ≡ some false → descend (suc fuel) n ≡ descend fuel (n - 2)
  unfolding descend
  descend-next e = rw e

-- Two steps down pass an odd number that is not prime and an even one.
IsLargestPrime-step :
    (n p : ℕ) → n % 2 ≡ 1 → 5 ≤ n → ¬ IsPrime n → IsLargestPrime (n - 2) p → IsLargestPrime n p
IsLargestPrime-step n p odd five composite (prime, le, largest) = (prime, omega arith, above)
  where
    above : (k : ℕ) → p < k → k ≤ n → ¬ IsPrime k
    above k lt k_le = elim (dec_lt k (n - 1)) [
      | yes low ↦ largest k lt (omega arith)
      | no high ↦ elim (ℕ_discrete k n) [
        | yes e ↦ λ k_prime. composite (subst IsPrime e k_prime)
        | no ne ↦ even-not-IsPrime k (omega arith) (omega arith)
      ]
    ]

descend_decided :
    (fuel n : ℕ)
    → n % 2 ≡ 1
    → 3 ≤ n
    → (n ≢ 3 → (p : ℕ) × (descend fuel (n - 2) ≡ some p) × IsLargestPrime (n - 2) p)
    → (b : Bool) × (is_odd_prime n ≡ some b) × (b ≡ true ↔ IsPrime n)
    → (p : ℕ) × (descend (suc fuel) n ≡ some p) × IsLargestPrime n p
descend_decided fuel n odd three lower (true, e, prime) =
    (n, descend-found fuel n e, (prime.0 refl, le_refl n, λ k lt le. absurd (omega arith)))
descend_decided fuel n odd three lower (false, e, prime) = elim (ℕ_discrete n 3) [
  | yes is_three ↦ cc (prime.1 (subst IsPrime (sym is_three) three-IsPrime))
  | no ne ↦
      let (p, found, largest) = lower ne in
      (
        p,
        descend-next fuel n e ∙ found,
        IsLargestPrime-step n p odd (omega arith) (λ h. cc (prime.1 h)) largest,
      )
]

descend_lem :
    (fuel n : ℕ)
    → n % 2 ≡ 1
    → 3 ≤ n
    → n ≤ fuel + 2
    → (p : ℕ) × (descend fuel n ≡ some p) × IsLargestPrime n p
descend_lem zero n odd three enough = absurd (omega arith)
descend_lem (suc fuel) n odd three enough =
    descend_decided fuel n odd three
      (λ ne. descend_lem fuel (n - 2) (omega arith) (omega arith) (omega arith))
      (is_odd_prime_lem n odd three)

two-IsPrime : IsPrime 2
two-IsPrime = (omega arith, λ k two lt. absurd (omega arith))

find_largest_prime-odd : (n : ℕ) → 2 < n → n % 2 ≡ 1 → find_largest_prime n ≡ descend n n
unfolding find_largest_prime
find_largest_prime-odd n lt odd = ground arith

find_largest_prime-even :
    (n : ℕ) → 2 < n → n % 2 ≡ 0 → find_largest_prime n ≡ descend (n - 1) (n - 1)
unfolding find_largest_prime
find_largest_prime-even n lt even = ground arith

IsLargestPrime-even : (n p : ℕ) → 2 < n → n % 2 ≡ 0 → IsLargestPrime (n - 1) p → IsLargestPrime n p
IsLargestPrime-even n p lt even (prime, le, largest) = (prime, omega arith, above)
  where
    above : (k : ℕ) → p < k → k ≤ n → ¬ IsPrime k
    above k lt_k le_k = elim (ℕ_discrete k n) [
      | yes e ↦ λ k_prime. even-not-IsPrime n even lt (subst IsPrime e k_prime)
      | no ne ↦ largest k lt_k (omega arith)
    ]

-- From 2 on the search ends, and returns the largest prime up to its bound.
pub find_largest_prime-IsLargestPrime :
    (n : ℕ) → 2 ≤ n → (p : ℕ) × (find_largest_prime n ≡ some p) × IsLargestPrime n p
find_largest_prime-IsLargestPrime n two = elim (ℕ_discrete n 2) [
  | yes e ↦ (
    2,
    rw e (unfold find_largest_prime in refl),
    (two-IsPrime, omega arith, λ k lt le. absurd (omega arith)),
  )
  | no ne ↦ elim (ℕ_discrete (n % 2) 0) [
    | yes even ↦
        let (p, found, largest) =
          descend_lem (n - 1) (n - 1) (omega arith) (omega arith) (omega arith) in
        (
          p,
          find_largest_prime-even n (omega arith) even ∙ found,
          IsLargestPrime-even n p (omega arith) even largest,
        )
    | no odd ↦
        let (p, found, largest) = descend_lem n n (omega arith) (omega arith) (omega arith) in
        (p, find_largest_prime-odd n (omega arith) (omega arith) ∙ found, largest)
  ]
]

first_full_dataset : find_largest_prime 8388608 ≡ some 8388593
unfolding find_largest_prime
first_full_dataset = refl

-- The number of items of the first full dataset.
pub first_full_dataset-IsPrime : IsPrime 8388593
first_full_dataset-IsPrime =
    let (p, found, largest) = find_largest_prime-IsLargestPrime 8388608 (omega arith) in
    let same : p ≡ 8388593 = cc (sym found ∙ first_full_dataset) in subst IsPrime same largest.0

-- The largest prime up to a bound is not below a prime up to the bound.
pub IsLargestPrime-le : (n p q : ℕ) → IsLargestPrime n p → IsPrime q → q ≤ n → q ≤ p
IsLargestPrime-le n p q h prime le = elim (dec_lt p q) [
  | yes lt ↦ absurd (h.2 q lt le prime)
  | no ge ↦ omega arith
]

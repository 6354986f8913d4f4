-- ===== src/Bits/Digits.antt =====
-- The native bit operations by their lowest digits, and what follows at every width.
use Prim.Native.Nat.{max, differ, digits, bitwise, bit_and-bitwise, bit_or-bitwise, bit_xor-bitwise}
use native.Mathlib.Nat.{pow-suc, one-le-pow, div-add-mod, div-div-eq-div-mul, pow-succ'}
use quai_gpu_miner_archive.Prelude.{
  ℕ, zero, suc, ◌+◌, ◌-◌, ◌*◌, ◌/◌, ◌%◌, ◌^◌, ◌≤◌, ◌<◌, min, bit_and, bit_or, bit_xor, ◌≡◌, refl,
  ap, arith,
}

-- The loop over the digits ends before its fuel does, so that the amount of fuel is no matter.
module _ (rest : ℕ → ℕ) (op : ℕ → ℕ → ℕ) where
  more_fuel :
      (fuel total x y : ℕ)
      → x ≤ fuel
      → fuel ≤ total
      → digits rest op total x y ≡ digits rest op fuel x y
  more_fuel zero zero zero y enough more = refl
  more_fuel zero (suc total) zero y enough more = refl
  more_fuel fuel zero (suc x) y enough more = absurd (omega arith)
  more_fuel zero (suc total) (suc x) y enough more = elim enough [ ]
  more_fuel (suc fuel) zero zero y enough more = elim more [ ]
  more_fuel (suc fuel) (suc total) zero y enough more = refl
  more_fuel (suc fuel) (suc total) (suc x) y enough more =
      rw (more_fuel fuel total (suc x / 2) (y / 2) (omega arith) (omega arith))

  bitwise-digit :
      (x y : ℕ)
      → bitwise rest op (suc x) y ≡ op (suc x % 2) (y % 2) + 2 * bitwise rest op (suc x / 2) (y / 2)
  bitwise-digit x y =
      omega (arith, more_fuel (suc x / 2) x (suc x / 2) (y / 2) (omega arith) (omega arith))

pub bit_xor_step : (x y : ℕ) → bit_xor x y ≡ differ (x % 2) (y % 2) + 2 * bit_xor (x / 2) (y / 2)
bit_xor_step zero y = simp bit_xor-bitwise (omega arith)
bit_xor_step (suc x) y = simp bit_xor-bitwise (bitwise-digit (λ digit. digit) differ x y)

pub bit_or_step : (x y : ℕ) → bit_or x y ≡ max (x % 2) (y % 2) + 2 * bit_or (x / 2) (y / 2)
bit_or_step zero y = simp bit_or-bitwise (omega arith)
bit_or_step (suc x) y = simp bit_or-bitwise (bitwise-digit (λ digit. digit) max x y)

pub bit_and_step : (x y : ℕ) → bit_and x y ≡ min (x % 2) (y % 2) + 2 * bit_and (x / 2) (y / 2)
bit_and_step zero y = simp bit_and-bitwise (omega arith)
bit_and_step (suc x) y = simp bit_and-bitwise (bitwise-digit (λ digit. 0) min x y)

differ-lt : (x y : ℕ) → x < 2 → y < 2 → differ x y < 2
differ-lt zero y h k = k
differ-lt (suc x) zero h k = h
differ-lt (suc x) (suc y) h k = differ-lt x y (omega arith) (omega arith)

differ-cancel : (x y z : ℕ) → x < 2 → y < 2 → z < 2 → differ x z ≡ differ y z → x ≡ y
differ-cancel zero zero z lx ly lz e = refl
differ-cancel zero (suc zero) zero lx ly lz e = absurd (omega arith)
differ-cancel zero (suc zero) (suc zero) lx ly lz e = absurd (omega arith)
differ-cancel (suc zero) zero zero lx ly lz e = absurd (omega arith)
differ-cancel (suc zero) zero (suc zero) lx ly lz e = absurd (omega arith)
differ-cancel (suc zero) (suc zero) z lx ly lz e = refl
differ-cancel (suc (suc x)) y z lx ly lz e = absurd (omega arith)
differ-cancel x (suc (suc y)) z lx ly lz e = absurd (omega arith)
differ-cancel x y (suc (suc z)) lx ly lz e = absurd (omega arith)

-- An exclusive or with one word loses nothing.
bit_xor-cancel_bound : (n a b c : ℕ) → a ≤ n → b ≤ n → bit_xor a c ≡ bit_xor b c → a ≡ b
bit_xor-cancel_bound zero a b c la lb e = omega arith
bit_xor-cancel_bound (suc n) a b c la lb e =
    let digit_a = differ-lt (a % 2) (c % 2) (omega arith) (omega arith) in
    let digit_b = differ-lt (b % 2) (c % 2) (omega arith) (omega arith) in
    let upper : bit_xor (a / 2) (c / 2) ≡ bit_xor (b / 2) (c / 2) =
      omega (arith, bit_xor_step a c, bit_xor_step b c) in
    let lower : differ (a % 2) (c % 2) ≡ differ (b % 2) (c % 2) =
      omega (arith, bit_xor_step a c, bit_xor_step b c) in
    omega (
      arith,
      bit_xor-cancel_bound n (a / 2) (b / 2) (c / 2) (omega arith) (omega arith) upper,
      differ-cancel (a % 2) (b % 2) (c % 2) (omega arith) (omega arith) (omega arith) lower,
    )

pub bit_xor-cancel : (a b c : ℕ) → bit_xor a c ≡ bit_xor b c → a ≡ b
bit_xor-cancel a b c e = bit_xor-cancel_bound (a + b) a b c (omega arith) (omega arith) e

-- No operation leaves the width of its arguments.
pub bit_xor-lt : (k a b : ℕ) → a < 2 ^ k → b < 2 ^ k → bit_xor a b < 2 ^ k
bit_xor-lt zero zero zero h i = omega arith
bit_xor-lt zero zero (suc b) h i = absurd (omega arith)
bit_xor-lt zero (suc a) b h i = absurd (omega arith)
bit_xor-lt (suc k) a b h i = omega (
  arith,
  bit_xor_step a b,
  pow-suc 2 k,
  differ-lt (a % 2) (b % 2) (omega arith) (omega arith),
  bit_xor-lt k (a / 2) (b / 2) (omega (arith, pow-suc 2 k)) (omega (arith, pow-suc 2 k)),
)

pub bit_or-lt : (k a b : ℕ) → a < 2 ^ k → b < 2 ^ k → bit_or a b < 2 ^ k
bit_or-lt zero zero zero h i = omega arith
bit_or-lt zero zero (suc b) h i = absurd (omega arith)
bit_or-lt zero (suc a) b h i = absurd (omega arith)
bit_or-lt (suc k) a b h i = omega (
  arith,
  bit_or_step a b,
  pow-suc 2 k,
  bit_or-lt k (a / 2) (b / 2) (omega (arith, pow-suc 2 k)) (omega (arith, pow-suc 2 k)),
)

pub bit_and-lt : (k a b : ℕ) → a < 2 ^ k → b < 2 ^ k → bit_and a b < 2 ^ k
bit_and-lt zero zero zero h i = omega arith
bit_and-lt zero zero (suc b) h i = absurd (omega arith)
bit_and-lt zero (suc a) b h i = absurd (omega arith)
bit_and-lt (suc k) a b h i = omega (
  arith,
  bit_and_step a b,
  pow-suc 2 k,
  bit_and-lt k (a / 2) (b / 2) (omega (arith, pow-suc 2 k)) (omega (arith, pow-suc 2 k)),
)

bit_or-zero_bound : (n a : ℕ) → a ≤ n → bit_or a 0 ≡ a
bit_or-zero_bound n zero h = refl
bit_or-zero_bound zero (suc a) h = absurd (omega arith)
bit_or-zero_bound (suc n) (suc a) h =
    omega (arith, bit_or_step (suc a) 0, bit_or-zero_bound n (suc a / 2) (omega arith))

-- `|` of two fields that do not overlap is their sum.
pub bit_or_disjoint : (k q r : ℕ) → r < 2 ^ k → bit_or (q * 2 ^ k) r ≡ q * 2 ^ k + r
bit_or_disjoint zero q r h = ground (arith, bit_or-zero_bound q q)
bit_or_disjoint (suc k) q r h = ground (
  arith,
  bit_or_step (q * 2 ^ suc k) r,
  twice,
  bit_or_disjoint k q (r / 2) (omega (arith, pow-suc 2 k)),
)
  where
    twice : q * 2 ^ suc k ≡ 2 * (q * 2 ^ k)
    twice = omega (arith, ap (λ (t : ℕ). q * t) (pow-suc 2 k))

bit_or_comm_bound : (n a b : ℕ) → a ≤ n → b ≤ n → bit_or a b ≡ bit_or b a
bit_or_comm_bound zero zero zero h k = refl
bit_or_comm_bound zero zero (suc b) h k = absurd (omega arith)
bit_or_comm_bound zero (suc a) b h k = absurd (omega arith)
bit_or_comm_bound (suc n) a b h k = omega (
  arith,
  bit_or_step a b,
  bit_or_step b a,
  bit_or_comm_bound n (a / 2) (b / 2) (omega arith) (omega arith),
)

pub bit_or_comm : (a b : ℕ) → bit_or a b ≡ bit_or b a
bit_or_comm a b = bit_or_comm_bound (a + b) a b (omega arith) (omega arith)

bit_or_self_bound : (n a : ℕ) → a ≤ n → bit_or a a ≡ a
bit_or_self_bound n zero h = refl
bit_or_self_bound zero (suc a) h = absurd (omega arith)
bit_or_self_bound (suc n) (suc a) h =
    omega (arith, bit_or_step (suc a) (suc a), bit_or_self_bound n (suc a / 2) (omega arith))

pub bit_or_self : (a : ℕ) → bit_or a a ≡ a
bit_or_self a = bit_or_self_bound a a (omega arith)

bit_and-zero_bound : (n a : ℕ) → a ≤ n → bit_and a 0 ≡ 0
bit_and-zero_bound n zero h = refl
bit_and-zero_bound zero (suc a) h = absurd (omega arith)
bit_and-zero_bound (suc n) (suc a) h =
    omega (arith, bit_and_step (suc a) 0, bit_and-zero_bound n (suc a / 2) (omega arith))

mod_halves : (k a : ℕ) → a % 2 ^ suc k ≡ 2 * (a / 2 % 2 ^ k) + a % 2
mod_halves k a = omega (
  arith,
  div-add-mod a (2 ^ suc k),
  div-add-mod (a / 2) (2 ^ k),
  quotient,
  ap (λ (t : ℕ). t * (a / 2 ^ suc k)) (pow-suc 2 k),
  ap (λ (t : ℕ). 2 ^ k * t) quotient,
)
  where
    quotient : a / 2 / 2 ^ k ≡ a / 2 ^ suc k
    quotient = rw (div-div-eq-div-mul, pow-succ')

-- A mask of `k` low bits is the remainder by `2 ^ k`.
pub bit_and_mask : (k a : ℕ) → bit_and a (2 ^ k - 1) ≡ a % 2 ^ k
bit_and_mask zero a = omega (arith, bit_and-zero_bound a a (omega arith))
bit_and_mask (suc k) a = omega (
  arith,
  bit_and_step a (2 ^ suc k - 1),
  odd,
  ap (bit_and (a / 2)) half,
  mod_halves k a,
  bit_and_mask k (a / 2),
)
  where
    half : (2 ^ suc k - 1) / 2 ≡ 2 ^ k - 1
    half = omega (arith, pow-suc 2 k)

    odd : (2 ^ suc k - 1) % 2 ≡ 1
    odd = omega (arith, pow-suc 2 k, one-le-pow k 2 (omega arith))

-- ===== src/Bits/Counts.antt =====
-- `clz32` and `popcount32` of libethash/bit_manipulation.h.
use quai_gpu_miner_archive.Bits.{bit_length, clz32, count_ones, popcount32}
use native.Mathlib.Nat.{pow-suc}
use native.Mathlib.Decide.{ℕ_discrete}
use quai_gpu_miner_archive.Prelude.{
  ℕ, zero, suc, ◌+◌, ◌-◌, ◌/◌, ◌^◌, ◌≤◌, ◌<◌, ◌≡◌, refl, ◌∙◌, subst, arith,
}

-- The highest digit of `x` is the one at place `b - 1`.
abbrev pub IsBitLength : ℕ → ℕ → Type 0
IsBitLength x b = (0 < b) × (2 ^ (b - 1) ≤ x) × (x < 2 ^ b)

IsBitLength-double : (x b : ℕ) → IsBitLength (x / 2) b → IsBitLength x (b + 1)
IsBitLength-double x zero h = absurd (omega arith)
IsBitLength-double x (suc b) h =
    let low : suc b + 1 - 1 ≡ suc b = omega arith in
    let high : suc b + 1 ≡ suc (suc b) = omega arith in
    let before : suc b - 1 ≡ b = omega arith in
    let half : 2 ^ b ≤ x / 2 = subst (λ k. 2 ^ k ≤ x / 2) before h.1 in
    rw (low, high) (omega arith, omega (arith, pow-suc 2 b), omega (arith, pow-suc 2 (suc b)))

bit_length-zero : (width : ℕ) → bit_length width 0 ≡ 0
unfolding bit_length
bit_length-zero zero = refl
bit_length-zero (suc width) = refl

bit_length-pos : (width x : ℕ) → 0 < x → bit_length (suc width) x ≡ bit_length width (x / 2) + 1
unfolding bit_length
bit_length-pos width x h = ground arith

bit_length-one : (width : ℕ) → bit_length (suc width) 1 ≡ 1
bit_length-one width = bit_length-pos width 1 (omega arith) ∙ omega (arith, bit_length-zero width)

-- Of a positive number below 2 ^ width, `bit_length` counts the digits.
bit_length-IsBitLength :
    (width x : ℕ)
    → 0 < x
    → x < 2 ^ width
    → IsBitLength x (bit_length width x) × (bit_length width x ≤ width)
bit_length-IsBitLength zero x pos lt = absurd (omega arith)
bit_length-IsBitLength (suc width) x pos lt = elim (ℕ_discrete x 1) [
  | yes is_one ↦ rw (is_one, bit_length-one width) (omega arith)
  | no ne ↦
      let (digits, le) =
        bit_length-IsBitLength width (x / 2) (omega arith) (omega (arith, pow-suc 2 width)) in
      rw (bit_length-pos width x pos) (IsBitLength-double x _ digits, omega arith)
]

clz32-pos : (x : ℕ) → 0 < x → clz32 x ≡ 32 - bit_length 32 x
unfolding clz32
clz32-pos x pos = ground arith

clz32-zero : clz32 0 ≡ 32
unfolding clz32
clz32-zero = refl

clz32_placed :
    (x b : ℕ)
    → IsBitLength x b
    → b ≤ 32
    → clz32 x ≡ 32 - b
    → (clz32 x < 32) × (2 ^ (31 - clz32 x) ≤ x) × (x < 2 ^ (32 - clz32 x))
clz32_placed x b digits le e =
    let low : 31 - (32 - b) ≡ b - 1 = omega arith in
    let high : 32 - (32 - b) ≡ b = omega arith in
    rw (e, low, high) (omega arith, digits.1, digits.2)

-- `clz32` places the highest set bit of a 32-bit word that is not zero, and gives 32 for zero.
pub clz32_lem :
    (x : ℕ)
    → x < 2 ^ 32
    → (clz32 0 ≡ 32)
      × (0 < x → (clz32 x < 32) × (2 ^ (31 - clz32 x) ≤ x) × (x < 2 ^ (32 - clz32 x)))
clz32_lem x small = (
  clz32-zero,
  λ pos.
      let (digits, le) = bit_length-IsBitLength 32 x pos small in
      clz32_placed x (bit_length 32 x) digits le (clz32-pos x pos),
)

pub clz32-le : (x : ℕ) → clz32 x ≤ 32
clz32-le zero = omega (arith, clz32-zero)
clz32-le (suc x) = omega (arith, clz32-pos (suc x) (omega arith))

popcount_bound : (width x : ℕ) → count_ones width x ≤ width
unfolding count_ones
popcount_bound zero x = omega arith
popcount_bound (suc width) x = omega (arith, popcount_bound width (x / 2))

pub popcount32-le : (x : ℕ) → popcount32 x ≤ 32
unfolding popcount32
popcount32-le x = popcount_bound 32 x

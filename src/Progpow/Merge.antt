-- ===== src/Progpow/Merge.antt =====
-- `random_math` and `random_merge` of libethash/progpow.cpp.
pub mod Laws
use quai_gpu_miner_archive.Bits.{rotl32, rotr32, mul_hi32, clz32, popcount32}
use quai_gpu_miner_archive.Prelude.{
  ℕ, ◌+◌, ◌*◌, ◌%◌, min, bit_and, bit_or, bit_xor, ◌==◌, if◌then◌else◌, u32, ◌>>>◌,
}

-- The cases of `random_math`, on `selector % 11`.
pub math_case : ℕ → ℕ → ℕ → ℕ
math_case a b k =
    if k == 0
    then u32 (a + b)
    else if k == 1
    then u32 (a * b)
    else if k == 2
    then mul_hi32 a b
    else if k == 3
    then min a b
    else if k == 4
    then rotl32 a b
    else if k == 5
    then rotr32 a b
    else if k == 6
    then bit_and a b
    else if k == 7
    then bit_or a b
    else if k == 8
    then bit_xor a b
    else if k == 9
    then u32 (clz32 a + clz32 b)
    else u32 (popcount32 a + popcount32 b)

unfoldable pub random_math : ℕ → ℕ → ℕ → ℕ
unfolding math_case
random_math a b selector = math_case a b (selector % 11)

-- The cases of `random_merge`, on `selector % 4`, with the count `x` of the rotations.
pub merge_case : ℕ → ℕ → ℕ → ℕ → ℕ
merge_case a b x k =
    if k == 0
    then u32 (u32 (a * 33) + b)
    else if k == 1
    then u32 (bit_xor a b * 33)
    else if k == 2
    then bit_xor (rotl32 a x) b
    else bit_xor (rotr32 a x) b

-- What `a` becomes.
unfoldable pub random_merge : ℕ → ℕ → ℕ → ℕ
unfolding merge_case
random_merge a b selector = merge_case a b ((selector >>> 16) % 31 + 1) (selector % 4)

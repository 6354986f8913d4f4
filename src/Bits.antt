-- ===== src/Bits.antt =====
-- libethash/bit_manipulation.h: rotations, counts of bits, the high word of a product, FNV.
mod Tests
pub mod Digits
pub mod Laws
pub mod Counts
use quai_gpu_miner_archive.Prelude.{
  ℕ, zero, suc, ◌+◌, ◌-◌, ◌*◌, ◌/◌, ◌%◌, ◌^◌, bit_and, bit_or, bit_xor, ◌==◌, if◌then◌else◌, u32,
  u64, ◌<<<◌, ◌>>>◌,
}

-- `(unsigned)(-(int)c) & mask`, for a `c` that is cut to five bits.
pub neg_and_mask : ℕ → ℕ
neg_and_mask c = bit_and (u32 (2 ^ 32 - c)) 31

unfoldable pub rotl32 : ℕ → ℕ → ℕ
unfolding neg_and_mask
rotl32 n c = let k = bit_and c 31 in bit_or (u32 (n <<< k)) (n >>> neg_and_mask k)

unfoldable pub rotr32 : ℕ → ℕ → ℕ
unfolding neg_and_mask
rotr32 n c = let k = bit_and c 31 in bit_or (n >>> k) (u32 (n <<< neg_and_mask k))

-- The number of binary digits of `x`, up to `width`.
pub bit_length : ℕ → ℕ → ℕ
bit_length zero x = 0
bit_length (suc width) x = if x == 0 then 0 else bit_length width (x / 2) + 1

unfoldable pub clz32 : ℕ → ℕ
unfolding bit_length
clz32 x = if x == 0 then 32 else 32 - bit_length 32 x

pub count_ones : ℕ → ℕ → ℕ
count_ones zero x = 0
count_ones (suc width) x = count_ones width (x / 2) + x % 2

unfoldable pub popcount32 : ℕ → ℕ
unfolding count_ones
popcount32 x = count_ones 32 x

unfoldable pub mul_hi32 : ℕ → ℕ → ℕ
mul_hi32 x y = u32 (u64 (x * y) >>> 32)

abbrev pub fnv_prime : ℕ
fnv_prime = 0x01000193

abbrev pub fnv_offset_basis : ℕ
fnv_offset_basis = 0x811c9dc5

unfoldable pub fnv1 : ℕ → ℕ → ℕ
fnv1 u v = bit_xor (u32 (u * fnv_prime)) v

unfoldable pub fnv1a : ℕ → ℕ → ℕ
fnv1a u v = u32 (bit_xor u v * fnv_prime)

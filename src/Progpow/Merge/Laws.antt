-- ===== src/Progpow/Merge/Laws.antt =====
-- `random_merge` of libethash/progpow.cpp, and what it keeps of a register.
use quai_gpu_miner_archive.Bits.{rotl32, rotr32}
use quai_gpu_miner_archive.Bits.Digits.{bit_xor-cancel, bit_xor-lt}
use quai_gpu_miner_archive.Bits.Laws.{
  IsU32, rotl32-injective, rotr32-injective, rotl32-IsU32, rotr32-IsU32,
}
use quai_gpu_miner_archive.Progpow.Merge.{merge_case, random_merge}
use quai_gpu_miner_archive.Prelude.{
  ℕ, zero, suc, ◌+◌, ◌*◌, ◌%◌, ◌<◌, bit_xor, ◌≡◌, arith, u32, ◌>>>◌,
}

times_33-injective : (a b : ℕ) → IsU32 a → IsU32 b → u32 (a * 33) ≡ u32 (b * 33) → a ≡ b
times_33-injective a b la lb e = omega arith

plus-injective : (a b c : ℕ) → IsU32 a → IsU32 b → u32 (a + c) ≡ u32 (b + c) → a ≡ b
plus-injective a b c la lb e = omega arith

merge_case-injective :
    (k a a' b x : ℕ)
    → IsU32 a
    → IsU32 a'
    → IsU32 b
    → 0 < x
    → x < 32
    → merge_case a b x k ≡ merge_case a' b x k
    → a ≡ a'
unfolding merge_case
merge_case-injective zero a a' b x la la' lb pos lt e =
    times_33-injective a a' la la'
      (plus-injective (u32 (a * 33)) (u32 (a' * 33)) b (omega arith) (omega arith) e)
merge_case-injective (suc zero) a a' b x la la' lb pos lt e = bit_xor-cancel a a' b (
    times_33-injective (bit_xor a b) (bit_xor a' b) (bit_xor-lt 32 a b la lb)
      (bit_xor-lt 32 a' b la' lb) e)
merge_case-injective (suc (suc zero)) a a' b x la la' lb pos lt e =
    rotl32-injective a a' x la la' (bit_xor-cancel (rotl32 a x) (rotl32 a' x) b e)
merge_case-injective (suc (suc (suc k))) a a' b x la la' lb pos lt e =
    rotr32-injective a a' x pos lt la la'
      (bit_xor-cancel (rotr32 a x) (rotr32 a' x) b (ground arith))

merge_case-IsU32 : (k a b x : ℕ) → IsU32 a → IsU32 b → IsU32 (merge_case a b x k)
unfolding merge_case
merge_case-IsU32 zero a b x la lb = omega arith
merge_case-IsU32 (suc zero) a b x la lb = omega arith
merge_case-IsU32 (suc (suc zero)) a b x la lb =
    bit_xor-lt 32 (rotl32 a x) b (rotl32-IsU32 a x la) lb
merge_case-IsU32 (suc (suc (suc k))) a b x la lb =
    ground (arith, bit_xor-lt 32 (rotr32 a x) b (rotr32-IsU32 a x la) lb)

-- With a 32-bit word of data, whatever it is, and any selector, `random_merge` keeps the entropy of
-- the register: different 32-bit registers become different ones. What they become is 32 bits wide.
pub random_merge-injective :
    (a a' b selector : ℕ)
    → IsU32 a
    → IsU32 a'
    → IsU32 b
    → (random_merge a b selector ≡ random_merge a' b selector → a ≡ a')
      × IsU32 (random_merge a b selector)
unfolding random_merge
random_merge-injective a a' b selector la la' lb = (
  λ e.
      merge_case-injective (selector % 4) a a' b ((selector >>> 16) % 31 + 1) la la' lb
        (omega arith) (omega arith) e,
  merge_case-IsU32 (selector % 4) a b ((selector >>> 16) % 31 + 1) la lb,
)

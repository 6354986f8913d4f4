-- ===== src/CommonData/BigEndian.antt =====
-- `toBigEndian` and `fromBigEndian` of libdevcore/CommonData.h.
use native.Mathlib.Nat.{mod-eq_of_lt}
use quai_gpu_miner_archive.Bits.Digits.{bit_or_disjoint}
use quai_gpu_miner_archive.CommonData.{to_big_endian, from_big_endian}
use quai_gpu_miner_archive.Prelude.{
  ℕ, zero, suc, ◌*◌, ◌/◌, ◌%◌, ◌^◌, ◌≤◌, ◌<◌, bit_or, ◌≡◌, refl, ◌∙◌, List, [], ◌∷◌, ◌++◌, arith,
}

from_big_endian-append :
    (w ret : ℕ) (xs : List ℕ) (b : ℕ)
    → from_big_endian w ret (xs ++ b ∷ []) ≡ bit_or (from_big_endian w ret xs * 2 ^ 8 % 2 ^ w) b
unfolding from_big_endian
from_big_endian-append w ret [] b = refl
from_big_endian-append w ret (x ∷ xs) b =
    from_big_endian-append w (bit_or (ret * 2 ^ 8 % 2 ^ w) x) xs b

-- A number that `n` bytes can hold, in a type that can hold `n` bytes, is read back from its bytes.
pub from_big_endian-to_big_endian :
    (w val n : ℕ)
    → val < 256 ^ n
    → 256 ^ n ≤ 2 ^ w
    → from_big_endian w 0 (to_big_endian val n) ≡ val
unfolding to_big_endian from_big_endian
from_big_endian-to_big_endian w val zero fits room = omega arith
from_big_endian-to_big_endian w val (suc n) fits room =
    let whole : 256 ^ suc n ≡ 256 * 256 ^ n = omega arith in
    let ih : from_big_endian w 0 (to_big_endian (val / 256) n) ≡ val / 256 =
      from_big_endian-to_big_endian w (val / 256) n (omega arith) (omega arith) in
    let shifted : val / 256 * 2 ^ 8 % 2 ^ w ≡ val / 256 * 2 ^ 8 = mod-eq_of_lt (omega arith) in
    from_big_endian-append w 0 (to_big_endian (val / 256) n) (val % 256)
    ∙ rw (ih, shifted, bit_or_disjoint 8 (val / 256) (val % 256) (omega arith)) (omega arith)

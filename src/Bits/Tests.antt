-- ===== src/Bits/Tests.antt =====
-- The theorems on bit_manipulation.h at concrete words.
use quai_gpu_miner_archive.Bits.{popcount32}
use quai_gpu_miner_archive.Prelude.{◌≡◌, refl}

popcount32_word : popcount32 0xf0f01 ≡ 9
unfolding popcount32
popcount32_word = refl

-- ===== src/Keccak/Tests.antt =====
-- The theorems on keccakf1600.c and keccakf800.c at a concrete state, and a known hash.
use quai_gpu_miner_archive.Keccak.F1600.{keccakf1600}
use quai_gpu_miner_archive.Keccak.F800.{keccakf800}
use quai_gpu_miner_archive.Keccak.F1600.Laws.{keccakf1600-keccak_p}
use quai_gpu_miner_archive.Keccak.F800.Laws.{keccakf800-keccak_p}
use quai_gpu_miner_archive.Keccak.Reference.{keccak_p}
use quai_gpu_miner_archive.Keccak.{
  keccak, absorb, absorb_last, xor_words, xor_at, load_le, from_bytes,
}
use quai_gpu_miner_archive.Prelude.{ℕ, ◌≡◌, refl, List, [], ◌∷◌, replicate}

abbrev ones : List ℕ
ones = replicate 25 1

keccakf1600-keccak_p_example : keccakf1600 ones ≡ keccak_p 64 24 ones
keccakf1600-keccak_p_example = keccakf1600-keccak_p ones refl

keccakf800-keccak_p_example : keccakf800 ones ≡ keccak_p 32 22 ones
keccakf800-keccak_p_example = keccakf800-keccak_p ones refl

keccak256_empty :
    keccak 256 []
    ≡ 0x3c23f7860146d2c5 ∷ 0xc003c7dcb27d7e92 ∷ 0x3b2782ca53b600e5 ∷ 0x70a4855d04d8fa7b ∷ []
unfolding keccak absorb absorb_last xor_words xor_at load_le from_bytes keccakf1600
keccak256_empty = refl

-- ===== src/Ethash/Hash/Sizes.antt =====
-- The lengths of the hashes that the operations of libethash/ethash.cpp give.
use quai_gpu_miner_archive.Keccak.{keccak}
use quai_gpu_miner_archive.Keccak.Laws.{length-keccak}
use quai_gpu_miner_archive.Ethash.Hash.{
  Hash, word64s, from_word64s, fnv1, bitwise_xor, keccak256, keccak512, IsHash256, IsHash512,
}
use quai_gpu_miner_archive.Prelude.{
  ℕ, ◌*◌, ◌/◌, bit_xor, ◌≡◌, refl, List, [], ◌∷◌, arith, length, zip_with, length-zip_with,
}

length-from_word64s : (words : List ℕ) → length (from_word64s words) ≡ 2 * length words
unfolding from_word64s
length-from_word64s [] = refl
length-from_word64s (w ∷ words) = omega (arith, length-from_word64s words)

length-word64s : (h : Hash) → 2 * (length h / 2) ≡ length h → 2 * length (word64s h) ≡ length h
unfolding word64s
length-word64s [] e = refl
length-word64s (lo ∷ []) e = absurd (omega arith)
length-word64s (lo ∷ hi ∷ words) e = omega (arith, length-word64s words (omega arith))

pub keccak512-IsHash512 : (input : List ℕ) → IsHash512 (keccak512 input)
unfolding keccak512
keccak512-IsHash512 input =
    omega (arith, length-from_word64s (keccak 512 input), length-keccak 512 input (omega arith))

pub keccak256-IsHash256 : (input : List ℕ) → IsHash256 (keccak256 input)
unfolding keccak256
keccak256-IsHash256 input =
    omega (arith, length-from_word64s (keccak 256 input), length-keccak 256 input (omega arith))

pub length-fnv1 : (u v : Hash) → length u ≡ length v → length (fnv1 u v) ≡ length u
unfolding fnv1
length-fnv1 u v e = length-zip_with _ u v e

pub bitwise_xor-IsHash512 : (x y : Hash) → IsHash512 x → IsHash512 y → IsHash512 (bitwise_xor x y)
unfolding bitwise_xor
bitwise_xor-IsHash512 x y ex ey = omega (
  arith,
  length-from_word64s (zip_with bit_xor (word64s x) (word64s y)),
  length-zip_with bit_xor (word64s x) (word64s y)
      (omega (arith, length-word64s x (omega arith), length-word64s y (omega arith))),
  length-word64s x (omega arith),
)

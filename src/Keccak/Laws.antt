-- ===== src/Keccak/Laws.antt =====
-- The sponge of libethash/keccak.c.
use quai_gpu_miner_archive.Keccak.F1600.{keccakf1600}
use quai_gpu_miner_archive.Keccak.{keccak, absorb_last}
use quai_gpu_miner_archive.Prelude.{ℕ, ◌/◌, ◌≤◌, ◌≡◌, refl, ◌∙◌, List, arith, length, length-take}

length-keccakf1600 : (state : List ℕ) → length (keccakf1600 state) ≡ 25
unfolding keccakf1600
length-keccakf1600 state = refl

length-absorb_last :
    (block_size : ℕ) (input state : List ℕ) → length (absorb_last block_size input state) ≡ 25
unfolding absorb_last
length-absorb_last block_size input state = length-keccakf1600 _

-- The hash has as many words as its length in bits asks for.
pub length-keccak :
    (bits : ℕ) (input : List ℕ) → bits / 8 / 8 ≤ 25 → length (keccak bits input) ≡ bits / 8 / 8
unfolding keccak
length-keccak bits input le =
    length-take (bits / 8 / 8) _ ∙ rw (length-absorb_last _ _ _) (omega arith)

-- ===== src/Keccak/F800/Laws.antt =====
-- The unrolled permutation of libethash/keccakf800.c and Keccak-p on words of 32 bits.
use quai_gpu_miner_archive.Keccak.Lanes.{Lanes, load, store, store-load}
use quai_gpu_miner_archive.Keccak.Reference.{keccak_round, rounds, constants, keccak_p}
use quai_gpu_miner_archive.Keccak.F800.{
  round_constants, round_even, round_odd, rol, complement, iterate, keccakf800,
}
use quai_gpu_miner_archive.Prelude.{
  ℕ, zero, suc, ◌+◌, ◌≡◌, refl, ap, ◌∙◌, List, [], ◌∷◌, length, get_or,
}

store-round_even : (rc : ℕ) (s : Lanes) → store (round_even rc s) ≡ keccak_round 32 rc (store s)
unfolding store round_even keccak_round rol complement
store-round_even rc s = refl

store-round_odd : (rc : ℕ) (s : Lanes) → store (round_odd rc s) ≡ keccak_round 32 rc (store s)
unfolding store round_odd keccak_round rol complement
store-round_odd rc s = refl

-- The constants that `n` iterations from `round` on read.
used : ℕ → ℕ → List ℕ
used zero round = []
used (suc n) round =
    get_or round_constants round 0 ∷ get_or round_constants (round + 1) 0 ∷ used n (round + 2)

store-iterate :
    (n round : ℕ) (s : Lanes) → store (iterate n round s) ≡ rounds 32 (used n round) (store s)
unfolding iterate rounds used
store-iterate zero round s = refl
store-iterate (suc n) round s =
    let rc0 = get_or round_constants round 0 in
    let rc1 = get_or round_constants (round + 1) 0 in
    store-iterate n (round + 2) (round_odd rc1 (round_even rc0 s))
    ∙ ap (rounds 32 (used n (round + 2)))
        (store-round_odd rc1 (round_even rc0 s) ∙ ap (keccak_round 32 rc1) (store-round_even rc0 s))

used_table : used 11 0 ≡ constants 32 22 1
unfolding used round_constants keccak_p
used_table = refl

-- On every array of 25 words `keccakf800` computes the 22 rounds of Keccak-p on 32-bit words, with
-- the offsets and constants that the definition generates.
pub keccakf800-keccak_p :
    (state : List ℕ) → length state ≡ 25 → keccakf800 state ≡ keccak_p 32 22 state
unfolding keccakf800 keccak_p
keccakf800-keccak_p state e =
    store-iterate 11 0 (load state)
    ∙ ap (λ rcs. rounds 32 rcs (store (load state))) used_table
    ∙ ap (keccak_p 32 22) (store-load state e)

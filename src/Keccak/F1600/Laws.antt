-- ===== src/Keccak/F1600/Laws.antt =====
-- The unrolled permutation of libethash/keccakf1600.c and Keccak-p on words of 64 bits.
use quai_gpu_miner_archive.Keccak.Lanes.{Lanes, load, store, store-load}
use quai_gpu_miner_archive.Keccak.Reference.{keccak_round, rounds, constants, keccak_p}
use quai_gpu_miner_archive.Keccak.F1600.{
  round_constants, round_even, round_odd, rol, complement, iterate, keccakf1600,
}
use quai_gpu_miner_archive.Prelude.{
  ℕ, zero, suc, ◌+◌, ◌≡◌, refl, ap, ◌∙◌, List, [], ◌∷◌, length, get_or,
}

store-round_even : (rc : ℕ) (s : Lanes) → store (round_even rc s) ≡ keccak_round 64 rc (store s)
unfolding store round_even keccak_round rol complement
store-round_even rc s = refl

store-round_odd : (rc : ℕ) (s : Lanes) → store (round_odd rc s) ≡ keccak_round 64 rc (store s)
unfolding store round_odd keccak_round rol complement
store-round_odd rc s = refl

-- The constants that `n` iterations from `round` on read.
used : ℕ → ℕ → List ℕ
used zero round = []
used (suc n) round =
    get_or round_constants round 0 ∷ get_or round_constants (round + 1) 0 ∷ used n (round + 2)

store-iterate :
    (n round : ℕ) (s : Lanes) → store (iterate n round s) ≡ rounds 64 (used n round) (store s)
unfolding iterate rounds used
store-iterate zero round s = refl
store-iterate (suc n) round s =
    let rc0 = get_or round_constants round 0 in
    let rc1 = get_or round_constants (round + 1) 0 in
    store-iterate n (round + 2) (round_odd rc1 (round_even rc0 s))
    ∙ ap (rounds 64 (used n (round + 2)))
        (store-round_odd rc1 (round_even rc0 s) ∙ ap (keccak_round 64 rc1) (store-round_even rc0 s))

used_table : used 12 0 ≡ constants 64 24 1
unfolding used round_constants keccak_p
used_table = refl

-- On every array of 25 words `keccakf1600` computes the 24 rounds of Keccak-p on 64-bit words, with
-- the offsets and constants that the definition generates.
pub keccakf1600-keccak_p :
    (state : List ℕ) → length state ≡ 25 → keccakf1600 state ≡ keccak_p 64 24 state
unfolding keccakf1600 keccak_p
keccakf1600-keccak_p state e =
    store-iterate 12 0 (load state)
    ∙ ap (λ rcs. rounds 64 rcs (store (load state))) used_table
    ∙ ap (keccak_p 64 24) (store-load state e)

-- ===== src/Progpow/Kernel/Verify.antt =====
-- `verify` and `hash` of libethash/progpow.cpp.
use quai_gpu_miner_archive.Ethash.Hash.{Hash, bytes, is_less_or_equal, is_equal}
use quai_gpu_miner_archive.Ethash.Hash.Order.{is_equal_iff}
use quai_gpu_miner_archive.Ethash.Dataset.{Context}
use quai_gpu_miner_archive.Ethash.Kernel.{HashResult}
use quai_gpu_miner_archive.Progpow.Kernel.{
  hash_mix, hash_with, light_lookup, hash, verify, keccak_progpow_64, keccak_progpow_256,
}
use quai_gpu_miner_archive.Progpow.Kernel.Agreement.{
  IsProgpowContext, light_lookup-Agrees, hash_mix-Agrees,
}
use quai_gpu_miner_archive.Prelude.{ℕ, ◌≡◌, sym, ap, ◌↔◌, Bool, true, ◌&&◌, some, arith}

module _ (context : Context) (block_number : ℕ) (header_hash : Hash) (nonce : ℕ) (mix : Hash)
    (e : hash_mix
        (light_lookup context)
        context
        block_number
        (keccak_progpow_64 header_hash nonce)
        tt
      ≡ some (mix, tt)) where
  hash-mix :
      hash context block_number header_hash nonce
      ≡ some (record {
        final_hash = keccak_progpow_256 header_hash (keccak_progpow_64 header_hash nonce) mix;
        mix_hash = mix;
      })
  unfolding hash hash_with
  hash-mix = rw e

  verify-mix :
      (mix_hash boundary : Hash)
      → verify context block_number header_hash mix_hash nonce boundary
        ≡ some (
            is_less_or_equal
              (keccak_progpow_256 header_hash (keccak_progpow_64 header_hash nonce) mix_hash)
              boundary
            && is_equal mix mix_hash)
  unfolding verify
  verify-mix mix_hash boundary = ground arith

-- For a context with a light cache, an L1 cache of 4096 words and a dataset of 2 to 2 ^ 32 - 1 items,
-- ProgPoW's `hash` and `verify` give a result. Verification says yes to a mix hash only if it has the
-- bytes of the mix that `hash` gives, and it says yes to that mix exactly if the final hash that
-- `hash` gives is within the boundary.
pub progpow_verify_iff :
    (context : Context)
    → IsProgpowContext context
    → (block_number : ℕ) (header_hash mix_hash boundary : Hash) (nonce : ℕ)
    → (r : HashResult) × (hash context block_number header_hash nonce ≡ some r)
      × (answer : Bool) × (verify context block_number header_hash mix_hash nonce boundary
          ≡ some answer)
      × (answer ≡ true → bytes r.mix_hash ≡ bytes mix_hash)
      × ((mix_hash ≡ r.mix_hash)
          → (answer ≡ true) ↔ (is_less_or_equal r.final_hash boundary ≡ true))
progpow_verify_iff context p block_number header_hash mix_hash boundary nonce =
    let progpow_seed = keccak_progpow_64 header_hash nonce in
    let (mix, u, e, e', h) =
      hash_mix-Agrees context p (λ d. Unit {0}) (light_lookup context)
        (light_lookup-Agrees context p) block_number progpow_seed tt tt in
    (
      record { final_hash = keccak_progpow_256 header_hash progpow_seed mix; mix_hash = mix },
      hash-mix context block_number header_hash nonce mix e',
      is_less_or_equal (keccak_progpow_256 header_hash progpow_seed mix_hash) boundary
          && is_equal mix mix_hash,
      verify-mix context block_number header_hash nonce mix e' mix_hash boundary,
      ground (arith, is_equal_iff mix mix_hash),
      λ same.
          let equal : is_equal mix mix_hash ≡ true =
            (is_equal_iff mix mix_hash).1 (ap bytes (sym same)) in
          let final : keccak_progpow_256 header_hash progpow_seed mix_hash
              ≡ keccak_progpow_256 header_hash progpow_seed mix =
            ap (keccak_progpow_256 header_hash progpow_seed) same in
          ground arith,
    )

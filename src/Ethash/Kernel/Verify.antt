-- ===== src/Ethash/Kernel/Verify.antt =====
-- `verify` and `hash` of libethash/ethash.cpp.
use quai_gpu_miner_archive.Ethash.Hash.{Hash, bytes, is_less_or_equal, is_equal}
use quai_gpu_miner_archive.Ethash.Hash.Order.{is_equal_iff}
use quai_gpu_miner_archive.Ethash.Dataset.{Context}
use quai_gpu_miner_archive.Ethash.Kernel.{
  HashResult, hash_kernel, hash_with, hash_seed, hash_final, light_lookup, hash, verify,
}
use quai_gpu_miner_archive.Prelude.{
  ℕ, ◌≡◌, sym, ap, ◌∙◌, ◌↔◌, inl, inr, Bool, true, ◌&&◌, none, some, arith, Option-cases,
}

-- Only the bytes of a mix enter the final hash.
hash_final-bytes : (seed a b : Hash) → bytes a ≡ bytes b → hash_final seed a ≡ hash_final seed b
unfolding hash_final
hash_final-bytes seed a b e = rw e

module _ (context : Context) (header_hash : Hash) (nonce : ℕ) (mix : Hash) where
  hash-some :
      hash_kernel (light_lookup context) context (hash_seed header_hash nonce) tt ≡ some (mix, tt)
      → hash context header_hash nonce
        ≡ some
            (record { final_hash = hash_final (hash_seed header_hash nonce) mix; mix_hash = mix })
  unfolding hash hash_with
  hash-some e = rw e

  verify-some :
      (mix_hash boundary : Hash)
      → hash_kernel (light_lookup context) context (hash_seed header_hash nonce) tt ≡ some (mix, tt)
      → verify context header_hash mix_hash nonce boundary
        ≡ some (
            is_less_or_equal (hash_final (hash_seed header_hash nonce) mix_hash) boundary
            && is_equal mix mix_hash)
  unfolding verify
  verify-some mix_hash boundary e = ground arith

hash-none :
    (context : Context) (header_hash : Hash) (nonce : ℕ)
    → hash_kernel (light_lookup context) context (hash_seed header_hash nonce) tt ≡ none
    → hash context header_hash nonce ≡ none
unfolding hash hash_with
hash-none context header_hash nonce e = rw e

-- The result of `hash` comes from the kernel's mix.
hash-kernel :
    (context : Context) (header_hash : Hash) (nonce : ℕ) (r : HashResult)
    → hash context header_hash nonce ≡ some r
    → (hash_kernel (light_lookup context) context (hash_seed header_hash nonce) tt
        ≡ some (r.mix_hash, tt))
      × (r.final_hash ≡ hash_final (hash_seed header_hash nonce) r.mix_hash)
hash-kernel context header_hash nonce r e =
    elim (Option-cases
      (hash_kernel (light_lookup context) context (hash_seed header_hash nonce) tt)) [
        | inl failed ↦ cc (hash-none context header_hash nonce failed)
        | inr ((mix, tt), found) ↦
            let same : r ≡ record {
              final_hash = hash_final (hash_seed header_hash nonce) mix;
              mix_hash = mix;
            } =
              cc (sym e ∙ hash-some context header_hash nonce mix found) in
            (
              found ∙ ap (λ (q : HashResult). some (q.mix_hash, tt)) (sym same),
              ap (λ (q : HashResult). q.final_hash) same
                  ∙ ap (λ (q : HashResult). hash_final (hash_seed header_hash nonce) q.mix_hash)
                      (sym same),
            )
      ]

-- Where `hash` computes a result, `verify` answers, and its answer is yes exactly for the mix that
-- `hash` gives, if the final hash that `hash` gives is within the boundary.
pub verify_iff :
    (context : Context) (header_hash mix_hash boundary : Hash) (nonce : ℕ) (r : HashResult)
    → hash context header_hash nonce ≡ some r
    → (answer : Bool) × (verify context header_hash mix_hash nonce boundary ≡ some answer)
      × ((answer ≡ true)
          ↔ ((bytes r.mix_hash ≡ bytes mix_hash) × (is_less_or_equal r.final_hash boundary ≡ true)))
verify_iff context header_hash mix_hash boundary nonce r e =
    let (found, final) = hash-kernel context header_hash nonce r e in
    (
      is_less_or_equal (hash_final (hash_seed header_hash nonce) mix_hash) boundary
          && is_equal r.mix_hash mix_hash,
      verify-some context header_hash nonce r.mix_hash mix_hash boundary found,
      ground (
        arith,
        is_equal_iff r.mix_hash mix_hash,
        hash_final-bytes (hash_seed header_hash nonce) r.mix_hash mix_hash,
        final,
      ),
    )

-- ===== src/Progpow/Kernel/Search.antt =====
-- The searches of libethash/progpow.cpp and the nonces of their range.
use quai_gpu_miner_archive.Ethash.Hash.{Hash}
use quai_gpu_miner_archive.Ethash.Dataset.{Context}
use quai_gpu_miner_archive.Ethash.Kernel.{SearchResult}
use quai_gpu_miner_archive.Ethash.Kernel.Nonces.{IsFirst, IsFirst-unique, search_with-IsFirst}
use quai_gpu_miner_archive.Progpow.Kernel.{
  hash_with, light_lookup, hash, hash_full, search_light, search,
}
use quai_gpu_miner_archive.Progpow.Kernel.Agreement.{
  IsProgpowContext, light_lookup-Agrees, hash_with-Agrees,
}
use quai_gpu_miner_archive.Progpow.Kernel.Lazy.{progpow_hash_full-hash}
use quai_gpu_miner_archive.Ethash.Context.Pairs.{IsPaired}
use quai_gpu_miner_archive.Prelude.{ℕ, ◌+◌, ◌≡◌, ap, ◌∙◌, some, List, u64}

module _ (context : Context) (p : IsProgpowContext context) (block_number : ℕ)
    (header_hash boundary : Hash) where
  progpow_search_light-IsFirst :
      (start_nonce iterations : ℕ)
      → (s : SearchResult) × (search_light context block_number header_hash boundary start_nonce
            iterations
          ≡ some s)
        × IsFirst
            (hash context block_number header_hash)
            boundary
            start_nonce
            (u64 (start_nonce + iterations))
            s
  unfolding search_light
  progpow_search_light-IsFirst start_nonce iterations =
      let (s, d', found, is_first, u) =
        search_with-IsFirst (hash context block_number header_hash) boundary
          (λ nonce d. hash_with (light_lookup context) context block_number header_hash nonce d)
          (λ d. Unit {0})
          (hash_with-Agrees context p (λ d. Unit {0}) (light_lookup context)
            (light_lookup-Agrees context p) block_number header_hash)
          start_nonce iterations tt tt in
      (s, rw found, is_first)

  -- For a context with a light cache, an L1 cache of 4096 words and a dataset of 2 to 2 ^ 32 - 1
  -- items, from a dataset whose pairs are zero in their first word or right, `search` and
  -- `search_light` return one result: the first nonce from `start_nonce` on, below the end of the
  -- range as 64 bits hold it, whose ProgPoW hash is within the boundary, with that hash, or no
  -- solution if there is no such nonce. The dataset stays so.
  pub progpow_search-IsFirst :
      (start_nonce iterations : ℕ) (full_dataset : List Hash)
      → IsPaired context full_dataset
      → (s : SearchResult) × (full_dataset' : List Hash) × (search context block_number header_hash
            boundary start_nonce iterations full_dataset
          ≡ some (s, full_dataset'))
        × (search_light context block_number header_hash boundary start_nonce iterations ≡ some s)
        × IsFirst
            (hash context block_number header_hash)
            boundary
            start_nonce
            (u64 (start_nonce + iterations))
            s
        × IsPaired context full_dataset'
  unfolding search
  progpow_search-IsFirst start_nonce iterations full_dataset d =
      let (s, stored, found, is_first, d') =
        search_with-IsFirst (hash context block_number header_hash) boundary
          (hash_full context block_number header_hash) (IsPaired context)
          (progpow_hash_full-hash context p block_number header_hash) start_nonce iterations
          full_dataset d in
      let (t, light, is_first') = progpow_search_light-IsFirst start_nonce iterations in
      let same : t ≡ s =
        IsFirst-unique (hash context block_number header_hash) boundary start_nonce
          (u64 (start_nonce + iterations)) t s is_first' is_first in
      (s, stored, found, light ∙ ap some same, is_first, d')

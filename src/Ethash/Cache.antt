-- ===== src/Ethash/Cache.antt =====
-- `generic::build_light_cache` of libethash/ethash.cpp, over the hash function that it takes. `none`
-- is an access outside the array.
pub mod Laws
use quai_gpu_miner_archive.Ethash.Hash.{Hash, bytes, bitwise_xor, keccak512}
use quai_gpu_miner_archive.Prelude.{
  ℕ, ◌+◌, ◌-◌, ◌%◌, Option, some, List, ◌>>=◌, for_range, get_elem?, get_or, set, u32,
}

abbrev pub light_cache_rounds : ℕ
light_cache_rounds = 3

-- A write to an array, which must be in range.
abbrev pub store : List Hash → ℕ → Hash → Option (List Hash)
store cache i item = get_elem? cache i >>= λ old. some (set cache i item)

module _ (hash_fn : List ℕ → Hash) where
  -- One turn of the first loop: the next item of the chain, and the array that holds it.
  pub fill_item : ℕ → Hash × List Hash → Option (Hash × List Hash)
  fill_item i (item, cache) =
      let next = hash_fn (bytes item) in store cache i next >>= λ cache'. some (next, cache')

  -- One turn of the inner loop of the second.
  pub mix_item : ℕ → ℕ → List Hash → Option (List Hash)
  mix_item num_items i cache = do
    let index_limit = u32 num_items
    item ← get_elem? cache i
    let v = get_or item 0 0 % index_limit
    let w = u32 (num_items + i - 1) % index_limit
    x_v ← get_elem? cache v
    x_w ← get_elem? cache w
    store cache i (hash_fn (bytes (bitwise_xor x_v x_w)))

  unfoldable pub generic_build_light_cache : List Hash → ℕ → Hash → Option (List Hash)
  unfolding fill_item mix_item
  generic_build_light_cache cache num_items seed = do
    let item = hash_fn (bytes seed)
    cache ← store cache 0 item
    (last, cache) ← for_range (num_items - 1) 1 fill_item (item, cache)
    for_range light_cache_rounds 0 (λ q. for_range num_items 0 (mix_item num_items)) cache

unfoldable pub build_light_cache : List Hash → ℕ → Hash → Option (List Hash)
build_light_cache = generic_build_light_cache keccak512
